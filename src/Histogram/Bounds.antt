-- ===== src/Histogram/Bounds.antt =====
-- `Add` of server/core/histogram.go: its bound, and the counts of the bins.
use nats_replicator.Prelude.{
  ℕ, ◌+◌, ◌≤◌, ◌<◌, ◌≡◌, refl, ap, subst, ◌∙◌, List, [], ◌∷◌, All, arith, length,
}
use nats_replicator.Prelude.Outcome.{Outcome, done, ◌>>=◌}
use nats_replicator.Float.{Float, FloatLaws, exact_limit}
use nats_replicator.Histogram.{Bin, Histogram, new_histogram, trim, add, add_to_bins, trim_loop}
use nats_replicator.Histogram.Merge.{Holds, add_to_bins-Holds, trim_loop_lem}

module _ ⦃fl : Float⦄ (laws : FloatLaws ⦃fl = fl⦄) where
  -- The bins stay below the maximum, and their counts add up to `total`.
  pub record IsValid (h : Histogram) : Type 0 where
    pub room : 1 ≤ h.max_bins
    pub bounded : length h.bins ≤ h.max_bins
    pub in_range : h.total ≤ exact_limit
    pub holds : Holds laws h.bins h.total

  pub new_histogram-IsValid : (n : ℕ) → 1 ≤ n → IsValid (new_histogram n)
  unfolding new_histogram
  new_histogram-IsValid n h = record {
    room = h;
    bounded = omega arith;
    in_range = omega arith;
    holds = omega arith;
  }

  add_of_trim :
      (h : Histogram) (x : fl.F) (bins : List Bin)
      → h.total < exact_limit
      → trim_loop (length (add_to_bins x h.bins)) h.max_bins (add_to_bins x h.bins) ≡ done bins
      → add h x ≡ done (record { bins = bins; max_bins = h.max_bins; total = h.total + 1 })
  unfolding add
  add_of_trim h x bins lim e = rw e (
      ap (λ (t : ℕ). done (record { bins = bins; max_bins = h.max_bins; total = t })) (omega arith))

  -- One more value: `Add` finishes without a panic, and the result is valid with one more entry.
  pub add_lem :
      (h : Histogram) (x : fl.F)
      → IsValid h
      → laws.IsNs x
      → h.total < exact_limit
      → (h' : Histogram) × (add h x ≡ done h')
        × IsValid h'
        × (h'.total ≡ h.total + 1)
        × (h'.max_bins ≡ h.max_bins)
  unfolding add trim
  add_lem h x v ns lim =
      let holds = add_to_bins-Holds laws x h.bins h.total ns lim v.holds in
      let (bins, e, len, hr) =
        trim_loop_lem laws (length (add_to_bins x h.bins)) h.max_bins (add_to_bins x h.bins)
          (h.total + 1) v.room (omega arith) (omega arith) holds in
      (
        record { bins = bins; max_bins = h.max_bins; total = h.total + 1 },
        add_of_trim h x bins lim e,
        record { room = v.room; bounded = len; in_range = omega arith; holds = hr },
        refl,
        refl,
      )

-- Add on each value in turn.
module _ ⦃fl : Float⦄ where
  pub add_all : Histogram → List fl.F → Outcome Histogram
  add_all h [] = done h
  add_all h (x ∷ xs) = add h x >>= λ h'. add_all h' xs

module _ ⦃fl : Float⦄ (laws : FloatLaws ⦃fl = fl⦄) where
  pub add_all_lem :
      (h : Histogram) (xs : List fl.F)
      → IsValid laws h
      → All laws.IsNs xs
      → h.total + length xs ≤ exact_limit
      → (h' : Histogram) × (add_all h xs ≡ done h')
        × IsValid laws h'
        × (h'.total ≡ h.total + length xs)
        × (h'.max_bins ≡ h.max_bins)
  unfolding add_all
  add_all_lem h [] v ns lim = (h, refl, v, omega arith, refl)
  add_all_lem h (x ∷ xs) v (nx, ns) lim =
      let (h₁, e₁, v₁, t₁, m₁) = add_lem laws h x v nx (omega arith) in
      let (h₂, e₂, v₂, t₂, m₂) = add_all_lem h₁ xs v₁ ns (omega arith) in
      (h₂, rw (e₁) e₂, v₂, omega arith, m₂ ∙ m₁)

  -- A new histogram of n bins, n positive, takes up to 2^53 times: no Add panics, at most n bins
  -- are in use, and their counts sum up to the number of values added, which is the total.
  pub new_histogram-add_all :
      (n : ℕ) (xs : List fl.F)
      → 1 ≤ n
      → All laws.IsNs xs
      → length xs ≤ exact_limit
      → (h : Histogram) × (add_all (new_histogram n) xs ≡ done h)
        × (length h.bins ≤ n)
        × (h.total ≡ length xs)
        × Holds laws h.bins (length xs)
  unfolding new_histogram
  new_histogram-add_all n xs pos ns lim =
      let (h, e, v, t, m) =
        add_all_lem (new_histogram n) xs (new_histogram-IsValid laws n pos) ns (omega arith) in
      let te : h.total ≡ length xs = omega arith in
      (h, e, omega (arith, v.bounded), te, subst (Holds laws h.bins) te v.holds)
