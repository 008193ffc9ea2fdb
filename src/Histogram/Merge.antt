-- ===== src/Histogram/Merge.antt =====
-- `trim` of server/core/histogram.go: the bins that it merges.
use nats_replicator.Prelude.{
  ℕ, zero, suc, ◌+◌, ◌-◌, ◌≤◌, ◌<◌, ◌≡◌, refl, subst, ◌⊎◌, inl, inr, List, [], ◌∷◌, arith,
  Bool-cases, length, ltb→le, ltb→lt, ltb,
}
use nats_replicator.Prelude.Outcome.{done}
use nats_replicator.Float.{Float, FloatLaws, whole, exact_limit}
use nats_replicator.Histogram.{
  Bin, closest, min_delta_index, merged_bin, merge_at, trim_loop, add_to_bins,
}

module _ ⦃fl : Float⦄ (laws : FloatLaws ⦃fl = fl⦄) where
  -- The bins hold times, and `n` entries in all.
  abbrev pub Holds : List Bin → ℕ → Type 0
  Holds [] n = n ≡ 0
  Holds (b ∷ bins) n =
      (k : ℕ) × (1 ≤ k) × (k ≤ n) × (b.count ≡ whole k) × laws.IsNs b.value × Holds bins (n - k)

  Holds-cast : {m n : ℕ} (bins : List Bin) → m ≡ n → Holds bins m → Holds bins n
  Holds-cast bins e h = subst (Holds bins) e h

  pub add_to_bins-Holds :
      (x : fl.F) (bins : List Bin) (n : ℕ)
      → laws.IsNs x
      → n < exact_limit
      → Holds bins n
      → Holds (add_to_bins x bins) (n + 1)
  unfolding add_to_bins
  add_to_bins-Holds x [] n ns lim h = (1, omega arith, omega arith, refl, ns, omega arith)
  add_to_bins-Holds x (b ∷ bins) n ns lim (k, pos, le, ck, nb, h) =
      elim (Bool-cases (fl.eq b.value x)) [
        | inl e ↦
            rw (e, add_to_bins)
              (
                k + 1,
                omega arith,
                omega arith,
                rw ck (laws.add_exact k 1 (omega arith)),
                nb,
                Holds-cast bins (omega arith) h,
              )
        | inr e ↦ elim (Bool-cases (fl.lt x b.value)) [
          | inl g ↦
              rw (e, g, add_to_bins)
                (
                  1,
                  omega arith,
                  omega arith,
                  refl,
                  ns,
                  (k, pos, omega arith, ck, nb, Holds-cast bins (omega arith) h),
                )
          | inr g ↦
              rw (e, g, add_to_bins)
                (
                  k,
                  pos,
                  omega arith,
                  ck,
                  nb,
                  Holds-cast (add_to_bins x bins) (omega arith)
                      (add_to_bins-Holds x bins (n - k) ns (omega arith) h),
                )
        ]
      ]

  pub closest_range :
      (prev : fl.F) (bins : List Bin) (i : ℕ) (m : fl.F) (j : ℕ)
      → (closest prev bins i m j ≡ j)
        ⊎ ((i ≤ closest prev bins i m j) × (closest prev bins i m j < i + length bins))
  unfolding closest
  closest_range prev [] i m j = inl refl
  closest_range prev (b ∷ bins) i m j = elim (Bool-cases (fl.lt (fl.sub b.value prev) m)) [
    | inl e ↦
        rw (e, closest) (omega (arith, closest_range b.value bins (suc i) (fl.sub b.value prev) i))
    | inr e ↦ rw (e, closest) (omega (arith, closest_range b.value bins (suc i) m j))
  ]

  pub min_delta_index_range :
      (a b : Bin) (bins : List Bin) (n : ℕ)
      → Holds (a ∷ b ∷ bins) n
      → (1 ≤ min_delta_index (a ∷ b ∷ bins)) × (min_delta_index (a ∷ b ∷ bins) < 2 + length bins)
  unfolding min_delta_index closest
  min_delta_index_range a b bins n (k, _, _, _, na, (k', _, _, _, nb, _)) =
      rw (laws.delta_small a.value b.value na nb)
        (omega (arith, closest_range b.value bins 2 (fl.sub b.value a.value) 1))

  merge_range :
      (bins : List Bin) (n : ℕ)
      → 2 ≤ length bins
      → Holds bins n
      → (1 ≤ min_delta_index bins) × (min_delta_index bins < length bins)
  merge_range [] n l h = absurd (omega arith)
  merge_range (a ∷ []) n l h = absurd (omega arith)
  merge_range (a ∷ b ∷ bins) n l h = omega (arith, min_delta_index_range a b bins n h)

  pub merge_at_lem :
      (i : ℕ) (bins : List Bin) (n : ℕ)
      → 1 ≤ i
      → i < length bins
      → n ≤ exact_limit
      → Holds bins n
      → (rest : List Bin) × (merge_at i bins ≡ done rest)
        × (length bins ≡ suc (length rest))
        × Holds rest n
  unfolding merge_at merged_bin
  merge_at_lem zero bins n p q lim h = absurd (omega arith)
  merge_at_lem (suc i) [] n p q lim h = absurd (omega arith)
  merge_at_lem (suc zero) (a ∷ []) n p q lim h = absurd (omega arith)
  merge_at_lem (suc zero) (a ∷ b ∷ bins) n p q lim (k, pk, lk, ck, na, (k', pk', lk', ck', nb, h)) =
      (
        merged_bin a b ∷ bins,
        refl,
        refl,
        (
          k + k',
          omega arith,
          omega arith,
          rw (ck, ck') (laws.add_exact k k' (omega arith)),
          rw (ck, ck', laws.add_exact k k' (omega arith))
              (laws.mean_ns a.value b.value k k' na nb pk pk' (omega arith)),
          Holds-cast bins (omega arith) h,
        ),
      )
  merge_at_lem (suc (suc i)) (a ∷ bins) n p q lim (k, pk, lk, ck, na, h) =
      let (rest, e, len, hr) =
        merge_at_lem (suc i) bins (n - k) (omega arith) (omega arith) (omega arith) h in
      (a ∷ rest, rw e refl, omega arith, (k, pk, lk, ck, na, hr))

  -- With fuel for each bin the loop ends, with no index out of range, at the bound or below.
  pub trim_loop_lem :
      (fuel m : ℕ) (bins : List Bin) (n : ℕ)
      → 1 ≤ m
      → length bins ≤ fuel
      → n ≤ exact_limit
      → Holds bins n
      → (rest : List Bin) × (trim_loop fuel m bins ≡ done rest) × (length rest ≤ m) × Holds rest n
  unfolding trim_loop
  trim_loop_lem zero m bins n pm lf lim h = (bins, refl, omega arith, h)
  trim_loop_lem (suc fuel) m bins n pm lf lim h = elim (Bool-cases (ltb m (length bins))) [
    | inr e ↦ (bins, rw (e, trim_loop) refl, ltb→le m (length bins) e, h)
    | inl e ↦
        let (i, j) = merge_range bins n (omega (arith, ltb→lt m (length bins) e)) h in
        let (rest, em, len, hr) = merge_at_lem (min_delta_index bins) bins n i j lim h in
        let (out, eo, lo, ho) = trim_loop_lem fuel m rest n pm (omega arith) lim hr in
        (out, rw (e, trim_loop, em) eo, lo, ho)
  ]
