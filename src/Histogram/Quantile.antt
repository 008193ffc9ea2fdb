-- ===== src/Histogram/Quantile.antt =====
-- `Quantile` of server/core/histogram.go.
use nats_replicator.Prelude.{
  ℕ, zero, suc, ◌-◌, ◌≤◌, ◌≡◌, refl, sym, subst, inl, inr, true, false, ◌⊎◌, List, [], ◌∷◌, arith,
  Bool-cases,
}
use nats_replicator.Float.{Float, FloatLaws, le, whole, exact_limit}
use nats_replicator.Histogram.{Bin, Histogram, quantile_loop, quantile}
use nats_replicator.Histogram.Merge.{Holds}
use nats_replicator.Histogram.Bounds.{IsValid}

module _ ⦃fl : Float⦄ where
  -- `v` is the value of one of the bins.
  abbrev pub IsValueOf : fl.F → List Bin → Type 0
  IsValueOf v [] = ⊥
  IsValueOf v (b ∷ bins) = (v ≡ b.value) ⊎ IsValueOf v bins

module _ ⦃fl : Float⦄ (laws : FloatLaws ⦃fl = fl⦄) where
  not_empty : (x : fl.F) (n : ℕ) → le x (whole n) ≡ true → le x (whole 0) ≡ false → 1 ≤ n
  not_empty x zero s e = cc
  not_empty x (suc n) s e = omega arith

  quantile_loop_here :
      (x : fl.F) (b : Bin) (bins : List Bin)
      → le (fl.sub x b.count) (whole 0) ≡ true
      → quantile_loop x (b ∷ bins) ≡ b.value
  unfolding quantile_loop
  quantile_loop_here x b bins e = rw (e, quantile_loop) refl

  quantile_loop_later :
      (x : fl.F) (b : Bin) (bins : List Bin)
      → le (fl.sub x b.count) (whole 0) ≡ false
      → quantile_loop x (b ∷ bins) ≡ quantile_loop (fl.sub x b.count) bins
  unfolding quantile_loop
  quantile_loop_later x b bins e = rw (e, quantile_loop) refl

  quantile_loop_lem :
      (x : fl.F) (bins : List Bin) (n : ℕ)
      → 1 ≤ n
      → n ≤ exact_limit
      → Holds laws bins n
      → le x (whole n) ≡ true
      → IsValueOf (quantile_loop x bins) bins
  quantile_loop_lem x [] n pos lim h below = absurd (omega arith)
  quantile_loop_lem x (b ∷ bins) n pos lim (k, pk, lk, ck, nb, h) below =
      elim (Bool-cases (le (fl.sub x b.count) (whole 0))) [
        | inl e ↦ inl (quantile_loop_here x b bins e)
        | inr e ↦
            let s : le (fl.sub x b.count) (whole (n - k)) ≡ true =
              rw ck (laws.sub_le x n k lk lim below) in
            subst (λ v. IsValueOf v (b ∷ bins)) (sym (quantile_loop_later x b bins e))
              (inr (
                quantile_loop_lem (fl.sub x b.count) bins (n - k)
                  (not_empty (fl.sub x b.count) (n - k) s e) (omega arith) h s))
      ]

  -- In a valid histogram with at least one value, Quantile returns the value of a bin for every
  -- fraction, never the -1 behind its loop.
  pub quantile-IsValueOf :
      (h : Histogram) (q : fl.F)
      → IsValid laws h
      → 1 ≤ h.total
      → laws.IsFraction q
      → IsValueOf (quantile h q) h.bins
  unfolding quantile
  quantile-IsValueOf h q v pos fr =
      quantile_loop_lem (fl.mul q (whole h.total)) h.bins h.total pos v.in_range v.holds
        (laws.scale_le q h.total fr v.in_range)
