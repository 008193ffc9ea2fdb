-- ===== src/Bench/Timeout.antt =====
-- The goroutine of the benchmarks that ends the wait for the replicator after ten seconds.
use nats_replicator.Prelude.{
  ℕ, zero, suc, ◌+◌, ◌*◌, ◌≤◌, ◌<◌, ◌≡◌, refl, Option, none, some, if◌then◌else◌, ltb, ap, subst,
  arith, Bool-cases, inl, inr,
}
use native.Mathlib.Decide.{ℕ_discrete}

abbrev pub second : ℕ
second = 1000000000

-- The period of its ticker.
abbrev pub period : ℕ
period = 500000000

-- The loop over the ticks of a ticker, from tick k on: `times k` is the time that tick k carries.
-- The result is the tick on which it sends to `repTimeout`; none means that the fuel ran out.
unfoldable pub timeout_loop : (ℕ → ℕ) → ℕ → ℕ → ℕ → Option ℕ
timeout_loop times stop zero k = none
timeout_loop times stop (suc fuel) k =
    let rest = timeout_loop times stop fuel (suc k) in if ltb stop (times k) then some k else rest

-- The goroutine, begun at the time `now`.
unfoldable pub timeout_goroutine : (ℕ → ℕ) → ℕ → ℕ → Option ℕ
unfolding timeout_loop
timeout_goroutine times now fuel = timeout_loop times (now + 10 * second) fuel 0

module _ (times : ℕ → ℕ) (stop : ℕ) where
  timeout_loop_lem :
      (fuel k last : ℕ)
      → k ≤ last
      → last < k + fuel
      → stop < times last
      → (j : ℕ) × (timeout_loop times stop fuel k ≡ some j)
        × (j ≤ last)
        × (stop < times j)
        × ((i : ℕ) → k ≤ i → i < j → times i ≤ stop)
  unfolding timeout_loop
  timeout_loop_lem zero k last h f p = absurd (omega arith)
  timeout_loop_lem (suc fuel) k last h f p = elim (Bool-cases (ltb stop (times k))) [
    | inl e ↦ (k, rw e refl, h, ground arith, λ i a b. absurd (omega arith))
    | inr e ↦
        let below : times k ≤ stop = ground arith in
        let later : suc k ≤ last = elim (ℕ_discrete k last) [
          | yes s ↦ absurd (omega (arith, below, p, ap times s))
          | no d ↦ omega (arith, d, h)
        ] in
        let (j, r, q, s, all) = timeout_loop_lem fuel (suc k) last later (omega arith) p in
        (
          j,
          rw e r,
          q,
          s,
          λ i a b. elim (ℕ_discrete k i) [
            | yes s ↦ subst (λ m. times m ≤ stop) s below
            | no d ↦ all i (omega (arith, d, a)) b
          ],
        )
  ]

-- When no tick comes early, fuel for 21 ticks is enough for the goroutine of the timeout: it
-- sends on one of the first 21 ticks, the first that is more than ten seconds after its start.
pub timeout_goroutine_lem :
    (times : ℕ → ℕ) (now fuel : ℕ)
    → ((k : ℕ) → now + suc k * period ≤ times k)
    → 20 < fuel
    → (j : ℕ) × (timeout_goroutine times now fuel ≡ some j)
      × (j ≤ 20)
      × (now + 10 * second < times j)
      × ((i : ℕ) → i < j → times i ≤ now + 10 * second)
unfolding timeout_goroutine
timeout_goroutine_lem times now fuel h f =
    let (j, e, b, p, all) =
      timeout_loop_lem times (now + 10 * second) fuel 0 20 (omega arith) (omega arith)
        (omega (arith, h 20)) in
    (j, e, b, p, λ i l. all i (omega arith) l)
