-- ===== src/Bench/Rates.antt =====
-- What the benchmarks report at their end: durations and rates.
use nats_replicator.Prelude.{
  ℕ, suc, ◌-◌, ◌*◌, ◌^◌, Bool, false, Option, none, some, if◌then◌else◌, leb, not, ◌&&◌, ◌≡◌, ◌↔◌,
  refl, inl, inr, Option-cases, arith,
}
use nats_replicator.Prelude.Int.{ℤ, pos, negsuc, as_uint64, wrap64}
use nats_replicator.Float.{Float, whole}
use nats_replicator.Monitoring.{billion}
use nats_replicator.Bench.{quotient, remainder, negative}

-- t.Sub(u), in nanoseconds; none is the zero time, from which a difference saturates.
unfoldable pub elapsed : Option ℕ → Option ℕ → ℤ
elapsed none none = pos 0
elapsed (some t) none = pos (2 ^ 63 - 1)
elapsed none (some u) = negsuc (2 ^ 63 - 1)
elapsed (some t) (some u) = if leb u t then pos (t - u) else negative (u - t)

-- k * n, for an int.
abbrev pub times_int : ℕ → ℤ → ℤ
times_int k (pos n) = wrap64 (pos (k * n))
times_int k (negsuc n) = wrap64 (negative (k * suc n))

module _ ⦃fl : Float⦄ where
  -- float64(z)
  abbrev pub float : ℤ → fl.F
  float z = fl.of_int64 (as_uint64 z)

  -- Seconds of a Duration
  abbrev pub seconds : ℤ → fl.F
  seconds d =
      fl.add (float (quotient d billion)) (fl.div (float (remainder d billion)) (whole billion))

  -- Messages and megabytes for each second.
  unfoldable pub rates : ℤ → ℤ → ℤ → fl.F × fl.F
  rates iterations message_size diff =
      let rate = fl.div (float iterations) (seconds diff) in
      (rate, fl.div (fl.mul (float message_size) rate) (whole (1024 * 1024)))

-- What the total of the report measures.
pub data Route : Type 0 where
  sent read through_server replicated through_replicator : Route

-- The modes that the flags choose.
pub record Modes : Type 0 where
  pub direct : Bool
  pub pub_only : Bool
  pub sub_only : Bool
  pub rep_only : Bool

-- The variables of type time.Time: none until they are set.
pub record Clock : Type 0 where
  pub start_pub : Option ℕ
  pub end_pub : Option ℕ
  pub start_sub : Option ℕ
  pub end_sub : Option ℕ
  pub start_rep : Option ℕ
  pub end_rep : Option ℕ

abbrev pub stopped_clock : Clock
stopped_clock = record {
  start_pub = none;
  end_pub = none;
  start_sub = none;
  end_sub = none;
  start_rep = none;
  end_rep = none;
}

abbrev pub route : Modes → Route
route m =
    if m.pub_only
    then sent
    else if m.sub_only
    then read
    else if m.direct
    then through_server
    else if m.rep_only
    then replicated
    else through_replicator

abbrev pub total_diff : Clock → Route → ℤ
total_diff c sent = elapsed c.end_pub c.start_pub
total_diff c read = elapsed c.end_sub c.start_sub
total_diff c through_server = elapsed c.end_sub c.start_pub
total_diff c replicated = elapsed c.end_rep c.start_rep
total_diff c through_replicator = elapsed c.end_sub c.start_pub

-- "Total messages moved were %d"
abbrev pub moved : ℤ → Route → Option ℤ
moved iterations sent = none
moved iterations read = none
moved iterations through_server = some (times_int 2 iterations)
moved iterations replicated = some (times_int 2 iterations)
moved iterations through_replicator = some (times_int 4 iterations)

module _ ⦃fl : Float⦄ where
  pub record Report : Type 0 where
    pub route : Route
    pub total_diff : ℤ
    pub moved : Option ℤ
    pub total_rates : fl.F × fl.F
    pub pub_rates : Option (fl.F × fl.F)
    pub sub_rates : Option (fl.F × fl.F)
    pub rep_rates : Option (fl.F × fl.F)

  -- The end of main, from the declaration of totalDiff on.
  unfoldable pub report : ℤ → ℤ → Modes → Clock → Report
  unfolding elapsed rates
  report iterations message_size m c =
      let diff = total_diff c (route m) in
      record {
        route = route m;
        total_diff = diff;
        moved = moved iterations (route m);
        total_rates = rates iterations message_size diff;
        pub_rates =
            if not m.rep_only
            then some (rates iterations message_size (elapsed c.end_pub c.start_pub))
            else none;
        sub_rates =
            if not m.pub_only && not m.rep_only
            then some (rates iterations message_size (elapsed c.end_sub c.start_sub))
            else none;
        rep_rates =
            if not m.direct
            then some (rates iterations message_size (elapsed c.end_rep c.start_rep))
            else none;
      }

  pub data Ending : Type 0 where
    test_failed : Ending
    reported : Report → Ending

  -- The end of main: without endRep, the test has failed.
  abbrev pub ending : ℤ → ℤ → Modes → Clock → Ending
  ending iterations message_size m clock =
      let result = reported (report iterations message_size m clock) in
      if m.direct then result else elim clock.end_rep [ none ↦ test_failed | some t ↦ result ]

  pub ending-failed :
      (iterations message_size : ℤ) (m : Modes) (clock : Clock)
      → m.direct ≡ false
      → (ending iterations message_size m clock ≡ test_failed) ↔ (clock.end_rep ≡ none)
  ending-failed iterations message_size m clock d = elim (Option-cases clock.end_rep) [
    | inl e ↦ ((λ p. e), (λ p. rw (d, e) refl))
    | inr (t, e) ↦ ((λ p. ground arith), (λ p. ground arith))
  ]
