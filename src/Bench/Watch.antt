-- ===== src/Bench/Watch.antt =====
-- The goroutines of the benchmarks that watch the request count of the replicator.
use nats_replicator.Prelude.{
  ℕ, zero, suc, ◌≡◌, refl, ◌∙◌, Bool, true, false, ◌&&◌, not, Option, none, some, List, [], ◌∷◌,
  ◌++◌, if◌then◌else◌, inl, inr, Bool-cases, ◌≤◌, ◌<◌, ◌/◌, arith,
}
use nats_replicator.Prelude.Int.{ℤ, pos, negsuc, wrap64}
use nats_replicator.Float.{Float}
use nats_replicator.State.{Server}
use nats_replicator.Monitoring.{safe_stats}
use nats_replicator.Bench.{
  Run, returns, fails, panic, stuck, ◌>>=◌, quotient, negative, interval_of, geb,
}

-- startRep, endRep, lastRepInterval, and the counts that are logged.
pub record Watch : Type 0 where
  pub start_rep : Option ℕ
  pub end_rep : Option ℕ
  pub last_interval : ℤ
  pub progress : List ℤ

abbrev pub unwatched : Watch
unwatched = record { start_rep = none; end_rep = none; last_interval = pos 0; progress = [] }

-- x / y, for integers: a panic when y is 0.
abbrev opposite : ℤ → ℤ
opposite (pos n) = negative n
opposite (negsuc n) = pos (suc n)

abbrev pub divide : ℤ → ℤ → Run ℤ
divide x (pos zero) = fails panic
divide x (pos (suc n)) = returns (quotient x (suc n))
divide x (negsuc n) = returns (opposite (quotient x (suc n)))

-- The request count of the statistics, an int64.
abbrev pub signed : ℕ → ℤ
signed word = wrap64 (pos word)

module _ ⦃fl : Float⦄ where
  -- What the goroutine receives: a tick, at a time and a state of the replicator, or a value from
  -- `repTimeout`.
  pub data Event : Type 0 where
    ticked : ℕ → Server → Event
    timed_out : Event

  -- SafeStats().RequestCount
  unfoldable pub request_count : ℕ → Server → ℤ
  unfolding safe_stats wrap64
  request_count time server = signed (safe_stats time server).1.request_count

-- startRep is set by the first tick.
abbrev pub first_tick : ℕ → ℤ → Watch → Watch
first_tick time count w = elim w.start_rep [
  | some t ↦ w
  | none ↦ if geb count (pos 0) then record w { start_rep = some time } else w
]

-- The progress that is logged.
abbrev pub note : Bool → ℤ → ℤ → Watch → Watch
note show_progress count current w =
    if not (geb w.last_interval current) && show_progress
    then record w { last_interval = current; progress = w.progress ++ count ∷ [] }
    else w

module _ (iterations : ℤ) (show_progress : Bool) where
  -- A tick in the NATS benchmark, which logs before it looks for the end. `true` is `break loop`.
  unfoldable pub nats_tick : ℕ → ℤ → Watch → Run (Watch × Bool)
  nats_tick time count w = divide count (interval_of iterations) >>= λ current.
      let w' = note show_progress count current (first_tick time count w) in
      if geb count iterations
      then returns (record w' { end_rep = some time }, true)
      else returns (w', false)

  -- A tick in the streaming benchmark, which looks for the end first.
  unfoldable pub stan_tick : ℕ → ℤ → Watch → Run (Watch × Bool)
  stan_tick time count w =
      let w' = first_tick time count w in
      let goes_on = divide count (interval_of iterations) >>= λ current.
      returns (note show_progress count current w', false) in
      if geb count iterations then returns (record w' { end_rep = some time }, true) else goes_on

module _ ⦃fl : Float⦄ where
  -- The loop over the select; `tick` is that of the benchmark.
  unfoldable pub watch : (ℕ → ℤ → Watch → Run (Watch × Bool)) → List Event → Watch → Run Watch
  watch tick [] w = fails stuck
  watch tick (timed_out ∷ events) w = returns w
  watch tick (ticked time server ∷ events) w =
      tick time (request_count time server) w >>= λ (w', ended).
      let rest = watch tick events w' in if ended then returns w' else rest

  -- The time of the first tick that sees all messages replicated, if no timeout comes before it.
  unfoldable pub replicated_at : ℤ → List Event → Option ℕ
  replicated_at iterations [] = none
  replicated_at iterations (timed_out ∷ events) = none
  replicated_at iterations (ticked time server ∷ events) =
      if geb (request_count time server) iterations
      then some time
      else replicated_at iterations events

  -- There is such a tick, or a timeout.
  unfoldable pub ends : ℤ → List Event → Bool
  ends iterations [] = false
  ends iterations (timed_out ∷ events) = true
  ends iterations (ticked time server ∷ events) =
      if geb (request_count time server) iterations then true else ends iterations events

-- What a tick does when its interval is not 0.
abbrev pub IsTick : ℤ → (ℕ → ℤ → Watch → Run (Watch × Bool)) → Type 0
IsTick iterations tick =
    (time : ℕ) (count : ℤ) (w : Watch)
    → (w' : Watch) × (tick time count w ≡ returns (w', geb count iterations))
      × (w'.end_rep ≡ (if geb count iterations then some time else w.end_rep))

module _ ⦃fl : Float⦄ (iterations : ℤ) (tick : ℕ → ℤ → Watch → Run (Watch × Bool))
    (law : IsTick iterations tick) where
  -- The loop ends, with endRep set exactly when all messages were seen replicated in time.
  pub watch_lem :
      (events : List Event) (w : Watch)
      → w.end_rep ≡ none
      → ends iterations events ≡ true
      → (w' : Watch) × (watch tick events w ≡ returns w')
        × (w'.end_rep ≡ replicated_at iterations events)
  unfolding watch replicated_at ends
  watch_lem [] w e h = cc
  watch_lem (timed_out ∷ events) w e h = (w, refl, e)
  watch_lem (ticked time server ∷ events) w e h =
      let count = request_count time server in
      let (v, p, q) = law time count w in
      elim (Bool-cases (geb count iterations)) [
        | inl b ↦ (v, rw (p, b) refl, rw b (rw b at q))
        | inr b ↦
            let (w', r, s) = watch_lem events v (rw b at q ∙ e) (rw b at h) in
            (w', rw (p, b) r, rw b s)
      ]

divide_pos : (x : ℤ) (k : ℕ) → 0 < k → divide x (pos k) ≡ returns (quotient x k)
divide_pos x zero h = absurd (omega arith)
divide_pos x (suc k) h = refl

note-end :
    (show_progress : Bool) (count current : ℤ) (w : Watch)
    → (note show_progress count current w).end_rep ≡ w.end_rep
note-end show_progress count current w = ground arith

first_tick-end : (time : ℕ) (count : ℤ) (w : Watch) → (first_tick time count w).end_rep ≡ w.end_rep
first_tick-end time count w = ground arith

module _ (n : ℕ) (show_progress : Bool) (big : 10 ≤ n) where
  pub nats_tick-IsTick : IsTick (pos n) (nats_tick (pos n) show_progress)
  unfolding nats_tick
  nats_tick-IsTick time count w =
      let seen = first_tick time count w in
      let noted = note show_progress count (quotient count (n / 10)) seen in
      let d = divide_pos count (n / 10) (omega arith) in
      let same : noted.end_rep ≡ w.end_rep =
        note-end show_progress count (quotient count (n / 10)) seen ∙ first_tick-end time count w in
      elim (Bool-cases (geb count (pos n))) [
        | inl b ↦ (record noted { end_rep = some time }, rw (d, b) refl, rw b refl)
        | inr b ↦ (noted, rw (d, b) refl, rw b same)
      ]

  pub stan_tick-IsTick : IsTick (pos n) (stan_tick (pos n) show_progress)
  unfolding stan_tick
  stan_tick-IsTick time count w =
      let seen = first_tick time count w in
      let noted = note show_progress count (quotient count (n / 10)) seen in
      let d = divide_pos count (n / 10) (omega arith) in
      let same : noted.end_rep ≡ w.end_rep =
        note-end show_progress count (quotient count (n / 10)) seen ∙ first_tick-end time count w in
      elim (Bool-cases (geb count (pos n))) [
        | inl b ↦ (record seen { end_rep = some time }, rw b refl, rw b refl)
        | inr b ↦ (noted, rw (b, d) refl, rw b same)
      ]
