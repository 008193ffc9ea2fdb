-- ===== src/Bench/Subscriber.antt =====
-- The callback of the subscriber, which the two benchmarks share word for word.
use nats_replicator.Prelude.{
  ℕ, suc, ◌+◌, ◌-◌, ◌/◌, ◌%◌, ◌≤◌, ◌<◌, ◌≡◌, refl, ◌∙◌, Bool, ◌&&◌, ◌||◌, not, Option, none, some,
  List, [], ◌∷◌, ◌++◌, if◌then◌else◌, eqb, leb, length, arith, All,
}
use nats_replicator.Prelude.Int.{ℤ, pos}
use nats_replicator.Bench.{
  Run, returns, fails, fatal, stuck, panic, ◌>>=◌, add_wait, done_wait, interval_of, is_multiple,
  is_count, within,
}

-- subCount, startSub, the counter of subwg, and the counts that are logged.
pub record Subscriber : Type 0 where
  pub sub_count : ℕ
  pub start_sub : Option ℕ
  pub waiting : ℕ
  pub progress : List ℕ

-- A message that arrives: when, and how long it is.
pub record Delivery : Type 0 where
  pub time : ℕ
  pub size : ℕ

module _ (iterations : ℤ) (msg_len : ℕ) (show_progress : Bool) where
  -- The callback.
  unfoldable pub on_delivery : Delivery → Subscriber → Run Subscriber
  unfolding is_multiple add_wait
  on_delivery d s =
      let start = if eqb s.sub_count 0 then some d.time else s.start_sub in
      let count = suc s.sub_count in
      is_multiple count (interval_of iterations) >>= λ multiple.
      let progress =
        if (multiple || is_count count iterations) && show_progress
        then s.progress ++ count ∷ []
        else s.progress in
      let s' = record s { sub_count = count; start_sub = start; progress = progress } in
      let counted = done_wait s.waiting >>= λ w. returns (record s' { waiting = w }) in
      if not (eqb d.size msg_len)
      then fails fatal
      else if within count iterations
      then counted
      else returns s'

  unfoldable pub receive : List Delivery → Subscriber → Run Subscriber
  receive [] s = returns s
  receive (d ∷ ds) s = on_delivery d s >>= receive ds

  -- subwg.Wait, with the messages that arrive until the connection is closed. The counter never
  -- rises again once it is 0.
  unfoldable pub await : List Delivery → Subscriber → Run Subscriber
  unfolding receive
  await ds s = receive ds s >>= λ s'. if eqb s'.waiting 0 then returns s' else fails stuck

-- Before the first message, when subwg counts n.
abbrev pub unheard : ℕ → Subscriber
unheard n = record { sub_count = 0; start_sub = none; waiting = n; progress = [] }

abbrev pub first_time : List Delivery → Option ℕ
first_time [] = none
first_time (d ∷ ds) = some d.time

module _ (n : ℕ) (msg_len : ℕ) (show_progress : Bool) (big : 10 ≤ n) where
  -- The subscriber after one more message, received at `time`.
  abbrev received : ℕ → Subscriber → Subscriber
  received time s = record {
    sub_count = suc s.sub_count;
    start_sub = if eqb s.sub_count 0 then some time else s.start_sub;
    waiting = n - suc s.sub_count;
    progress =
        if (eqb (suc s.sub_count % (n / 10)) 0 || eqb (suc s.sub_count) n) && show_progress
        then s.progress ++ suc s.sub_count ∷ []
        else s.progress;
  }

  on_delivery_lem :
      (d : Delivery) (s : Subscriber)
      → d.size ≡ msg_len
      → s.waiting ≡ n - s.sub_count
      → on_delivery (pos n) msg_len show_progress d s ≡ returns (received d.time s)
  unfolding on_delivery
  on_delivery_lem d s e w = ground arith

  -- When the first message came, in the end.
  abbrev started : Subscriber → List Delivery → Option ℕ
  started s [] = s.start_sub
  started s (d ∷ ds) = if eqb s.sub_count 0 then some d.time else s.start_sub

  started_once :
      (time : ℕ) (s : Subscriber) (ds : List Delivery)
      → started (received time s) ds ≡ (received time s).start_sub
  started_once time s [] = refl
  started_once time s (d ∷ ds) = ground arith

  receive_counted :
      (ds : List Delivery) (s : Subscriber)
      → All (λ (d : Delivery). d.size ≡ msg_len) ds
      → s.waiting ≡ n - s.sub_count
      → (s' : Subscriber) × (receive (pos n) msg_len show_progress ds s ≡ returns s')
        × (s'.sub_count ≡ s.sub_count + length ds)
        × (s'.waiting ≡ n - s'.sub_count)
        × (s'.start_sub ≡ started s ds)
  unfolding receive
  receive_counted [] s all w = (s, refl, omega arith, w, refl)
  receive_counted (d ∷ ds) s (e, all) w =
      let (s', r, c, w', t) = receive_counted ds (received d.time s) all refl in
      (s', rw (on_delivery_lem d s e w) r, omega arith, w', t ∙ started_once d.time s ds)

  -- For at least 10 iterations, and messages of the right size: no callback fails, the wait for the
  -- subscriber ends exactly when as many messages as iterations arrive, however many come after
  -- them, and the time of the first is kept.
  pub await-Counts :
      (ds : List Delivery)
      → All (λ (d : Delivery). d.size ≡ msg_len) ds
      → (s : Subscriber) × (receive (pos n) msg_len show_progress ds (unheard n) ≡ returns s)
        × (await (pos n) msg_len show_progress ds (unheard n)
            ≡ (if leb n (length ds) then returns s else fails stuck))
        × (s.sub_count ≡ length ds)
        × (s.start_sub ≡ first_time ds)
  unfolding await
  await-Counts ds all =
      let (s, r, c, w, t) = receive_counted ds (unheard n) all (omega arith) in
      (s, r, rw r (ends s c w), omega arith, t ∙ first ds)
    where
      ends :
          (s : Subscriber)
          → s.sub_count ≡ 0 + length ds
          → s.waiting ≡ n - s.sub_count
          → ◌≡◌ {A = Run Subscriber}
              (if eqb s.waiting 0 then returns s else fails stuck)
              (if leb n (length ds) then returns s else fails stuck)
      ends s c w = ground arith

      first : (ds : List Delivery) → started (unheard n) ds ≡ first_time ds
      first [] = refl
      first (d ∷ ds) = refl

-- With fewer than 10 iterations the interval is 0, and the first message makes the callback panic.
pub on_delivery_panics :
    (n msg_len : ℕ) (show_progress : Bool) (d : Delivery) (s : Subscriber)
    → n < 10
    → on_delivery (pos n) msg_len show_progress d s ≡ fails panic
unfolding on_delivery
on_delivery_panics n msg_len show_progress d s h = ground arith
