-- ===== src/Stats/Requests.antt =====
-- server/core/stats.go against a plain count of what a connector reported to its holder.
use nats_replicator.Prelude.{
  ℕ, ◌+◌, ◌^◌, ◌%◌, ◌≤◌, ◌<◌, ◌≡◌, refl, String, Bool, true, false, List, [], ◌∷◌, ◌++◌, ap, All,
  arith, length,
}
use nats_replicator.Prelude.Int.{add64}
use nats_replicator.Prelude.Outcome.{Outcome, done, ◌>>=◌, >>=-eq-done, done-injective}
use nats_replicator.Float.{Float, FloatLaws, exact_limit}
use nats_replicator.Histogram.{Histogram}
use nats_replicator.Histogram.Bounds.{IsValid, add_lem, new_histogram-IsValid}
use nats_replicator.Stats.{
  ConnectorStatsHolder, add_message_in, add_request, add_connect, add_disconnect, next_average,
  new_connector_stats_holder,
}

-- What the connectors report: a message that was not passed on, one that was (its size, and the
-- time that it took), an opened and a closed subscription.
pub data Report : Type 0 where
  failed : ℕ → Report
  replicated : ℕ → ℕ → Report
  opened closed : Report

-- The plain count: numbers without bound.
pub record Tally : Type 0 where
  pub failures : ℕ
  pub replications : ℕ
  pub bytes_failed : ℕ
  pub bytes_replicated : ℕ
  pub opens : ℕ
  pub closes : ℕ
  pub is_open : Bool

abbrev pub no_reports : Tally
no_reports = record {
  failures = 0;
  replications = 0;
  bytes_failed = 0;
  bytes_replicated = 0;
  opens = 0;
  closes = 0;
  is_open = false;
}

abbrev pub count : Tally → Report → Tally
count t (failed bytes) = record t {
  failures = t.failures + 1;
  bytes_failed = t.bytes_failed + bytes;
}
count t (replicated bytes req_time) = record t {
  replications = t.replications + 1;
  bytes_replicated = t.bytes_replicated + bytes;
}
count t opened = record t { opens = t.opens + 1; is_open = true }
count t closed = record t { closes = t.closes + 1; is_open = false }

abbrev pub count_all : Tally → List Report → Tally
count_all t [] = t
count_all t (r ∷ rs) = count_all (count t r) rs

module _ ⦃fl : Float⦄ where
  unfoldable pub apply : ConnectorStatsHolder → Report → Outcome ConnectorStatsHolder
  apply h (failed bytes) = done (add_message_in h bytes)
  apply h (replicated bytes req_time) = add_request h bytes bytes req_time
  apply h opened = done (add_connect h)
  apply h closed = done (add_disconnect h)

  unfoldable pub apply_all : ConnectorStatsHolder → List Report → Outcome ConnectorStatsHolder
  unfolding apply
  apply_all h [] = done h
  apply_all h (r ∷ rs) = apply h r >>= λ h'. apply_all h' rs

  -- The holder shows the tally, each number as an int64.
  pub record Shows (h : ConnectorStatsHolder) (t : Tally) : Type 0 where
    pub messages_in : h.stats.messages_in ≡ (t.failures + t.replications) % 2 ^ 64
    pub messages_out : h.stats.messages_out ≡ t.replications % 2 ^ 64
    pub bytes_in : h.stats.bytes_in ≡ (t.bytes_failed + t.bytes_replicated) % 2 ^ 64
    pub bytes_out : h.stats.bytes_out ≡ t.bytes_replicated % 2 ^ 64
    pub request_count : h.stats.request_count ≡ t.replications % 2 ^ 64
    pub connects : h.stats.connects ≡ t.opens % 2 ^ 64
    pub disconnects : h.stats.disconnects ≡ t.closes % 2 ^ 64
    pub connected : h.stats.connected ≡ t.is_open

pub All-append {ℓ} :
    (P : Report → Type ℓ) (xs ys : List Report) → All P xs → All P ys → All P (xs ++ ys)
All-append P [] ys a b = b
All-append P (x ∷ xs) ys (h, a) b = (h, All-append P xs ys a b)

module _ ⦃fl : Float⦄ where
  -- Later reports go on where the earlier ones have ended.
  pub apply_all-append :
      (s t : ConnectorStatsHolder) (xs ys : List Report)
      → apply_all s xs ≡ done t
      → apply_all s (xs ++ ys) ≡ apply_all t ys
  unfolding apply_all
  apply_all-append s t [] ys h =
      ap (λ (u : ConnectorStatsHolder). apply_all u ys) (done-injective h)
  apply_all-append s t (x ∷ xs) ys h =
      let (u, e, k) = >>=-eq-done (apply s x) (λ (u : ConnectorStatsHolder). apply_all u xs) h in
      rw e (apply_all-append u t xs ys k)

  after_request : ConnectorStatsHolder → ℕ → ℕ → Histogram → ConnectorStatsHolder
  after_request h bytes req_time g =
      let s = h.stats in
      record {
        stats = record s {
          messages_in = add64 s.messages_in 1;
          bytes_in = add64 s.bytes_in bytes;
          messages_out = add64 s.messages_out 1;
          bytes_out = add64 s.bytes_out bytes;
          request_count = add64 s.request_count 1;
          moving_average =
              next_average (add64 s.request_count 1) s.moving_average (fl.of_int64 req_time);
        };
        histogram = g;
      }

  after_request-Shows :
      (h : ConnectorStatsHolder) (t : Tally) (bytes req_time : ℕ) (g : Histogram)
      → Shows h t
      → Shows (after_request h bytes req_time g) (count t (replicated bytes req_time))
  unfolding after_request
  after_request-Shows h t bytes req_time g s = ground arith

module _ ⦃fl : Float⦄ (laws : FloatLaws ⦃fl = fl⦄) where
  -- The time of a report is one that the histogram takes.
  abbrev pub IsTimed : Report → Type 0
  IsTimed (replicated bytes req_time) = laws.IsNs (fl.of_int64 req_time)
  IsTimed _ = Unit

  apply_lem :
      (h : ConnectorStatsHolder) (t : Tally) (r : Report)
      → IsTimed r
      → IsValid laws h.histogram
      → h.histogram.total < exact_limit
      → Shows h t
      → (h' : ConnectorStatsHolder) × (apply h r ≡ done h')
        × IsValid laws h'.histogram
        × (h'.histogram.total ≤ h.histogram.total + 1)
        × Shows h' (count t r)
  unfolding apply add_message_in add_connect add_disconnect add_request after_request
  apply_lem h t (failed bytes) ns v lim s =
      (add_message_in h bytes, refl, v, omega arith, ground arith)
  apply_lem h t opened ns v lim s = (add_connect h, refl, v, omega arith, ground arith)
  apply_lem h t closed ns v lim s = (add_disconnect h, refl, v, omega arith, ground arith)
  apply_lem h t (replicated bytes req_time) ns v lim s =
      let (g, e, vg, tg, mg) = add_lem laws h.histogram (fl.of_int64 req_time) v ns lim in
      (
        after_request h bytes req_time g,
        rw e refl,
        vg,
        omega arith,
        after_request-Shows h t bytes req_time g s,
      )

  apply_all_lem :
      (h : ConnectorStatsHolder) (t : Tally) (rs : List Report)
      → All IsTimed rs
      → IsValid laws h.histogram
      → h.histogram.total + length rs ≤ exact_limit
      → Shows h t
      → (h' : ConnectorStatsHolder) × (apply_all h rs ≡ done h') × Shows h' (count_all t rs)
  unfolding apply_all
  apply_all_lem h t [] ns v lim s = (h, refl, s)
  apply_all_lem h t (r ∷ rs) (nr, ns) v lim s =
      let (h₁, e₁, v₁, t₁, s₁) = apply_lem h t r nr v (omega arith) s in
      let (h₂, e₂, s₂) = apply_all_lem h₁ (count t r) rs ns v₁ (omega arith) s₁ in
      (h₂, rw e₁ e₂, s₂)

  -- Up to 2^53 reports on a new holder, with times that the histogram takes, end without a panic,
  -- and the holder shows their plain tally: the messages and bytes in and out, the requests, the
  -- connects and disconnects, each as an int64, and whether the last of these two was a connect.
  pub apply_all-Shows :
      (name id : String) (rs : List Report)
      → All IsTimed rs
      → length rs ≤ exact_limit
      → (h : ConnectorStatsHolder) × (apply_all (new_connector_stats_holder name id) rs ≡ done h)
        × Shows h (count_all no_reports rs)
  unfolding new_connector_stats_holder
  apply_all-Shows name id rs ns lim =
      apply_all_lem (new_connector_stats_holder name id) no_reports rs ns
        (new_histogram-IsValid laws 60 (omega arith)) (omega arith) (ground arith)
