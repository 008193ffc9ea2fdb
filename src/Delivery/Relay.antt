-- ===== src/Delivery/Relay.antt =====
-- The messages of a connector whose callback publishes, waits for the answer and reports: what the
-- connectors to NATS share.
use nats_replicator.Prelude.{
  ℕ, suc, ◌≡◌, refl, ap, Option, none, some, List, [], ◌∷◌, ◌++◌, map, length,
}
use nats_replicator.Prelude.Outcome.{Outcome, done, ◌>>=◌, >>=-eq-done, done-injective}
use nats_replicator.Float.{Float}
use nats_replicator.Result.{Error}
use nats_replicator.Conf.{ConnectorConfig}
use nats_replicator.Client.{Message, Effect}
use nats_replicator.Stats.{ConnectorStatsHolder}
use nats_replicator.Stats.Requests.{Report, failed, replicated, apply, apply_all}
use nats_replicator.Connector.{Connector, Handled}

-- A message that comes in, the error of Publish for it, and the time that this took.
pub record Incoming : Type 0 where
  pub msg : Message
  pub answer : Option Error
  pub elapsed : ℕ

-- The messages that Publish has taken.
abbrev pub delivered : List Incoming → List Message
delivered [] = []
delivered (i ∷ more) = elim i.answer [ none ↦ i.msg ∷ delivered more | some e ↦ delivered more ]

abbrev pub report_for : Option Error → ℕ → ℕ → Report
report_for none bytes elapsed = replicated bytes elapsed
report_for (some e) bytes elapsed = failed bytes

abbrev pub report_of : Incoming → Report
report_of i = report_for i.answer (length i.msg.payload) i.elapsed

pub length-map : (is : List Incoming) → length (map report_of is) ≡ length is
length-map [] = refl
length-map (i ∷ more) = ap suc (length-map more)

-- The calls that a callback makes for a message, by the answer.
abbrev pub Calls : Type 0
Calls = ConnectorConfig → ℕ → Message → Option Error → List Effect

abbrev pub all_calls : Calls → ConnectorConfig → ℕ → List Incoming → List Effect
all_calls calls config target [] = []
all_calls calls config target (i ∷ more) =
    calls config target i.msg i.answer ++ all_calls calls config target more

module _ ⦃fl : Float⦄ where
  -- A callback: the connector, the outgoing connection, the message, the answer and the time.
  abbrev pub Callback : Type 0
  Callback = Connector → ℕ → Message → Option Error → ℕ → Outcome Handled

  unfoldable pub receive_all :
      Callback → Connector → ℕ → List Incoming → Outcome (Connector × List Effect)
  receive_all callback conn target [] = done (conn, [])
  receive_all callback conn target (i ∷ more) =
      callback conn target i.msg i.answer i.elapsed >>= λ (h : Handled).
      receive_all callback h.connector target more >>= λ (r : Connector × List Effect).
      done (r.0, h.effects ++ r.1)

  apply_all_none : (s st : ConnectorStatsHolder) → apply_all s [] ≡ done st → s ≡ st
  unfolding apply_all
  apply_all_none s st h = done-injective h

  apply_all_some :
      (s : ConnectorStatsHolder) (r : Report) (rs : List Report) (st : ConnectorStatsHolder)
      → apply_all s (r ∷ rs) ≡ done st
      → (s' : ConnectorStatsHolder) × (apply s r ≡ done s') × (apply_all s' rs ≡ done st)
  unfolding apply_all
  apply_all_some s r rs st h = >>=-eq-done (apply s r) (λ s'. apply_all s' rs) h

module _ ⦃fl : Float⦄ (callback : Callback) (calls : Calls)
    (callback-apply : (conn : Connector) (target : ℕ) (msg : Message) (answer : Option Error)
        (elapsed : ℕ) (st : ConnectorStatsHolder)
      → apply conn.stats (report_for answer (length msg.payload) elapsed) ≡ done st
      → callback conn target msg answer elapsed
        ≡ done (record {
          connector = record conn { stats = st };
          effects = calls conn.config target msg answer;
          failure = none;
        })) where
  receive_none :
      (conn : Connector) (target : ℕ) (st : ConnectorStatsHolder)
      → conn.stats ≡ st
      → receive_all callback conn target [] ≡ done (record conn { stats = st }, [])
  unfolding receive_all
  receive_none conn target st e =
      ap (λ (s : ConnectorStatsHolder). done (record conn { stats = s }, [])) e

  receive_step :
      (conn : Connector) (target : ℕ) (i : Incoming) (more : List Incoming)
      (st : ConnectorStatsHolder) (conn' : Connector) (es : List Effect)
      → apply conn.stats (report_of i) ≡ done st
      → receive_all callback (record conn { stats = st }) target more ≡ done (conn', es)
      → receive_all callback conn target (i ∷ more)
        ≡ done (conn', calls conn.config target i.msg i.answer ++ es)
  unfolding receive_all
  receive_step conn target i more st conn' es h r =
      rw (callback-apply conn target i.msg i.answer i.elapsed st h) (rw r refl)

  pub receive_all_lem :
      (conn : Connector) (target : ℕ) (is : List Incoming) (st : ConnectorStatsHolder)
      → apply_all conn.stats (map report_of is) ≡ done st
      → receive_all callback conn target is
        ≡ done (record conn { stats = st }, all_calls calls conn.config target is)
  receive_all_lem conn target [] st h = receive_none conn target st (apply_all_none conn.stats st h)
  receive_all_lem conn target (i ∷ more) st h =
      let (s₁, e, k) = apply_all_some conn.stats (report_of i) (map report_of more) st h in
      receive_step conn target i more s₁ (record conn { stats = st })
        (all_calls calls conn.config target more) e
        (receive_all_lem (record conn { stats = s₁ }) target more st k)
