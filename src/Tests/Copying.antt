-- ===== src/Tests/Copying.antt =====
-- The first connector of a server copies messages, each without an error.
use nats_replicator.Prelude.{ℕ, zero, suc, ◌≡◌, refl, Option, none, some, [], ◌∷◌, get_elem?}
use nats_replicator.Prelude.Outcome.{Outcome, done, panics, blocks}
use nats_replicator.Float.{Float}
use nats_replicator.Client.{Message}
use nats_replicator.Connector.{Kind, nats2nats, nats2stan, stan2nats, stan2stan, Connector, Handled}
use nats_replicator.Connector.NatsToNats
use nats_replicator.Connector.StanToStan
use nats_replicator.State.{Server}
use nats_replicator.Server.Threads.{
  launched, after_callback, nats2nats_message, stan2stan_ack, receives, Reach, here, next,
}
use nats_replicator.Server.Threads.Rounds.{joined}

abbrev message : Message
message = record { number = 1; payload = 97 ∷ 97 ∷ 97 ∷ [] }

module _ ⦃fl : Float⦄ where
  -- The message, or for a connector between streaming servers the ack of its copy.
  abbrev pub handled : Connector → Kind → Outcome Handled
  handled conn nats2nats = NatsToNats.on_message conn 2 message none 5
  handled conn nats2stan = blocks
  handled conn stan2nats = blocks
  handled conn stan2stan = StanToStan.on_ack conn message none none 5

  abbrev pub after : Server → Outcome Handled → Server
  after s (done h) = after_callback s 0 h
  after s panics = s
  after s blocks = s

  abbrev pub got_by : Server → Option Connector → Server
  got_by s none = s
  got_by s (some conn) = after s (handled conn conn.kind)

  abbrev pub many : ℕ → Server → Server
  many zero s = s
  many (suc n) s = many n (got_by s (get_elem? s.connectors 0))

  reaches :
      (s : Server) (conn : Connector) (k : Kind) (o : Outcome Handled)
      → get_elem? s.connectors 0 ≡ some conn
      → conn.kind ≡ k
      → handled conn k ≡ o
      → Reach (launched s) (launched (after s o))
  reaches s conn k panics at kind e = here
  reaches s conn k blocks at kind e = here
  reaches s conn nats2nats (done h) at kind e =
      next here (receives 0 conn h at (nats2nats_message 2 message none 5 kind e))
  reaches s conn nats2stan (done h) at kind e = cc
  reaches s conn stan2nats (done h) at kind e = cc
  reaches s conn stan2stan (done h) at kind e =
      next here (receives 0 conn h at (stan2stan_ack message none none 5 kind e))

  reaches_by :
      (s : Server) (o : Option Connector)
      → get_elem? s.connectors 0 ≡ o
      → Reach (launched s) (launched (got_by s o))
  reaches_by s none e = here
  reaches_by s (some conn) e = reaches s conn conn.kind (handled conn conn.kind) e refl refl

  pub many_lem : (n : ℕ) (s : Server) → Reach (launched s) (launched (many n s))
  many_lem zero s = here
  many_lem (suc n) s =
      joined (reaches_by s (get_elem? s.connectors 0) refl)
        (many_lem n (got_by s (get_elem? s.connectors 0)))
