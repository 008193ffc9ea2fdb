-- ===== src/Tests/Stopping.antt =====
-- Stop after Start, part by part, when no other thread runs.
use nats_replicator.Prelude.{◌≡◌, refl, ap, false, true, none, eqb, ◌+◌, ◌++◌, if◌then◌else◌}
use nats_replicator.Prelude.Outcome.{done, blocks}
use nats_replicator.Float.{Float}
use nats_replicator.State.{Server}
use nats_replicator.Server.{unlock_connectors}
use nats_replicator.Server.Startup.{
  shutdown_all, close_connectors, close_connections, end_monitoring,
}
use nats_replicator.Server.Threads.{
  World, launched, stop_part, idle, cancelling, closing, disconnecting, unmonitoring, stopped,
  stops, Reach, here, next,
}

module _ ⦃fl : Float⦄ where
  -- Stop has sent to the ticker.
  abbrev pub sent : Server → Server
  sent s = record s { running = false; cancel = s.cancel + 1 }

  abbrev pub closed : Server → Server
  unfolding shutdown_all
  closed s =
      let (conns, effects) = shutdown_all s.connectors in
      unlock_connectors
        (record s { connector_locked = true; connectors = conns; effects = s.effects ++ effects })

  pub closes : (s : Server) → s.connector_locked ≡ false → close_connectors s ≡ done (closed s)
  unfolding close_connectors
  closes s free = rw (free)

  -- The world at the end of Stop.
  abbrev pub left : Server → World
  unfolding close_connections end_monitoring
  left s = record (launched s) {
    server = end_monitoring none (close_connections (closed (sent s)));
    stopping = stopped;
  }

  pub Reach-left :
      (s : Server)
      → s.running ≡ true
      → s.cancel ≡ 0
      → s.connector_locked ≡ false
      → Reach (launched s) (left s)
  unfolding stop_part left
  Reach-left s runs none_sent free =
      let s₁ = record s { running = false } in
      let sends =
        next
          (next here (
            stops none cancelling s₁
              (ap (λ b. done (if b then (cancelling, s₁) else (idle, s))) runs)))
          (stops none closing (sent s)
            (ap (λ n. if eqb n 0 then done (closing, sent s) else blocks) none_sent)) in
      next
        (next (next sends (stops none disconnecting (closed (sent s)) (rw (closes (sent s) free))))
          (stops none unmonitoring (close_connections (closed (sent s))) refl))
        (stops none stopped (end_monitoring none (close_connections (closed (sent s)))) refl)

  pub left_stopped : (s : Server) → (left s).stopping ≡ stopped
  unfolding left
  left_stopped s = refl
