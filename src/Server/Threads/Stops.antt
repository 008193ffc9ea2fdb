-- ===== src/Server/Threads/Stops.antt =====
-- The parts of Stop of server/core/server.go, against what all threads keep true.
use nats_replicator.Prelude.{
  ◌+◌, ◌⊎◌, inl, inr, true, false, ◌≡◌, refl, sym, subst, ◌∙◌, Option, List, arith, eqb, Bool-cases,
}
use nats_replicator.Prelude.Outcome.{done}
use nats_replicator.Float.{Float}
use nats_replicator.Result.{Error}
use nats_replicator.State.{Server}
use nats_replicator.Server.Startup.{close_connectors, close_connections, end_monitoring}
use nats_replicator.Server.Threads.{
  Ticker, Stopping, idle, cancelling, closing, disconnecting, unmonitoring, stopped, Handler,
  stop_part, World,
}
use nats_replicator.Server.Threads.Alike.{Alike, same_connectors}
use nats_replicator.Server.Threads.Sane.{
  is_idle, is_unsent, Sane, Changed-Sane, Alike-Sane, close_connectors-Changed,
}
use nats_replicator.Server.Threads.Safe.{at}

module _ ⦃fl : Float⦄ where
  pub stop_idle :
      (answer : Option Error) (s : Server) (p' : Stopping) (s' : Server)
      → stop_part answer idle s ≡ done (p', s')
      → ((s.running ≡ true) × (cancelling ≡ p') × (record s { running = false } ≡ s'))
        ⊎ ((s.running ≡ false) × (idle ≡ p') × (s ≡ s'))
  unfolding stop_part
  stop_idle answer s p' s' h = elim (Bool-cases s.running) [
    | inl e ↦ inl (e, ground arith, ground arith)
    | inr e ↦ inr (e, ground arith, ground arith)
  ]

  pub stop_cancelling :
      (answer : Option Error) (s : Server) (p' : Stopping) (s' : Server)
      → stop_part answer cancelling s ≡ done (p', s')
      → (s.cancel ≡ 0) × (closing ≡ p') × (record s { cancel = s.cancel + 1 } ≡ s')
  unfolding stop_part
  stop_cancelling answer s p' s' h = elim (Bool-cases (eqb s.cancel 0)) [
    | inl e ↦ (ground arith, ground arith, ground arith)
    | inr e ↦ absurd (ground arith)
  ]

  pub stop_closing :
      (answer : Option Error) (s : Server) (p' : Stopping) (s' : Server)
      → stop_part answer closing s ≡ done (p', s')
      → (close_connectors s ≡ done s') × (disconnecting ≡ p')
  unfolding stop_part
  stop_closing answer s p' s' h = ground arith

  pub stop_later :
      (answer : Option Error) (s : Server) (p' : Stopping) (s' : Server)
      → ((stop_part answer disconnecting s ≡ done (p', s'))
          → (unmonitoring ≡ p') × (close_connections s ≡ s'))
        × ((stop_part answer unmonitoring s ≡ done (p', s'))
            → (stopped ≡ p') × (end_monitoring answer s ≡ s'))
        × ((stop_part answer stopped s ≡ done (p', s')) → (stopped ≡ p') × (s ≡ s'))
  unfolding stop_part
  stop_later answer s p' s' = (λ h. ground arith, λ h. ground arith, λ h. ground arith)

  pub close_connections-Alike : (s : Server) → Alike s (close_connections s)
  unfolding close_connections
  close_connections-Alike s = record {
    running = refl;
    need = refl;
    locked = refl;
    cancel = refl;
    connectors = same_connectors s.connectors;
  }

  pub end_monitoring-Alike :
      (answer : Option Error) (s : Server) → Alike s (end_monitoring answer s)
  unfolding end_monitoring
  end_monitoring-Alike answer s = record {
    running = refl;
    need = refl;
    locked = refl;
    cancel = refl;
    connectors = same_connectors s.connectors;
  }

  -- Stop has begun and goes on to another of its parts behind the send.
  Sane-later :
      (w : World) (p' : Stopping)
      → Sane w
      → is_idle w.stopping ≡ false
      → is_idle p' ≡ false
      → is_unsent p' ≡ false
      → Sane (record w { stopping = p' })
  Sane-later w p' o was is sent = record {
    runs = o.runs ∙ (was ∙ sym is);
    lock = o.lock;
    tidy = o.tidy;
    keyed = o.keyed;
    left = o.left;
    unsent = inl sent;
  }

  pub stops-Sane :
      (s : Server) (t : Ticker) (p : Stopping) (late : List Handler) (answer : Option Error)
      (p' : Stopping) (s' : Server)
      → Sane (at s t p late)
      → stop_part answer p s ≡ done (p', s')
      → Sane (at s' t p' late)
  stops-Sane s t idle late answer p' s' o h = elim (stop_idle answer s p' s' h) [
    | inr (r, e, f) ↦
        subst (λ (x : Server). Sane (at x t p' late)) f
          (subst (λ (x : Stopping). Sane (at s t x late)) e o)
    | inl (r, e, f) ↦
        subst (λ (x : Server). Sane (at x t p' late)) f
          (subst (λ (x : Stopping). Sane (at (record s { running = false }) t x late)) e
            (record {
              runs = refl;
              lock = elim o.lock [ inl l ↦ inl l | inr (q, l, n) ↦ inr (refl, l, n) ];
              tidy = o.tidy;
              keyed = o.keyed;
              left = o.left;
              unsent = elim o.unsent [ inl u ↦ inr (cc) | inr u ↦ inr u ];
            }))
  ]
  stops-Sane s t cancelling late answer p' s' o h =
      let (z, e, f) = stop_cancelling answer s p' s' h in
      subst (λ (x : Server). Sane (at x t p' late)) f
        (subst (λ (x : Stopping). Sane (at (record s { cancel = s.cancel + 1 }) t x late)) e
          (record {
            runs = o.runs;
            lock = o.lock;
            tidy = o.tidy;
            keyed = o.keyed;
            left = o.left;
            unsent = inl refl;
          }))
  stops-Sane s t closing late answer p' s' o h =
      let (c, e) = stop_closing answer s p' s' h in
      subst (λ (x : Stopping). Sane (at s' t x late)) e
        (Sane-later (at s' t closing late) disconnecting
          (Changed-Sane (at s t closing late) s' late o (close_connectors-Changed s s' c)) refl refl
          refl)
  stops-Sane s t disconnecting late answer p' s' o h =
      let (e, f) = (stop_later answer s p' s').0 h in
      subst (λ (x : Server). Sane (at x t p' late)) f
        (subst (λ (x : Stopping). Sane (at (close_connections s) t x late)) e
          (Sane-later (at (close_connections s) t disconnecting late) unmonitoring
            (Alike-Sane (at s t disconnecting late) (close_connections s) late o
              (close_connections-Alike s))
            refl refl refl))
  stops-Sane s t unmonitoring late answer p' s' o h =
      let (e, f) = (stop_later answer s p' s').1 h in
      subst (λ (x : Server). Sane (at x t p' late)) f
        (subst (λ (x : Stopping). Sane (at (end_monitoring answer s) t x late)) e
          (Sane-later (at (end_monitoring answer s) t unmonitoring late) stopped
            (Alike-Sane (at s t unmonitoring late) (end_monitoring answer s) late o
              (end_monitoring-Alike answer s))
            refl refl refl))
  stops-Sane s t stopped late answer p' s' o h =
      let (e, f) = (stop_later answer s p' s').2 h in
      subst (λ (x : Server). Sane (at x t p' late)) f
        (subst (λ (x : Stopping). Sane (at s t x late)) e o)
