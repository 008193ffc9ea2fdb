-- ===== src/Server/Threads/Rounds.antt =====
-- `tick` and `stop` of server/core/server.go are what the parts do when no other thread comes in
-- between.
use nats_replicator.Prelude.{
  ℕ, inl, inr, true, false, ◌≡◌, refl, ap, subst, Option, List, [], ◌∷◌, arith, Bool-cases,
  Option-cases, eqb, ◌+◌,
}
use nats_replicator.Prelude.Assoc.{Assoc}
use nats_replicator.Prelude.Outcome.{Outcome, done, ◌>>=◌, >>=-eq-done, done-injective}
use nats_replicator.Float.{Float}
use nats_replicator.Result.{Error}
use nats_replicator.Client.{Client}
use nats_replicator.Nats.{connect_to_stan}
use nats_replicator.State.{Server}
use nats_replicator.Server.Startup.{
  close_connectors, close_connections, end_monitoring, stop, stop_begin, stop_finish,
}
use nats_replicator.Server.Ticker.{all_nats_up, restart_one, restart_loop, tick_begin, tick}
use nats_replicator.Server.Threads.{
  Ticker, selecting, connecting, locking, restarting, chosen, Stopping, idle, cancelling, closing,
  disconnecting, unmonitoring, stopped, Handler, ticker_part, stop_part, World, ticks, stops, Reach,
  here, next,
}
use nats_replicator.Server.Threads.Safe.{at}

module _ ⦃fl : Float⦄ where
  pub joined : {w v u : World} → Reach w v → Reach v u → Reach w u
  joined r here = r
  joined r (next q st) = next (joined r q) st

  module _ (client : Client) (p : Stopping) (late : List Handler) where
    restart_loop-Reach :
        (m : Assoc ℕ) (s s' : Server)
        → restart_loop client s m ≡ done s'
        → Reach (at s (restarting m) p late) (at s' selecting p late)
    unfolding restart_loop ticker_part
    restart_loop-Reach [] s s' h =
        next here (
          ticks client selecting s' (ap (λ (o : Outcome Server). o >>= λ x. done (selecting, x)) h))
    restart_loop-Reach ((id, i) ∷ rest) s s' h = elim (Bool-cases s.running) [
      | inr off ↦ next here (ticks client selecting s' (ground arith))
      | inl on ↦
          let (t, e, f) =
            >>=-eq-done (restart_one client s id i) (λ s'. restart_loop client s' rest)
              (ground arith) in
          joined
            (next (next here (ticks client (chosen id i rest) s (ground arith)))
              (ticks client (restarting rest) t (rw (e) refl)))
            (restart_loop-Reach rest t s' f)
    ]

    -- A whole tick is what the parts of the ticker do without another thread in between.
    pub tick-Reach :
        (s s' : Server)
        → tick client s ≡ done s'
        → Reach (at s selecting p late) (at s' selecting p late)
    unfolding tick tick_begin ticker_part
    tick-Reach s s' h = elim (Bool-cases (all_nats_up client s.connections s.config.nats)) [
      | inr down ↦ next here (ticks client selecting s' (ground arith))
      | inl up ↦
          let (cs, e) = connect_to_stan client s.config.stan s.connections in
          let t = record s { connections = cs } in
          let first = next here (ticks client connecting s (ground arith)) in
          elim (Option-cases (connect_to_stan client s.config.stan s.connections).1) [
            | inr (x, k) ↦ next first (ticks client selecting s' (ground arith))
            | inl k ↦
                let free : s.connector_locked ≡ false = ground arith in
                let locked = record t { connector_locked = true } in
                joined
                  (next (next first (ticks client locking t (ground arith)))
                    (ticks client (restarting s.need_reconnect) locked (ground arith)))
                  (restart_loop-Reach s.need_reconnect locked s' (ground arith))
          ]
    ]

  -- A whole Stop of a running server is what its parts do without another thread in between.
  pub stop-Reach :
      (answer : Option Error) (s s' : Server) (t : Ticker) (late : List Handler)
      → s.running ≡ true
      → stop answer s ≡ done s'
      → Reach (at s t idle late) (at s' t stopped late)
  unfolding stop stop_begin stop_finish stop_part
  stop-Reach answer s s' t late on h =
      let off = record s { running = false } in
      let sent = record off { cancel = s.cancel + 1 } in
      let empty : eqb s.cancel 0 ≡ true = ground arith in
      let (closed, e, f) =
        >>=-eq-done (close_connectors sent)
          (λ s'. done (end_monitoring answer (close_connections s'))) (ground arith) in
      let begun : Reach (at s t idle late) (at sent t closing late) =
        next (next here (stops answer cancelling off (ground arith)))
          (stops answer closing sent (ground arith)) in
      let ended : Reach (at s t idle late) (at (close_connections closed) t unmonitoring late) =
        next (next begun (stops answer disconnecting closed (rw (e) refl)))
          (stops answer unmonitoring (close_connections closed) refl) in
      subst (λ (x : Server). Reach (at s t idle late) (at x t stopped late)) (done-injective f)
        (next ended (stops answer stopped (end_monitoring answer (close_connections closed)) refl))
