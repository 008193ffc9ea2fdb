-- ===== src/Server/Threads/Ends.antt =====
-- Stop of server/core/server.go ends.
use nats_replicator.Prelude.{
  ℕ, ◌+◌, ◌⊎◌, inl, inr, true, false, ◌≡◌, refl, subst, Option, none, some, List, [], ◌∷◌, ◌++◌,
  arith,
}
use nats_replicator.Prelude.Assoc.{Assoc, lookup}
use nats_replicator.Prelude.Outcome.{done}
use nats_replicator.Float.{Float}
use nats_replicator.Result.{Error}
use nats_replicator.Client.{Client}
use nats_replicator.Monitoring.{Network}
use nats_replicator.Connector.{Connector}
use nats_replicator.State.{Server}
use nats_replicator.Server.{unlock_connectors}
use nats_replicator.Server.Startup.{close_connectors}
use nats_replicator.Server.Starting.{start_server}
use nats_replicator.Server.Threads.{
  Ticker, selecting, connecting, locking, restarting, chosen, ended, Stopping, idle, cancelling,
  closing, disconnecting, unmonitoring, stopped, Handler, ticker_part, stop_part, World, Reach,
  launched,
}
use nats_replicator.Server.Threads.Alike.{same_connectors}
use nats_replicator.Server.Threads.Sane.{entries_of, is_unsent, Left, no_entry, Sane}
use nats_replicator.Server.Threads.Kept.{found_here}
use nats_replicator.Server.Threads.Safe.{at}
use nats_replicator.Server.Threads.Stops.{stop_idle}
use nats_replicator.Server.Startup.{shutdown_all}
use nats_replicator.Server.Threads.Reached.{start-Sane, running_lock}
use nats_replicator.Server.Threads.Quiet.Steps.{Quiet-Reach}
use nats_replicator.Server.Threads.Quiet.{after, Closed, Quiet}

module _ ⦃fl : Float⦄ where
  -- Stop goes on: its next part ends; or it waits for a lock that the ticker frees with its next
  -- part, having nothing left to restart.
  abbrev pub GoesOn : Option Error → World → Type 0
  GoesOn answer w =
      ((s : Server) × (stop_part answer w.stopping w.server ≡ done (after w.stopping, s)))
      ⊎ ((w.stopping ≡ closing)
          × (w.ticker ≡ restarting [])
          × ((client : Client)
              → ticker_part client w.ticker w.server
                ≡ done (selecting, unlock_connectors w.server)))

  closing_free :
      (answer : Option Error) (s : Server)
      → s.connector_locked ≡ false
      → (s' : Server) × (stop_part answer closing s ≡ done (disconnecting, s'))
  unfolding stop_part close_connectors
  closing_free answer s l = (
    record s {
      connectors = (shutdown_all s.connectors).0;
      effects = s.effects ++ (shutdown_all s.connectors).1;
      connector_locked = false;
    },
    ground arith,
  )

  goes_on :
      (answer : Option Error) (conns : List Connector) (s : Server) (t : Ticker) (p : Stopping)
      (late : List Handler)
      → Quiet conns (at s t p late)
      → GoesOn answer (at s t p late)
  unfolding stop_part ticker_part close_connectors
  goes_on answer conns s t idle late q = cc (q.begun)
  goes_on answer conns s t cancelling late q = elim q.unsent [
    | inl u ↦ cc
    | inr u ↦ inl (record s { cancel = s.cancel + 1 }, ground arith)
  ]
  goes_on answer conns s selecting closing late q = inl (closing_free answer s (q.lock))
  goes_on answer conns s connecting closing late q = inl (closing_free answer s (q.lock))
  goes_on answer conns s locking closing late q = inl (closing_free answer s (q.lock))
  goes_on answer conns s ended closing late q = inl (closing_free answer s (q.lock))
  goes_on answer conns s (restarting []) closing late q = inr (refl, refl, λ client. refl)
  goes_on answer conns s (restarting (x ∷ m)) closing late q = cc (q.entries)
  goes_on answer conns s (chosen id i m) closing late q = cc (q.entries)
  goes_on answer conns s t disconnecting late q = inl (_, refl)
  goes_on answer conns s t unmonitoring late q = inl (_, refl)
  goes_on answer conns s t stopped late q = inl (_, refl)

  left_none : (m need : Assoc ℕ) → need ≡ [] → Left m need → m ≡ []
  left_none [] need e l = refl
  left_none ((id, i) ∷ m) need e l =
      absurd
        (no_entry id i (subst (λ x. lookup id x ≡ some i) e (l.there id i (found_here id i m))))

  begin-Quiet :
      (w : World) (answer : Option Error) (s : Server)
      → Sane w
      → w.server.need_reconnect ≡ []
      → w.late ≡ []
      → stop_part answer idle w.server ≡ done (cancelling, s)
      → w.stopping ≡ idle
      → Quiet w.server.connectors (record w { server = s; stopping = cancelling })
  begin-Quiet w answer s o n a h i = elim (stop_idle answer w.server cancelling s h) [
    | inr (r, e, f) ↦ cc
    | inl (r, e, f) ↦
        subst
          (λ (x : Server).
            Quiet w.server.connectors (record w { server = x; stopping = cancelling }))
          f
          (record {
            off = refl;
            alone = a;
            need = n;
            entries = left_none (entries_of w.ticker) w.server.need_reconnect n o.left;
            lock = running_lock w o r;
            begun = refl;
            unsent = elim o.unsent [ inl u ↦ absurd (idle_unsent w.stopping i u) | inr u ↦ inr u ];
            woken = inl refl;
            closed = same_connectors w.server.connectors;
          })
  ]
    where
      idle_unsent : (p : Stopping) → p ≡ idle → ¬ (is_unsent p ≡ false)
      idle_unsent p e u =
          let v : is_unsent idle ≡ false = subst (λ x. is_unsent x ≡ false) e u in cc

  -- After a Start without an error on a server whose lock is free, take any state that message
  -- callbacks, error handlers, HTTP requests and the ticker reach, part by part and in any order,
  -- in which no connector waits for a restart and no handler is between its test of `running` and
  -- its lock. When Stop begins there, then in every state that all the threads reach from then
  -- on: the server does not run; the next part of Stop ends, or Stop waits for the connectors'
  -- lock, which the ticker, whatever the servers answer it, frees in its next part; once Stop has
  -- sent to the ticker, its goroutine has ended or that value waits for it; and once Stop has
  -- closed the connectors, none of them has a subscription, and each subscription that was open
  -- at the beginning was ended by a call of its client library.
  pub stop_ends :
      (client : Client) (net : Network) (now : ℕ) (answer : Option Error) (s s₀ s₁ : Server)
      (w v : World)
      → s.connector_locked ≡ false
      → start_server client net now s ≡ done (s₀, none)
      → Reach (launched s₀) w
      → w.server.need_reconnect ≡ []
      → w.late ≡ []
      → w.stopping ≡ idle
      → stop_part answer idle w.server ≡ done (cancelling, s₁)
      → Reach (record w { server = s₁; stopping = cancelling }) v
      → GoesOn answer v
        × (v.server.running ≡ false)
        × ((is_unsent v.stopping ≡ true) ⊎ ((v.ticker ≡ ended) ⊎ (v.server.cancel ≡ 1)))
        × Closed v.stopping w.server.connectors v.server
  stop_ends client net now answer s s₀ s₁ w v l h reached n a i begins r =
      let o = start-Sane client net now s s₀ w l h reached in
      let q = Quiet-Reach w.server.connectors (begin-Quiet w answer s₁ o n a begins i) r in
      (
        goes_on answer w.server.connectors v.server v.ticker v.stopping v.late q,
        q.off,
        q.woken,
        q.closed,
      )
