-- ===== src/Server/Threads/Safe.antt =====
-- The parts of the ticker and of the handlers of server/core, against what all threads keep true.
use nats_replicator.Prelude.{inl, inr, true, ◌≡◌, refl, sym, subst, ◌∙◌, List, [], ◌∷◌, ◌++◌}
use nats_replicator.Prelude.Outcome.{done, done-injective}
use nats_replicator.Float.{Float}
use nats_replicator.Client.{Client, close_stan}
use nats_replicator.Nats.{forget_stan, connect_to_stan}
use nats_replicator.State.{Server}
use nats_replicator.Server.{unlock_connectors}
use nats_replicator.Server.Tidy.{IsTidy}
use nats_replicator.Server.Restarts.{restart_one-IsTidy}
use nats_replicator.Server.Settled.{restart_one-Restart}
use nats_replicator.Server.Threads.{
  Ticker, selecting, connecting, locking, restarting, chosen, ended, Stopping, Handler, erring,
  losing, checking, ticker_part, section, World,
}
use nats_replicator.Server.Threads.Alike.{same_connectors}
use nats_replicator.Server.Threads.Sane.{
  holding, none-Left, LockOf, Sane, Changed-Sane, Alike-Sane, error_section-Changed,
  check_section-Changed,
}
use nats_replicator.Server.Threads.Kept.{
  part_selecting, part_connecting, part_locking, part_last, part_test, part_chosen, part_ended,
  Sane-moved, Alike-refl, left-AllPlaced, restarted-Left,
}

module _ ⦃fl : Float⦄ where
  -- A state, by its components.
  abbrev pub at : Server → Ticker → Stopping → List Handler → World
  at s t p late = record { server = s; ticker = t; stopping = p; late = late }

  -- The lock is held for sure while the ticker restarts.
  pub holding-locked :
      (s : Server) (t : Ticker) → LockOf s t → holding t ≡ true → s.connector_locked ≡ true
  holding-locked s t (inl e) h = e ∙ h
  holding-locked s t (inr (_, e, _)) h = e

  pub ticks-Sane :
      (s : Server) (t : Ticker) (p : Stopping) (late : List Handler) (client : Client) (t' : Ticker)
      (s' : Server)
      → Sane (at s t p late)
      → ticker_part client t s ≡ done (t', s')
      → Sane (at s' t' p late)
  ticks-Sane s selecting p late client t' s' o h =
      let (off, e) = part_selecting client s t' s' h in
      subst (λ (x : Server). Sane (at x t' p late)) e
        (Sane-moved (at s selecting p late) t' s o refl off (Alike-refl s))
  ticks-Sane s connecting p late client t' s' o h =
      let (off, e) = part_connecting client s t' s' h in
      let cs = (connect_to_stan client s.config.stan s.connections).0 in
      subst (λ (x : Server). Sane (at x t' p late)) e
        (Sane-moved (at s connecting p late) t' (record s { connections = cs }) o refl off
          (record {
            running = refl;
            need = refl;
            locked = refl;
            cancel = refl;
            connectors = same_connectors s.connectors;
          }))
  ticks-Sane s locking p late client t' s' o h =
      let (free, e, f) = part_locking client s t' s' h in
      subst (λ (x : Server). Sane (at x t' p late)) f
        (subst (λ (x : Ticker). Sane (at (record s { connector_locked = true }) x p late)) e
          (record {
            runs = o.runs;
            lock = inl refl;
            tidy = o.tidy;
            keyed = o.keyed;
            left = record { distinct = o.keyed; there = λ id i e. e };
            unsent = o.unsent;
          }))
  ticks-Sane s (restarting []) p late client t' s' o h =
      let (e, f) = part_last client s t' s' h in
      subst (λ (x : Server). Sane (at x t' p late)) f
        (subst (λ (x : Ticker). Sane (at (unlock_connectors s) x p late)) e
          (record {
            runs = o.runs;
            lock = inl refl;
            tidy = o.tidy;
            keyed = o.keyed;
            left = none-Left selecting s.need_reconnect refl;
            unsent = o.unsent;
          }))
  ticks-Sane s (restarting ((id, i) ∷ rest)) p late client t' s' o h =
      let (f, which) = part_test client s id i rest t' s' h in
      subst (λ (x : Server). Sane (at x t' p late)) f
        (elim which [
          | inl (r, e) ↦
              subst (λ (x : Ticker). Sane (at s x p late)) e
                (record {
                  runs = o.runs;
                  lock = inl (holding-locked s (restarting ((id, i) ∷ rest)) o.lock refl);
                  tidy = o.tidy;
                  keyed = o.keyed;
                  left = o.left;
                  unsent = o.unsent;
                })
          | inr (r, e) ↦
              subst (λ (x : Ticker). Sane (at s x p late)) e
                (record {
                  runs = o.runs;
                  lock = inr (r, holding-locked s (restarting ((id, i) ∷ rest)) o.lock refl, refl);
                  tidy = o.tidy;
                  keyed = o.keyed;
                  left = none-Left selecting s.need_reconnect refl;
                  unsent = o.unsent;
                })
        ])
  ticks-Sane s (chosen id i rest) p late client t' s' o h =
      let (e, f) = part_chosen client s id i rest t' s' h in
      let placed = left-AllPlaced s ((id, i) ∷ rest) o.tidy o.left in
      let ((conn, there, same), more) = placed in
      let (s₁, e₁, r) = restart_one-Restart client s id i conn there in
      let (s₂, e₂, tidy, _, _) = restart_one-IsTidy client s id i rest placed o.tidy in
      let k : s₁ ≡ s' = done-injective (sym e₁ ∙ e) in
      let k₂ : s₂ ≡ s₁ = done-injective (sym e₂ ∙ e₁) in
      subst (λ (x : Server). Sane (at x t' p late)) k
        (subst (λ (x : Ticker). Sane (at s₁ x p late)) f
          (record {
            runs = r.running ∙ o.runs;
            lock = inl (r.locked ∙ holding-locked s (chosen id i rest) o.lock refl);
            tidy = subst IsTidy k₂ tidy;
            keyed = r.distinct o.keyed;
            left = restarted-Left s s₁ id i rest o.left r;
            unsent = elim o.unsent [ inl u ↦ inl u | inr u ↦ inr (r.cancel ∙ u) ];
          }))
  ticks-Sane s ended p late client t' s' o h = absurd (part_ended client s t' s' h)

  pub section-Sane :
      (w : World) (client : Client) (h : Handler) (s' : Server) (late' : List Handler)
      → Sane w
      → section client h w.server ≡ done s'
      → Sane (record w { server = s'; late = late' })
  unfolding section
  section-Sane w client (erring i) s' late' o h =
      Changed-Sane w s' late' o (error_section-Changed w.server s' i h)
  section-Sane w client checking s' late' o h =
      Changed-Sane w s' late' o (check_section-Changed client w.server s' h)
  section-Sane w client (losing name sc) s' late' o h =
      subst (λ (x : Server). Sane (record w { server = x; late = late' })) (done-injective h)
        (Alike-Sane w
          (record w.server {
            connections = forget_stan name w.server.connections;
            effects = w.server.effects ++ close_stan sc ∷ [];
          })
          late' o
          (record {
            running = refl;
            need = refl;
            locked = refl;
            cancel = refl;
            connectors = same_connectors w.server.connectors;
          }))
