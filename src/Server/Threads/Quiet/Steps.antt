-- ===== src/Server/Threads/Quiet/Steps.antt =====
-- The parts of all threads, after Stop of server/core/server.go has begun in a quiet state.
use nats_replicator.Prelude.{
  ℕ, ◌+◌, ◌-◌, inl, inr, true, false, ◌≡◌, refl, sym, ap, subst, ◌∙◌, Option, List, [], ◌∷◌, ◌++◌,
  arith,
}
use nats_replicator.Prelude.Outcome.{done}
use nats_replicator.Float.{Float}
use nats_replicator.Result.{Error}
use nats_replicator.Client.{Client, close_stan}
use nats_replicator.Nats.{connect_to_stan}
use nats_replicator.Connector.{Connector}
use nats_replicator.State.{Server}
use nats_replicator.Server.{unlock_connectors}
use nats_replicator.Server.Startup.{close_connectors, close_connections, end_monitoring}
use nats_replicator.Server.Threads.{
  Ticker, selecting, connecting, locking, restarting, chosen, ended, Stopping, idle, cancelling,
  closing, disconnecting, unmonitoring, stopped, Handler, ticker_part, stop_part, World, Step,
  receives, serves, tests, acts, ticks, cancels, stops, Reach, here, next,
}
use nats_replicator.Server.Threads.Alike.{Alike, receives-Alike, serves-Alike, same_connectors}
use nats_replicator.Server.Threads.Sane.{
  entries_of, holding, is_idle, is_unsent, not_holding, close_connectors-Changed,
}
use nats_replicator.Server.Threads.Kept.{
  part_selecting, part_connecting, part_locking, part_last, part_ended,
}
use nats_replicator.Server.Threads.Safe.{at}
use nats_replicator.Server.Threads.Stops.{
  close_connections-Alike, end_monitoring-Alike, stop_cancelling, stop_closing, stop_later,
}
use nats_replicator.Client.{close_nats}
use nats_replicator.Monitoring.{stop_monitoring}
use nats_replicator.Server.Startup.{close_each}
use nats_replicator.Server.Threads.{after_callback}
use nats_replicator.Server.Threads.Alike.{SameConnectors, handle-Served}
use nats_replicator.Server.Threads.Sane.{close_connectors_done}
use nats_replicator.Server.Threads.Quiet.{
  entries_of_none, after, Closed, Quiet, Grows, Quiet-Alike, same_effects, close_connectors-Closed,
  Closed-alike,
}

module _ ⦃fl : Float⦄ (conns : List Connector) where
  Quiet-moved :
      (s s' : Server) (t t' : Ticker) (p : Stopping) (late : List Handler)
      → Quiet conns (at s t p late)
      → s'.running ≡ s.running
      → s'.need_reconnect ≡ s.need_reconnect
      → s'.cancel ≡ s.cancel
      → s'.connectors ≡ s.connectors
      → s'.effects ≡ s.effects
      → s'.connector_locked ≡ holding t'
      → entries_of t' ≡ []
      → ¬ (t ≡ ended)
      → Quiet conns (at s' t' p late)
  Quiet-moved s s' t t' p late q r n c cs es l m live =
      let k : Alike (record s { connector_locked = s'.connector_locked }) s' = record {
        running = r;
        need = n;
        locked = refl;
        cancel = c;
        connectors = subst (SameConnectors s.connectors) (sym cs) (same_connectors s.connectors);
      } in
      record {
        off = r ∙ q.off;
        alone = q.alone;
        need = n ∙ q.need;
        entries = m;
        lock = l;
        begun = q.begun;
        unsent = elim q.unsent [ inl u ↦ inl u | inr u ↦ inr (c ∙ u) ];
        woken = elim q.woken [
          | inl u ↦ inl u
          | inr (inl u) ↦ absurd (live u)
          | inr (inr u) ↦ inr (inr (c ∙ u))
        ];
        closed =
            Closed-alike p conns (record s { connector_locked = s'.connector_locked }) s' k
              (same_effects s s' es) (closed_same p q.closed);
      }
    where
      closed_same :
          (p : Stopping)
          → Closed p conns s
          → Closed p conns (record s { connector_locked = s'.connector_locked })
      closed_same idle c = c
      closed_same cancelling c = c
      closed_same closing c = c
      closed_same disconnecting c = c
      closed_same unmonitoring c = c
      closed_same stopped c = c

  Quiet-ticks :
      (s : Server) (t : Ticker) (p : Stopping) (late : List Handler) (client : Client) (t' : Ticker)
      (s' : Server)
      → Quiet conns (at s t p late)
      → ticker_part client t s ≡ done (t', s')
      → Quiet conns (at s' t' p late)
  Quiet-ticks s selecting p late client t' s' q h =
      let (off, e) = part_selecting client s t' s' h in
      subst (λ (x : Server). Quiet conns (at x t' p late)) e
        (Quiet-moved s s selecting t' p late q refl refl refl refl refl (q.lock ∙ sym off)
          (entries_of_none t' off) (λ e. cc))
  Quiet-ticks s connecting p late client t' s' q h =
      let (off, e) = part_connecting client s t' s' h in
      subst (λ (x : Server). Quiet conns (at x t' p late)) e
        (Quiet-moved s
          (record s { connections = (connect_to_stan client s.config.stan s.connections).0 })
          connecting t' p late q refl refl refl refl refl (q.lock ∙ sym off)
          (entries_of_none t' off) (λ e. cc))
  Quiet-ticks s locking p late client t' s' q h =
      let (free, e, f) = part_locking client s t' s' h in
      subst (λ (x : Server). Quiet conns (at x t' p late)) f
        (subst (λ (x : Ticker). Quiet conns (at (record s { connector_locked = true }) x p late)) e
          (Quiet-moved s (record s { connector_locked = true }) locking
            (restarting s.need_reconnect) p late q refl refl refl refl refl refl q.need (λ e. cc)))
  Quiet-ticks s (restarting []) p late client t' s' q h =
      let (e, f) = part_last client s t' s' h in
      subst (λ (x : Server). Quiet conns (at x t' p late)) f
        (subst (λ (x : Ticker). Quiet conns (at (unlock_connectors s) x p late)) e
          (Quiet-moved s (unlock_connectors s) (restarting []) selecting p late q refl refl refl
            refl refl refl refl (λ e. cc)))
  Quiet-ticks s (restarting (x ∷ rest)) p late client t' s' q h = cc (q.entries)
  Quiet-ticks s (chosen id i rest) p late client t' s' q h = cc (q.entries)
  Quiet-ticks s ended p late client t' s' q h = absurd (part_ended client s t' s' h)

  close_connections-Grows : (s : Server) → Grows s (close_connections s)
  unfolding close_connections
  close_connections-Grows s =
      (close_each close_stan s.connections.stan ++ close_each close_nats s.connections.nats, refl)

  end_monitoring-Grows : (answer : Option Error) (s : Server) → Grows s (end_monitoring answer s)
  unfolding end_monitoring
  end_monitoring-Grows answer s =
      same_effects s (record s { monitor = (stop_monitoring answer s.monitor).0 }) refl

  -- To a part of Stop of the same kind.
  Quiet-on :
      (s : Server) (t : Ticker) (p p' : Stopping) (late : List Handler)
      → is_unsent p ≡ false
      → (is_idle p' ≡ false) × (is_unsent p' ≡ false)
      → (Closed p conns s → Closed p' conns s)
      → Quiet conns (at s t p late)
      → Quiet conns (at s t p' late)
  Quiet-on s t p p' late u (b, v) f q = record {
    off = q.off;
    alone = q.alone;
    need = q.need;
    entries = q.entries;
    lock = q.lock;
    begun = b;
    unsent = inl v;
    woken = elim q.woken [ inl x ↦ cc | inr x ↦ inr x ];
    closed = f q.closed;
  }

  Quiet-stops :
      (s : Server) (t : Ticker) (p : Stopping) (late : List Handler) (answer : Option Error)
      (p' : Stopping) (s' : Server)
      → Quiet conns (at s t p late)
      → stop_part answer p s ≡ done (p', s')
      → Quiet conns (at s' t p' late)
  Quiet-stops s t idle late answer p' s' q h = cc (q.begun)
  Quiet-stops s t cancelling late answer p' s' q h =
      let (z, e, f) = stop_cancelling answer s p' s' h in
      subst (λ (x : Server). Quiet conns (at x t p' late)) f
        (subst (λ (x : Stopping). Quiet conns (at (record s { cancel = s.cancel + 1 }) t x late)) e
          (record {
            off = q.off;
            alone = q.alone;
            need = q.need;
            entries = q.entries;
            lock = q.lock;
            begun = refl;
            unsent = inl refl;
            woken = inr (inr (omega (arith, z)));
            closed = q.closed;
          }))
  Quiet-stops s t closing late answer p' s' q h =
      let (c, e) = stop_closing answer s p' s' h in
      let k = close_connectors-Changed s s' c in
      let off = not_holding s t (inl q.lock) k.before in
      subst (λ (x : Stopping). Quiet conns (at s' t x late)) e
        (record {
          off = k.running ∙ q.off;
          alone = q.alone;
          need = closed_need s s' c ∙ q.need;
          entries = q.entries;
          lock = k.after ∙ sym off;
          begun = refl;
          unsent = inl refl;
          woken = elim q.woken [
            | inl u ↦ cc
            | inr (inl u) ↦ inr (inl u)
            | inr (inr u) ↦ inr (inr (k.cancel ∙ u))
          ];
          closed = close_connectors-Closed conns s s' q.closed c;
        })
    where
      closed_need :
          (s s' : Server) → close_connectors s ≡ done s' → s'.need_reconnect ≡ s.need_reconnect
      closed_need s s' c =
          ap (λ (x : Server). x.need_reconnect) (sym (close_connectors_done s s' c).1)
  Quiet-stops s t disconnecting late answer p' s' q h =
      let (e, f) = (stop_later answer s p' s').0 h in
      subst (λ (x : Server). Quiet conns (at x t p' late)) f
        (subst (λ (x : Stopping). Quiet conns (at (close_connections s) t x late)) e
          (Quiet-on (close_connections s) t disconnecting unmonitoring late refl (refl, refl)
            (λ c. c)
            (Quiet-Alike conns (at s t disconnecting late) (close_connections s) q
              (close_connections-Alike s) (close_connections-Grows s))))
  Quiet-stops s t unmonitoring late answer p' s' q h =
      let (e, f) = (stop_later answer s p' s').1 h in
      subst (λ (x : Server). Quiet conns (at x t p' late)) f
        (subst (λ (x : Stopping). Quiet conns (at (end_monitoring answer s) t x late)) e
          (Quiet-on (end_monitoring answer s) t unmonitoring stopped late refl (refl, refl) (λ c. c)
            (Quiet-Alike conns (at s t unmonitoring late) (end_monitoring answer s) q
              (end_monitoring-Alike answer s) (end_monitoring-Grows answer s))))
  Quiet-stops s t stopped late answer p' s' q h =
      let (e, f) = (stop_later answer s p' s').2 h in
      subst (λ (x : Server). Quiet conns (at x t p' late)) f
        (subst (λ (x : Stopping). Quiet conns (at s t x late)) e q)

  closed_cancel :
      (p : Stopping) (s : Server) (n : ℕ)
      → Closed p conns s
      → Closed p conns (record s { cancel = n })
  closed_cancel idle s n c = c
  closed_cancel cancelling s n c = c
  closed_cancel closing s n c = c
  closed_cancel disconnecting s n c = c
  closed_cancel unmonitoring s n c = c
  closed_cancel stopped s n c = c

  Quiet-Step : {w v : World} → Quiet conns w → Step w v → Quiet conns v
  Quiet-Step {w} q (receives i conn h e c) =
      Quiet-Alike conns w (after_callback w.server i h) q (receives-Alike w.server i conn h e c)
        (h.effects, refl)
  Quiet-Step {w} q (serves wide r s response h) =
      Quiet-Alike conns w s q (serves-Alike wide r w.server s response h)
        (same_effects w.server s (handle-Served wide r w.server s response h).effects)
  Quiet-Step {w} q (tests h r) = cc (q.off)
  Quiet-Step {w} q (acts client before after h s e k) =
      absurd (not_empty before after h (sym e ∙ q.alone))
    where
      not_empty : (before after : List Handler) (h : Handler) → ¬ (before ++ h ∷ after ≡ [])
      not_empty [] after h e = cc
      not_empty (x ∷ before) after h e = cc
  Quiet-Step {w} q (ticks client t s h) =
      Quiet-ticks w.server w.ticker w.stopping w.late client t s q h
  Quiet-Step {w} q (cancels e n) = record {
    off = q.off;
    alone = q.alone;
    need = q.need;
    entries = refl;
    lock = q.lock ∙ ap holding e;
    begun = q.begun;
    unsent = elim q.unsent [ inl u ↦ inl u | inr u ↦ absurd (ground arith) ];
    woken = inr (inl refl);
    closed = closed_cancel w.stopping w.server (w.server.cancel - 1) q.closed;
  }
  Quiet-Step {w} q (stops answer p s h) =
      Quiet-stops w.server w.ticker w.stopping w.late answer p s q h

  pub Quiet-Reach : {w v : World} → Quiet conns w → Reach w v → Quiet conns v
  Quiet-Reach q here = q
  Quiet-Reach q (next r st) = Quiet-Step (Quiet-Reach q r) st
