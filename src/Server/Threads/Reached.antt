-- ===== src/Server/Threads/Reached.antt =====
-- What holds in every state that the threads of server/core reach after Start.
use nats_replicator.Prelude.{
  ℕ, inl, inr, String, true, false, ◌≡◌, refl, sym, ap, subst, ◌∙◌, Option, none, some, List, [],
  ◌∷◌, ◌++◌, All, arith, get_elem?,
}
use nats_replicator.Prelude.Assoc.{Assoc, lookup}
use nats_replicator.Prelude.Outcome.{done}
use nats_replicator.Float.{Float}
use nats_replicator.Result.{Error}
use nats_replicator.Client.{Client}
use nats_replicator.Monitoring.{Network}
use nats_replicator.Connector.{Connector}
use nats_replicator.Connector.Methods
use nats_replicator.State.{Server}
use nats_replicator.Server.Startup
use nats_replicator.Server.Startup.{close_connectors, close_connections, end_monitoring}
use nats_replicator.Server.Starting.{start_server, start_server-done, start-cancel}
use nats_replicator.Server.Running.{start_lem}
use nats_replicator.Server.Tidy.{IsTidy}
use nats_replicator.Server.Marks.{Marked}
use nats_replicator.Server.Keys.{Distinct}
use nats_replicator.Server.Settled.{Restart, restart_one-Restart, found_cons}
use nats_replicator.Server.Threads.{
  Ticker, selecting, connecting, locking, restarting, chosen, ended, Stopping, idle, cancelling,
  closing, disconnecting, unmonitoring, stopped, ticker_part, stop_part, World, Step, receives,
  serves, tests, acts, ticks, cancels, stops, Reach, here, next, launched,
}
use nats_replicator.Server.Threads.Alike.{receives-Alike, serves-Alike}
use nats_replicator.Server.Threads.Sane.{
  entries_of, holding, is_idle, is_unsent, Left, none-Left, no_entry, Sane, Alike-Sane,
}
use nats_replicator.Server.Threads.Kept.{Alike-refl, left-AllPlaced, found_here}
use nats_replicator.Server.Threads.Safe.{at, ticks-Sane, section-Sane}
use nats_replicator.Server.Threads.Stops.{stops-Sane, stop_closing, stop_later}

module _ ⦃fl : Float⦄ where
  pub Step-Sane : {w v : World} → Sane w → Step w v → Sane v
  Step-Sane {w} o (receives i conn h e c) =
      Alike-Sane w _ w.late o (receives-Alike w.server i conn h e c)
  Step-Sane {w} o (serves wide r s response h) =
      Alike-Sane w s w.late o (serves-Alike wide r w.server s response h)
  Step-Sane {w} o (tests h r) = Alike-Sane w w.server (h ∷ w.late) o (Alike-refl w.server)
  Step-Sane {w} o (acts client before after h s e k) =
      section-Sane w client h s (before ++ after) o k
  Step-Sane {w} o (ticks client t s h) =
      ticks-Sane w.server w.ticker w.stopping w.late client t s o h
  Step-Sane {w} o (cancels e n) =
      let off : holding w.ticker ≡ false = ap holding e in
      record {
        runs = o.runs;
        lock = elim o.lock [ inl l ↦ inl (l ∙ off) | inr (r, l, k) ↦ inr (r, l, refl) ];
        tidy = o.tidy;
        keyed = o.keyed;
        left = none-Left ended w.server.need_reconnect refl;
        unsent = elim o.unsent [ inl u ↦ inl u | inr u ↦ absurd (ground arith) ];
      }
  Step-Sane {w} o (stops answer p s h) =
      stops-Sane w.server w.ticker w.stopping w.late answer p s o h

  pub Reach-Sane : {w v : World} → Sane w → Reach w v → Sane v
  Reach-Sane o here = o
  Reach-Sane o (next r st) = Step-Sane (Reach-Sane o r) st

  -- The ticker's goroutine ends only after Stop has sent to it.
  abbrev GoneOnly : World → Type 0
  GoneOnly w = w.ticker ≡ ended → is_unsent w.stopping ≡ false

  never_ends :
      (client : Client) (t : Ticker) (s s' : Server) → ¬ (ticker_part client t s ≡ done (ended, s'))
  unfolding ticker_part
  never_ends client selecting s s' h = ground arith
  never_ends client connecting s s' h = ground arith
  never_ends client locking s s' h = ground arith
  never_ends client (restarting []) s s' h = cc
  never_ends client (restarting ((id, i) ∷ rest)) s s' h = ground arith
  never_ends client (chosen id i rest) s s' h = ground arith
  never_ends client ended s s' h = cc

  stays_sent :
      (answer : Option Error) (p p' : Stopping) (s s' : Server)
      → stop_part answer p s ≡ done (p', s')
      → is_unsent p ≡ false
      → is_unsent p' ≡ false
  stays_sent answer idle p' s s' h u = cc
  stays_sent answer cancelling p' s s' h u = cc
  stays_sent answer closing p' s s' h u =
      subst (λ x. is_unsent x ≡ false) (stop_closing answer s p' s' h).1 refl
  stays_sent answer disconnecting p' s s' h u =
      subst (λ x. is_unsent x ≡ false) ((stop_later answer s p' s').0 h).0 refl
  stays_sent answer unmonitoring p' s s' h u =
      subst (λ x. is_unsent x ≡ false) ((stop_later answer s p' s').1 h).0 refl
  stays_sent answer stopped p' s s' h u =
      subst (λ x. is_unsent x ≡ false) ((stop_later answer s p' s').2 h).0 refl

  Step-GoneOnly : {w v : World} → Sane w → GoneOnly w → Step w v → GoneOnly v
  Step-GoneOnly o g (receives i conn h e c) = g
  Step-GoneOnly o g (serves wide r s response h) = g
  Step-GoneOnly o g (tests h r) = g
  Step-GoneOnly o g (acts client before after h s e k) = g
  Step-GoneOnly {w} o g (ticks client t s h) = λ e. absurd (
      never_ends client w.ticker w.server s
        (subst (λ (x : Ticker). ticker_part client w.ticker w.server ≡ done (x, s)) e h))
  Step-GoneOnly {w} o g (cancels e n) =
      λ _. elim o.unsent [ inl u ↦ u | inr u ↦ absurd (ground arith) ]
  Step-GoneOnly {w} o g (stops answer p s h) =
      λ e. stays_sent answer w.stopping p w.server s h (g e)

  Reach-GoneOnly : {w v : World} → Sane w → GoneOnly w → Reach w v → GoneOnly v
  Reach-GoneOnly o g here = g
  Reach-GoneOnly o g (next r st) = Step-GoneOnly (Reach-Sane o r) (Reach-GoneOnly o g r) st

  launched-Sane :
      (client : Client) (net : Network) (now : ℕ) (s s₀ : Server)
      → s.connector_locked ≡ false
      → start_server client net now s ≡ done (s₀, none)
      → Sane (launched s₀)
  launched-Sane client net now s s₀ l h =
      let e = start_server-done client net now s s₀ h in
      let ok : (Startup.start client net now s).1 ≡ none =
        ap (λ (x : Server × Option Error). x.1) e in
      let (r, n, k, _, _, _) = start_lem client net now s ok in
      let c = start-cancel client net now s in
      subst (λ (x : Server × Option Error). Sane (launched x.0)) e
        (record {
          runs = r;
          lock = inl (k ∙ l);
          tidy =
              subst
                (λ m.
                  All
                    (λ (e : String × ℕ).
                      Marked (Startup.start client net now s).0.connectors e.0 e.1)
                    m)
                (sym n) tt;
          keyed = subst Distinct (sym n) tt;
          left = none-Left selecting (Startup.start client net now s).0.need_reconnect refl;
          unsent = inr c;
        })

  pub start-Sane :
      (client : Client) (net : Network) (now : ℕ) (s s₀ : Server) (w : World)
      → s.connector_locked ≡ false
      → start_server client net now s ≡ done (s₀, none)
      → Reach (launched s₀) w
      → Sane w
  start-Sane client net now s s₀ w l h r = Reach-Sane (launched-Sane client net now s s₀ l h) r

  pub running_lock :
      (w : World) → Sane w → w.server.running ≡ true → w.server.connector_locked ≡ holding w.ticker
  running_lock w o r = elim o.lock [ inl e ↦ e | inr (off, _, _) ↦ cc ]

  marked_at :
      (conns : List Connector) (m : Assoc ℕ) (id : String) (j : ℕ)
      → All (λ (e : String × ℕ). Marked conns e.0 e.1) m
      → lookup id m ≡ some j
      → Marked conns id j
  marked_at conns [] id j a h = absurd (no_entry id j h)
  marked_at conns ((k, v) ∷ m) id j (at, a) h = elim (found_cons k v m id j h) [
    | inl (p, q) ↦ subst (λ x. Marked conns x j) p (subst (Marked conns k) q at)
    | inr (ne, h') ↦ marked_at conns m id j a h'
  ]

  -- No part of the ticker waits, or panics, while the server runs.
  ticker_ends :
      (client : Client) (s : Server) (t : Ticker)
      → IsTidy s
      → Left (entries_of t) s.need_reconnect
      → s.connector_locked ≡ holding t
      → ¬ (t ≡ ended)
      → (x : Ticker × Server) × (ticker_part client t s ≡ done x)
  unfolding ticker_part
  ticker_ends client s selecting a l k n = (_, refl)
  ticker_ends client s connecting a l k n = (_, refl)
  ticker_ends client s locking a l k n =
      ((restarting s.need_reconnect, record s { connector_locked = true }), rw k refl)
  ticker_ends client s (restarting []) a l k n = (_, refl)
  ticker_ends client s (restarting ((id, i) ∷ rest)) a l k n = (_, refl)
  ticker_ends client s (chosen id i rest) a l k n =
      let ((conn, there, same), more) = left-AllPlaced s ((id, i) ∷ rest) a l in
      let (s₁, e, r) = restart_one-Restart client s id i conn there in
      ((restarting rest, s₁), rw e refl)
  ticker_ends client s ended a l k n = absurd (n refl)

  -- After a Start without an error on a server whose lock is free, in every state that message
  -- callbacks, error handlers, HTTP requests, the ticker and Stop reach, part by part and in any
  -- order, in which the server still runs: the connectors' lock is held exactly while the ticker
  -- is between its Lock and its Unlock, each entry of the map of restarts is of a connector that
  -- has no subscription, no id has two entries, and the next part of the ticker ends, whatever
  -- the servers answer.
  pub start_server-safe :
      (client later : Client) (net : Network) (now : ℕ) (s s₀ : Server) (w : World)
      → s.connector_locked ≡ false
      → start_server client net now s ≡ done (s₀, none)
      → Reach (launched s₀) w
      → w.server.running ≡ true
      → (w.server.connector_locked ≡ holding w.ticker)
        × IsTidy w.server
        × Distinct w.server.need_reconnect
        × ((x : Ticker × Server) × (ticker_part later w.ticker w.server ≡ done x))
  start_server-safe client later net now s s₀ w l h reached r =
      let o₀ = launched-Sane client net now s s₀ l h in
      let o = Reach-Sane o₀ reached in
      let g = Reach-GoneOnly o₀ (λ e. cc) reached in
      let k = running_lock w o r in
      (
        k,
        o.tidy,
        o.keyed,
        ticker_ends later w.server w.ticker o.tidy o.left k (λ e.
            let u = g e in
            let q : is_idle w.stopping ≡ true = sym o.runs ∙ r in not_both w.stopping q u),
      )
    where
      not_both : (p : Stopping) → is_idle p ≡ true → ¬ (is_unsent p ≡ false)
      not_both idle q u = cc
      not_both cancelling q u = cc
      not_both closing q u = cc
      not_both disconnecting q u = cc
      not_both unmonitoring q u = cc
      not_both stopped q u = cc

  -- After a Start without an error on a server whose lock is free, in every state that message
  -- callbacks, error handlers, HTTP requests, the ticker and Stop reach, part by part and in any
  -- order, in which the ticker has chosen an entry of the map of restarts: its connector has no
  -- subscription; the restart ends, whatever the servers answer; it changes no other connector
  -- and no other entry, puts what Start makes of the connector in its place, and removes the
  -- entry only if the connector has a subscription then.
  pub start_server-Restart :
      (client later : Client) (net : Network) (now : ℕ) (s s₀ : Server) (w : World) (id : String)
      (i : ℕ) (rest : Assoc ℕ)
      → s.connector_locked ≡ false
      → start_server client net now s ≡ done (s₀, none)
      → Reach (launched s₀) w
      → w.ticker ≡ chosen id i rest
      → (conn : Connector) × (get_elem? w.server.connectors i ≡ some conn)
        × (conn.subscription ≡ none)
        × ((s' : Server) × (ticker_part later w.ticker w.server ≡ done (restarting rest, s'))
            × Restart id i (Methods.start later w.server.connections conn).0 w.server s')
  unfolding ticker_part
  start_server-Restart client later net now s s₀ w id i rest l h reached e =
      let o = start-Sane client net now s s₀ w l h reached in
      let left : Left ((id, i) ∷ rest) w.server.need_reconnect =
        subst (λ (t : Ticker). Left (entries_of t) w.server.need_reconnect) e o.left in
      let (conn, there, same, off) =
        marked_at w.server.connectors w.server.need_reconnect id i o.tidy
          (left.there id i (found_here id i rest)) in
      let (s', k, r) = restart_one-Restart later w.server id i conn there in
      (conn, there, off, (s', ap (λ (t : Ticker). ticker_part later t w.server) e ∙ rw k refl, r))
