-- ===== src/Server/Threads/Waits.antt =====
-- No thread of server/core drops a connector that waits for its restart.
use nats_replicator.Prelude.{
  suc, ℕ, ◌⊎◌, inl, inr, String, ◌==◌, true, false, ◌≡◌, sym, ap, subst, ◌∙◌, Option, none, some,
  List, [], ◌∷◌, arith, get_elem?, eq_iff, Bool-cases, Option-cases,
}
use nats_replicator.Prelude.Assoc.{Assoc, lookup}
use nats_replicator.Prelude.Outcome.{done, done-injective}
use nats_replicator.Float.{Float}
use nats_replicator.Result.{Error}
use nats_replicator.Client.{Client}
use nats_replicator.Monitoring.{Network}
use nats_replicator.Connector.{Connector}
use nats_replicator.State.{Server}
use nats_replicator.Server.{error_section}
use nats_replicator.Server.Startup.{close_connectors, close_connections, end_monitoring}
use nats_replicator.Server.Starting.{start_server}
use nats_replicator.Server.Tidy.{IsTidy}
use nats_replicator.Server.Settled.{Restart, restart_one-Restart}
use nats_replicator.Server.Threads.{
  Ticker, selecting, connecting, locking, restarting, chosen, ended, Stopping, idle, cancelling,
  closing, disconnecting, unmonitoring, stopped, Handler, erring, losing, checking, ticker_part,
  stop_part, section, World, Step, receives, serves, tests, acts, ticks, cancels, stops, Reach,
  launched,
}
use nats_replicator.Server.Threads.Alike.{serves-Alike}
use nats_replicator.Server.Threads.Sane.{entries_of, Left, Sane}
use nats_replicator.Server.Threads.Kept.{
  part_selecting, part_connecting, part_locking, part_last, part_test, part_chosen, part_ended,
  left-AllPlaced, found_here,
}
use nats_replicator.Server.Threads.Safe.{at}
use nats_replicator.Server.Recovery.{Subscribed}
use nats_replicator.Prelude.{get_elem?-set_self}
use nats_replicator.Prelude.Assoc.{contains, lookup-insert}
use nats_replicator.Connector.{connector_id}
use nats_replicator.Server.{mark_broken, check_one, check_loop}
use nats_replicator.Server.Recovery.{At}
use nats_replicator.Server.Threads.Sane.{check_section_done}
use nats_replicator.Server.Threads.Reached.{start-Sane}

module _ ⦃fl : Float⦄ where
  error_section-lookup :
      (s s' : Server) (i : ℕ) (id : String) (j : ℕ)
      → error_section s i ≡ done s'
      → lookup id s.need_reconnect ≡ some j
      → lookup id s'.need_reconnect ≡ some j
  unfolding mark_broken contains
  error_section-lookup s s' i id j h e = elim (Option-cases (get_elem? s.connectors i)) [
    | inl n ↦ absurd (ground arith)
    | inr (conn, n) ↦ ground (
      arith,
      lookup-insert (connector_id conn) id i s.need_reconnect,
      eq_iff (connector_id conn) id,
      ap (λ k. lookup k s.need_reconnect),
    )
  ]

  check_one-lookup :
      (client : Client) (s : Server) (i : ℕ) (conn : Connector) (id : String) (j : ℕ)
      → lookup id s.need_reconnect ≡ some j
      → lookup id (check_one client s i conn).need_reconnect ≡ some j
  unfolding check_one mark_broken contains
  check_one-lookup client s i conn id j e = ground (
    arith,
    lookup-insert (connector_id conn) id i s.need_reconnect,
    eq_iff (connector_id conn) id,
    ap (λ k. lookup k s.need_reconnect),
  )

  check_loop-lookup :
      (client : Client) (s : Server) (i : ℕ) (rest : List Connector) (id : String) (j : ℕ)
      → lookup id s.need_reconnect ≡ some j
      → lookup id (check_loop client s i rest).need_reconnect ≡ some j
  unfolding check_loop
  check_loop-lookup client s i [] id j e = e
  check_loop-lookup client s i (conn ∷ rest) id j e =
      check_loop-lookup client (check_one client s i conn) (suc i) rest id j
        (check_one-lookup client s i conn id j e)

  section-lookup :
      (client : Client) (h : Handler) (s s' : Server) (id : String) (j : ℕ)
      → section client h s ≡ done s'
      → lookup id s.need_reconnect ≡ some j
      → lookup id s'.need_reconnect ≡ some j
  unfolding section
  section-lookup client (erring i) s s' id j h e = error_section-lookup s s' i id j h e
  section-lookup client (losing name sc) s s' id j h e =
      subst (λ (x : Server). lookup id x.need_reconnect ≡ some j) (done-injective h) e
  section-lookup client checking s s' id j h e =
      subst (λ (x : Server). lookup id x.need_reconnect ≡ some j)
        (check_section_done client s s' h).1
        (check_loop-lookup client (record s { connector_locked = true }) 0 s.connectors id j e)

  -- The entry is still there, or its connector has a subscription.
  abbrev pub WaitsOn : Server → String → ℕ → Type 0
  WaitsOn s id i = (lookup id s.need_reconnect ≡ some i) ⊎ At Subscribed s.connectors i

  chosen-WaitsOn :
      (s s' : Server) (id : String) (i : ℕ) (rest : Assoc ℕ) (conn new : Connector) (id' : String)
      (j : ℕ)
      → Left ((id, i) ∷ rest) s.need_reconnect
      → get_elem? s.connectors i ≡ some conn
      → Restart id i new s s'
      → lookup id' s.need_reconnect ≡ some j
      → WaitsOn s' id' j
  chosen-WaitsOn s s' id i rest conn new id' j l at r e = elim (Bool-cases (id == id')) [
    | inr ne ↦ inl (r.others id' ne ∙ e)
    | inl eq ↦
        let same : id ≡ id' = (eq_iff id id').0 eq in
        let mine = l.there id i (found_here id i rest) in
        let place : i ≡ j = some_same (sym mine ∙ (ap (λ k. lookup k s.need_reconnect) same ∙ e)) in
        subst (λ k. WaitsOn s' k j) same
          (subst (WaitsOn s' id) place (elim r.waits [
            | inl k ↦ inl (k ∙ mine)
            | inr sub ↦ inr (record {
              conn = new;
              here =
                  ap (λ cs. get_elem? cs i) r.placed
                  ∙ get_elem?-set_self s.connectors i conn new at;
              holds = sub;
            })
          ]))
  ]
    where
      some_same : {i j : ℕ} → ◌≡◌ {A = Option ℕ} (some i) (some j) → i ≡ j
      some_same h = ground arith

  ticks-WaitsOn :
      (client : Client) (s s' : Server) (t t' : Ticker) (id : String) (j : ℕ)
      → IsTidy s
      → Left (entries_of t) s.need_reconnect
      → ticker_part client t s ≡ done (t', s')
      → lookup id s.need_reconnect ≡ some j
      → WaitsOn s' id j
  ticks-WaitsOn client s s' selecting t' id j a l h e = inl (
      subst (λ (x : Server). lookup id x.need_reconnect ≡ some j)
        (part_selecting client s t' s' h).1 e)
  ticks-WaitsOn client s s' connecting t' id j a l h e = inl (
      subst (λ (x : Server). lookup id x.need_reconnect ≡ some j)
        (part_connecting client s t' s' h).1 e)
  ticks-WaitsOn client s s' locking t' id j a l h e = inl (
      subst (λ (x : Server). lookup id x.need_reconnect ≡ some j) (part_locking client s t' s' h).2
        e)
  ticks-WaitsOn client s s' (restarting []) t' id j a l h e =
      inl (
        subst (λ (x : Server). lookup id x.need_reconnect ≡ some j) (part_last client s t' s' h).1
          e)
  ticks-WaitsOn client s s' (restarting ((k, i) ∷ rest)) t' id j a l h e = inl (
      subst (λ (x : Server). lookup id x.need_reconnect ≡ some j)
        (part_test client s k i rest t' s' h).0 e)
  ticks-WaitsOn client s s' (chosen k i rest) t' id j a l h e =
      let (m, f) = part_chosen client s k i rest t' s' h in
      let ((conn, there, same), more) = left-AllPlaced s ((k, i) ∷ rest) a l in
      let (s₁, e₁, r) = restart_one-Restart client s k i conn there in
      subst (λ (x : Server). WaitsOn x id j) (done-injective (sym e₁ ∙ m))
        (chosen-WaitsOn s s₁ k i rest conn _ id j l there r e)
  ticks-WaitsOn client s s' ended t' id j a l h e = absurd (part_ended client s t' s' h)

  stops-lookup :
      (answer : Option Error) (p p' : Stopping) (s s' : Server) (id : String) (j : ℕ)
      → stop_part answer p s ≡ done (p', s')
      → lookup id s.need_reconnect ≡ some j
      → lookup id s'.need_reconnect ≡ some j
  unfolding stop_part close_connectors close_connections end_monitoring
  stops-lookup answer idle p' s s' id j h e = ground arith
  stops-lookup answer cancelling p' s s' id j h e = ground arith
  stops-lookup answer closing p' s s' id j h e = ground arith
  stops-lookup answer disconnecting p' s s' id j h e = ground arith
  stops-lookup answer unmonitoring p' s s' id j h e = ground arith
  stops-lookup answer stopped p' s s' id j h e = ground arith

  Step-WaitsOn :
      {w v : World} (id : String) (i : ℕ)
      → Sane w
      → Step w v
      → lookup id w.server.need_reconnect ≡ some i
      → WaitsOn v.server id i
  Step-WaitsOn id i o (receives j conn h at c) e = inl e
  Step-WaitsOn {w} id i o (serves wide r s response h) e =
      inl (ap (lookup id) (serves-Alike wide r w.server s response h).need ∙ e)
  Step-WaitsOn id i o (tests h r) e = inl e
  Step-WaitsOn {w} id i o (acts client before after h s k m) e =
      inl (section-lookup client h w.server s id i m e)
  Step-WaitsOn {w} id i o (ticks client t s h) e =
      ticks-WaitsOn client w.server s w.ticker t id i o.tidy o.left h e
  Step-WaitsOn id i o (cancels k n) e = inl e
  Step-WaitsOn {w} id i o (stops answer p s h) e =
      inl (stops-lookup answer w.stopping p w.server s id i h e)

  -- After a Start without an error on a server whose lock is free, in every state that message
  -- callbacks, error handlers, HTTP requests, the ticker and Stop reach, part by part and in any
  -- order: whatever part of whatever thread comes next, a connector that waits for a restart
  -- still waits under the same entry or has a subscription.
  pub start_server-WaitsOn :
      (client : Client) (net : Network) (now : ℕ) (s s₀ : Server) (w v : World) (id : String)
      (i : ℕ)
      → s.connector_locked ≡ false
      → start_server client net now s ≡ done (s₀, none)
      → Reach (launched s₀) w
      → lookup id w.server.need_reconnect ≡ some i
      → Step w v
      → WaitsOn v.server id i
  start_server-WaitsOn client net now s s₀ w v id i l h reached e st =
      Step-WaitsOn id i (start-Sane client net now s s₀ w l h reached) st e
