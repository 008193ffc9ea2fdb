-- ===== src/Server/Recovery.antt =====
-- A tick of the reconnect ticker of server/core/server.go when the servers are back.

use native.Mathlib.Decide.{ℕ_discrete}
use nats_replicator.Prelude.{
  ℕ, String, ◌≡◌, refl, sym, subst, ◌∙◌, true, false, none, some, List, [], ◌∷◌, All, arith,
  get_elem?, set, get_elem?-set_self, get_elem?-set_ne, eq_iff,
}
use nats_replicator.Prelude.Assoc.{Assoc, lookup, delete, lookup-delete, nil_of_lookups}
use nats_replicator.Prelude.Outcome.{done}
use nats_replicator.Float.{Float}
use nats_replicator.Client.{Client}
use nats_replicator.Nats.{connect_to_stan}
use nats_replicator.Connector.{Connector}
use nats_replicator.Connector.Methods
use nats_replicator.Connector.Lifecycle.{
  Ready, start-Ready, start_ready, start-Started, Grants, is_subscribed,
}
use nats_replicator.State.{Server}
use nats_replicator.Server.{unlock_connectors}
use nats_replicator.Server.Ticker.{all_nats_up, restart_one, restart_loop, tick_begin, tick}

module _ ⦃fl : Float⦄ where
  -- At place i stands a connector with P.
  pub record At (P : Connector → Type 0) (conns : List Connector) (i : ℕ) : Type 0 where
    pub conn : Connector
    pub here : get_elem? conns i ≡ some conn
    pub holds : P conn

  abbrev pub AllAt : (Connector → Type 0) → List Connector → Assoc ℕ → Type 0
  AllAt P conns m = All (λ (e : String × ℕ). At P conns e.1) m

  abbrev pub Subscribed : Connector → Type 0
  Subscribed conn = is_subscribed conn ≡ true

  -- A new connector with P at place i, in place of another, keeps P where it holds.
  At-set :
      {P : Connector → Type 0} (conns : List Connector) (i j : ℕ) (new : Connector)
      → P new
      → At P conns j
      → At P (set conns i new) j
  At-set conns i j new h a = elim (ℕ_discrete i j) [
    | yes p ↦ record {
      conn = new;
      here =
          subst (λ k. get_elem? (set conns k new) j ≡ some new) (sym p)
            (get_elem?-set_self conns j a.conn new a.here);
      holds = h;
    }
    | no p ↦ record {
      conn = a.conn;
      here = get_elem?-set_ne conns i j new p ∙ a.here;
      holds = a.holds;
    }
  ]

  AllAt-set :
      (P : Connector → Type 0) (conns : List Connector) (i : ℕ) (new : Connector) (m : Assoc ℕ)
      → P new
      → AllAt P conns m
      → AllAt P (set conns i new) m
  AllAt-set P conns i new [] h a = tt
  AllAt-set P conns i new ((id, j) ∷ m) h (a, more) =
      (At-set conns i j new h a, AllAt-set P conns i new m h more)

  -- Every id that waits is among the entries that are still to be met.
  abbrev Covers : Assoc ℕ → Assoc ℕ → Type 0
  Covers rest need = (id : String) → lookup id rest ≡ none → lookup id need ≡ none

  Covers-delete :
      (id : String) (i : ℕ) (rest need : Assoc ℕ)
      → Covers ((id, i) ∷ rest) need
      → Covers rest (delete id need)
  unfolding lookup
  Covers-delete id i rest need c k h = ground (arith, lookup-delete id k need, eq_iff id k, c k)

  abbrev pub restarted : Client → Server → String → ℕ → Connector → Server
  restarted client s id i conn = record s {
    connectors = set s.connectors i (Methods.start client s.connections conn).0;
    need_reconnect = delete id s.need_reconnect;
  }

  pub restart_one_ok :
      (client : Client) (s : Server) (id : String) (i : ℕ) (conn : Connector)
      → get_elem? s.connectors i ≡ some conn
      → (Methods.start client s.connections conn).1 ≡ none
      → restart_one client s id i ≡ done (restarted client s id i conn)
  unfolding restart_one
  restart_one_ok client s id i conn e h = ground arith

  pub restart_loop_step :
      (client : Client) (s s' : Server) (id : String) (i : ℕ) (rest : Assoc ℕ)
      → s.running ≡ true
      → restart_one client s id i ≡ done s'
      → restart_loop client s ((id, i) ∷ rest) ≡ restart_loop client s' rest
  unfolding restart_loop
  restart_loop_step client s s' id i rest r e = ground arith

  -- The loop empties the map and starts every connector in it.
  restart_loop_lem :
      (client : Client) (s : Server) (rest seen : Assoc ℕ)
      → s.running ≡ true
      → Grants client
      → AllAt (Ready client s.connections) s.connectors rest
      → AllAt Subscribed s.connectors seen
      → Covers rest s.need_reconnect
      → (s' : Server) × (restart_loop client s rest ≡ done s')
        × (s'.connector_locked ≡ false)
        × (s'.running ≡ true)
        × (s'.need_reconnect ≡ [])
        × AllAt Subscribed s'.connectors rest
        × AllAt Subscribed s'.connectors seen
  restart_loop_lem client s [] seen r g ready subs c = (
    unlock_connectors s,
    unfold restart_loop in refl,
    refl,
    r,
    nil_of_lookups s.need_reconnect (λ k. c k (unfold lookup in refl)),
    tt,
    subs,
  )
  restart_loop_lem client s ((id, i) ∷ rest) seen r g (a, more) subs c =
      let cs = s.connections in
      let ok = start_ready client cs a.conn g a.holds.configured a.holds.up in
      let started = start-Started client cs a.conn ok in
      let new = (Methods.start client cs a.conn).0 in
      let s₁ = restarted client s id i a.conn in
      let at : At Subscribed s₁.connectors i = record {
        conn = new;
        here = get_elem?-set_self s.connectors i a.conn new a.here;
        holds = started.subscribed;
      } in
      let (s', e, l, r', n, all, (hd, sn)) =
        restart_loop_lem client s₁ rest ((id, i) ∷ seen) r g
          (AllAt-set (Ready client cs) s.connectors i new rest
            (start-Ready client cs a.conn a.holds) more)
          (at, AllAt-set Subscribed s.connectors i new seen started.subscribed subs)
          (Covers-delete id i rest s.need_reconnect c) in
      (
        s',
        restart_loop_step client s s₁ id i rest r (restart_one_ok client s id i a.conn a.here ok)
            ∙ e,
        l,
        r',
        n,
        (hd, all),
        sn,
      )

  pub tick_on :
      (client : Client) (s : Server)
      → s.running ≡ true
      → s.connector_locked ≡ false
      → all_nats_up client s.connections s.config.nats ≡ true
      → (connect_to_stan client s.config.stan s.connections).1 ≡ none
      → tick client s
        ≡ restart_loop client
            (record s {
              connections = (connect_to_stan client s.config.stan s.connections).0;
              connector_locked = true;
            })
            s.need_reconnect
  unfolding tick tick_begin
  tick_on client s r l up stan = ground arith

  -- A tick, with no other thread between its parts, on a running server whose lock is free, with
  -- all NATS connections up and every streaming connection restored: if each waiting connector
  -- has its settings and its connections, and the servers grant the subscriptions, then the tick
  -- ends, no connector waits any more, each that waited has a subscription, and the lock is free.
  pub tick_recovers :
      (client : Client) (s : Server)
      → s.running ≡ true
      → s.connector_locked ≡ false
      → all_nats_up client s.connections s.config.nats ≡ true
      → (connect_to_stan client s.config.stan s.connections).1 ≡ none
      → Grants client
      → AllAt
          (Ready client (connect_to_stan client s.config.stan s.connections).0)
          s.connectors
          s.need_reconnect
      → (s' : Server) × (tick client s ≡ done s')
        × (s'.connector_locked ≡ false)
        × (s'.need_reconnect ≡ [])
        × AllAt Subscribed s'.connectors s.need_reconnect
  tick_recovers client s r l up stan g ready =
      let t = record s {
        connections = (connect_to_stan client s.config.stan s.connections).0;
        connector_locked = true;
      } in
      let (s', e, l', _, n, all, _) =
        restart_loop_lem client t s.need_reconnect [] r g ready tt (λ id h. h) in
      (s', tick_on client s r l up stan ∙ e, l', n, all)
