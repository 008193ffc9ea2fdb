-- ===== src/Server/Restarts.antt =====
-- A tick of the reconnect ticker of server/core/server.go, also when restarts fail.
use native.Mathlib.Decide.{ℕ_discrete}
use nats_replicator.Prelude.{
  ℕ, String, ◌==◌, ◌≡◌, refl, sym, ap, subst, ◌∙◌, ◌⊎◌, inl, inr, true, false, some, [], ◌∷◌, arith,
  get_elem?, set, get_elem?-set_ne, Bool-cases, Option-cases, ne_of_test,
}
use nats_replicator.Prelude.Assoc.{Assoc}
use nats_replicator.Prelude.Outcome.{done}
use nats_replicator.Float.{Float}
use nats_replicator.Result.{Error}
use nats_replicator.Client.{Client}
use nats_replicator.Nats.{Connections, connect_to_stan}
use nats_replicator.Connector.{Connector, connector_id}
use nats_replicator.Connector.Methods
use nats_replicator.Connector.Lifecycle.{start-NotStarted, start-SameConnector}
use nats_replicator.State.{Server}
use nats_replicator.Server.{unlock_connectors}
use nats_replicator.Server.Marks.{Marked, same_elem}
use nats_replicator.Server.Ticker.{restart_one, restart_loop, tick_begin, tick, all_nats_up}
use nats_replicator.Server.Recovery.{restarted, restart_one_ok, restart_loop_step}
use nats_replicator.Server.Tidy.{
  IsTidy, AllPlaced, AllPlaced-set, All-delete, All-replaced, IsTidy-AllPlaced,
}

module _ ⦃fl : Float⦄ where
  module _ (client : Client) (s : Server) (id : String) (i : ℕ) (conn : Connector)
      (at : get_elem? s.connectors i ≡ some conn) where
    pub restart_one_refused :
        (e : Error)
        → (Methods.start client s.connections conn).1 ≡ some e
        → restart_one client s id i
          ≡ done (record s {
            connectors = set s.connectors i (Methods.start client s.connections conn).0;
          })
    unfolding restart_one
    restart_one_refused e h = ground arith

    restarted-IsTidy : connector_id conn ≡ id → IsTidy s → IsTidy (restarted client s id i conn)
    restarted-IsTidy same a =
        All-delete (λ (e : String × ℕ). Marked s.connectors e.0 e.1)
          (λ (e : String × ℕ).
            Marked (set s.connectors i (Methods.start client s.connections conn).0) e.0 e.1)
          id s.need_reconnect elsewhere a
      where
        elsewhere :
            (id' : String) (j : ℕ)
            → (id' == id) ≡ false
            → Marked s.connectors id' j
            → Marked (set s.connectors i (Methods.start client s.connections conn).0) id' j
        elsewhere id' j ne (c, e, ci, sn) = elim (ℕ_discrete i j) [
          | yes p ↦
              let it : c ≡ conn = same_elem (sym e ∙ (ap (get_elem? s.connectors) (sym p) ∙ at)) in
              absurd
                (ne_of_test id' id ne (sym ci ∙ (ap (λ (d : Connector). connector_id d) it ∙ same)))
          | no p ↦ (c, get_elem?-set_ne s.connectors i j _ p ∙ e, ci, sn)
        ]

    refused-IsTidy :
        (e : Error)
        → (Methods.start client s.connections conn).1 ≡ some e
        → IsTidy s
        → IsTidy (record s {
          connectors = set s.connectors i (Methods.start client s.connections conn).0;
        })
    refused-IsTidy e h a =
        let r = start-NotStarted client s.connections conn e h in
        All-replaced s.connectors i conn (Methods.start client s.connections conn).0
          s.need_reconnect at r.same.id (λ n. elim r.unsubscribed [ inl u ↦ u | inr u ↦ u ∙ n ]) a

  -- One restart: it ends, the map stays tidy, and the connectors keep their places.
  pub restart_one-IsTidy :
      (client : Client) (s : Server) (id : String) (i : ℕ) (rest : Assoc ℕ)
      → AllPlaced s.connectors ((id, i) ∷ rest)
      → IsTidy s
      → (s' : Server) × (restart_one client s id i ≡ done s')
        × IsTidy s'
        × AllPlaced s'.connectors rest
        × (s'.running ≡ s.running)
  restart_one-IsTidy client s id i rest ((conn, at, same), more) a =
      let new = (Methods.start client s.connections conn).0 in
      let placed =
        AllPlaced-set s.connectors i conn new rest at
          (start-SameConnector client s.connections conn).id more in
      elim (Option-cases (Methods.start client s.connections conn).1) [
        | inl e ↦ (
          restarted client s id i conn,
          restart_one_ok client s id i conn at e,
          restarted-IsTidy client s id i conn at same a,
          placed,
          refl,
        )
        | inr (x, e) ↦ (
          record s { connectors = set s.connectors i new },
          restart_one_refused client s id i conn at x e,
          refused-IsTidy client s id i conn at x e a,
          placed,
          refl,
        )
      ]

  -- Between two steps of a running server.
  abbrev pub InOrder : Server → Type 0
  InOrder s = (s.running ≡ true) × (s.connector_locked ≡ false) × IsTidy s

  pub restart_loop_none :
      (client : Client) (s : Server) → restart_loop client s [] ≡ done (unlock_connectors s)
  unfolding restart_loop
  restart_loop_none client s = refl

  restart_loop-InOrder :
      (client : Client) (s : Server) (rest : Assoc ℕ)
      → s.running ≡ true
      → AllPlaced s.connectors rest
      → IsTidy s
      → (s' : Server) × (restart_loop client s rest ≡ done s') × InOrder s'
  restart_loop-InOrder client s [] r p a =
      (unlock_connectors s, restart_loop_none client s, (r, refl, a))
  restart_loop-InOrder client s ((id, i) ∷ rest) r p a =
      let (s₁, e, a₁, p₁, r₁) = restart_one-IsTidy client s id i rest p a in
      let (s', e', o) = restart_loop-InOrder client s₁ rest (r₁ ∙ r) p₁ a₁ in
      (s', restart_loop_step client s s₁ id i rest r e ∙ e', o)

  tick_begin_cases :
      (client : Client) (s : Server)
      → ((tick_begin client s).0 ≡ s)
        ⊎ ((cs : Connections) × ((tick_begin client s).0 ≡ record s { connections = cs }))
  unfolding tick_begin
  tick_begin_cases client s = elim (Bool-cases (all_nats_up client s.connections s.config.nats)) [
    | inl u ↦ inr ((connect_to_stan client s.config.stan s.connections).0, ground arith)
    | inr u ↦ inl (ground arith)
  ]

  tick_begin-InOrder : (client : Client) (s : Server) → InOrder s → InOrder (tick_begin client s).0
  tick_begin-InOrder client s o = elim (tick_begin_cases client s) [
    | inl e ↦ subst InOrder (sym e) o
    | inr (cs, e) ↦ subst InOrder (sym e) (o.0, o.1, o.2)
  ]

  module _ (client : Client) (s : Server) where
    tick_ends : (tick_begin client s).1 ≡ false → tick client s ≡ done (tick_begin client s).0
    unfolding tick
    tick_ends h = ground arith

    tick_goes_on :
        (tick_begin client s).1 ≡ true
        → (tick_begin client s).0.connector_locked ≡ false
        → tick client s
          ≡ restart_loop client
              (record (tick_begin client s).0 { connector_locked = true })
              (tick_begin client s).0.need_reconnect
    unfolding tick
    tick_goes_on h l = ground arith

  pub tick-InOrder :
      (client : Client) (s : Server)
      → InOrder s
      → (s' : Server) × (tick client s ≡ done s') × InOrder s'
  tick-InOrder client s o =
      let t = (tick_begin client s).0 in
      let (r, l, a) = tick_begin-InOrder client s o in
      elim (Bool-cases (tick_begin client s).1) [
        | inr h ↦ (t, tick_ends client s h, (r, l, a))
        | inl h ↦
            let (s', e, o') =
              restart_loop-InOrder client (record t { connector_locked = true }) t.need_reconnect r
                (IsTidy-AllPlaced t a) a in
            (s', tick_goes_on client s h l ∙ e, o')
      ]
