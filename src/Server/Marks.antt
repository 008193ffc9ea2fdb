-- ===== src/Server/Marks.antt =====
-- The map `needReconnect` of server/core/server.go, and ConnectorError that fills it.
use nats_replicator.Prelude.{
  ℕ, String, ◌≡◌, sym, ap, subst, ◌∙◌, ◌⊎◌, inl, inr, true, false, Option, none, some, List, arith,
  get_elem?, set, get_elem?-set_self, get_elem?-set_ne, ◌==◌, eq_iff, Bool-cases, Option-cases,
  ne_of_test,
}
use native.Mathlib.Decide.{ℕ_discrete}
use nats_replicator.Prelude.Assoc.{
  Assoc, lookup, insert, delete, contains, lookup-insert, lookup-delete,
}
use nats_replicator.Prelude.Outcome.{Outcome, done, panics, blocks}
use nats_replicator.Float.{Float}
use nats_replicator.Connector.{Connector, connector_id}
use nats_replicator.Connector.Methods
use nats_replicator.Connector.Lifecycle.{shutdown-Stopped}
use nats_replicator.State.{Server}
use nats_replicator.Server.{unlock_connectors, mark_broken, connector_error}

module _ ⦃fl : Float⦄ where
  -- At place i stands a connector of that id, and it has no subscription.
  abbrev pub Marked : List Connector → String → ℕ → Type 0
  Marked conns id i =
      (conn : Connector) × (get_elem? conns i ≡ some conn)
      × (connector_id conn ≡ id)
      × (conn.subscription ≡ none)

  abbrev pub AllMarked : List Connector → Assoc ℕ → Type 0
  AllMarked conns need = (id : String) (i : ℕ) → lookup id need ≡ some i → Marked conns id i

  abbrev pub WellMarked : Server → Type 0
  WellMarked s = AllMarked s.connectors s.need_reconnect

  Marked-set_self :
      (conns : List Connector) (i j : ℕ) (conn new : Connector) (id : String)
      → i ≡ j
      → get_elem? conns i ≡ some conn
      → connector_id new ≡ id
      → new.subscription ≡ none
      → Marked (set conns i new) id j
  Marked-set_self conns i j conn new id p at ci sn = (
    new,
    ap (get_elem? (set conns i new)) (sym p) ∙ get_elem?-set_self conns i conn new at,
    ci,
    sn,
  )

  -- What an entry can be after one was written.
  lookup-insert_cases :
      (k id : String) (i j : ℕ) (m : Assoc ℕ)
      → lookup id (insert k i m) ≡ some j
      → ((k ≡ id) × (i ≡ j)) ⊎ (((k == id) ≡ false) × (lookup id m ≡ some j))
  lookup-insert_cases k id i j m h = elim (Bool-cases (k == id)) [
    | inl e ↦ inl ((eq_iff k id).0 e, ground (arith, lookup-insert k id i m))
    | inr e ↦ inr (e, ground (arith, lookup-insert k id i m))
  ]

  pub lookup-delete_cases :
      (k id : String) (j : ℕ) (m : Assoc ℕ)
      → lookup id (delete k m) ≡ some j
      → ((k == id) ≡ false) × (lookup id m ≡ some j)
  lookup-delete_cases k id j m h = ground (arith, lookup-delete k id m)

  pub same_elem : {c d : Connector} → ◌≡◌ {A = Option Connector} (some c) (some d) → c ≡ d
  same_elem h = ground arith

  -- A write at another connector's place changes no entry of this id.
  Marked-set :
      (conns : List Connector) (i j : ℕ) (conn new : Connector) (id : String)
      → get_elem? conns i ≡ some conn
      → (connector_id conn == id) ≡ false
      → Marked conns id j
      → Marked (set conns i new) id j
  Marked-set conns i j conn new id at ne (c, e, ci, sn) = elim (ℕ_discrete i j) [
    | yes p ↦ absurd (
        ne_of_test (connector_id conn) id ne (
          ap (λ (d : Connector). connector_id d) (same_elem (sym at ∙ (ap (get_elem? conns) p ∙ e)))
          ∙ ci))
    | no p ↦ (c, get_elem?-set_ne conns i j new p ∙ e, ci, sn)
  ]

  pub mark_broken-WellMarked :
      (s : Server) (i : ℕ) (conn : Connector)
      → get_elem? s.connectors i ≡ some conn
      → WellMarked s
      → WellMarked (mark_broken s i conn)
  unfolding mark_broken
  mark_broken-WellMarked s i conn at w id j h =
      elim (lookup-insert_cases (connector_id conn) id i j s.need_reconnect h) [
        | inl (e, p) ↦
            let stopped = shutdown-Stopped conn in
            Marked-set_self s.connectors i j conn (Methods.shutdown conn).0 id p at
              (stopped.same.id ∙ e) stopped.unsubscribed
        | inr (e, old) ↦
            Marked-set s.connectors i j conn (Methods.shutdown conn).0 id at e (w id j old)
      ]

  module _ (s : Server) (i : ℕ) where
    pub connector_error_off : s.running ≡ false → connector_error s i ≡ done s
    unfolding connector_error
    connector_error_off r = ground arith

    connector_error_held :
        s.running ≡ true → s.connector_locked ≡ true → connector_error s i ≡ blocks
    unfolding connector_error
    connector_error_held r l = ground arith

    module _ (r : s.running ≡ true) (l : s.connector_locked ≡ false) where
      connector_error_dangling : get_elem? s.connectors i ≡ none → connector_error s i ≡ panics
      unfolding connector_error
      connector_error_dangling e = ground arith

      pub connector_error_known :
          (conn : Connector)
          → get_elem? s.connectors i ≡ some conn
          → contains (connector_id conn) s.need_reconnect ≡ true
          → connector_error s i ≡ done (unlock_connectors s)
      unfolding connector_error
      connector_error_known conn e c = ground arith

      connector_error_new :
          (conn : Connector)
          → get_elem? s.connectors i ≡ some conn
          → contains (connector_id conn) s.need_reconnect ≡ false
          → connector_error s i ≡ done (unlock_connectors (mark_broken s i conn))
      unfolding connector_error
      connector_error_new conn e c = ground arith

  -- The ways that ConnectorError can go.
  pub connector_error_cases {ℓ} :
      (P : Outcome Server → Type ℓ) (s : Server) (i : ℕ)
      → (s.running ≡ false → P (done s))
      → (s.running ≡ true → s.connector_locked ≡ true → P blocks)
      → (s.running ≡ true → get_elem? s.connectors i ≡ none → P panics)
      → ((conn : Connector)
          → s.running ≡ true
          → get_elem? s.connectors i ≡ some conn
          → contains (connector_id conn) s.need_reconnect ≡ true
          → P (done (unlock_connectors s)))
      → ((conn : Connector)
          → s.running ≡ true
          → get_elem? s.connectors i ≡ some conn
          → contains (connector_id conn) s.need_reconnect ≡ false
          → P (done (unlock_connectors (mark_broken s i conn))))
      → P (connector_error s i)
  connector_error_cases P s i off held dangling known new = elim (Bool-cases s.running) [
    | inr r ↦ subst P (sym (connector_error_off s i r)) (off r)
    | inl r ↦ elim (Bool-cases s.connector_locked) [
      | inl l ↦ subst P (sym (connector_error_held s i r l)) (held r l)
      | inr l ↦ elim (Option-cases (get_elem? s.connectors i)) [
        | inl e ↦ subst P (sym (connector_error_dangling s i r l e)) (dangling r e)
        | inr (conn, e) ↦ elim (Bool-cases (contains (connector_id conn) s.need_reconnect)) [
          | inl c ↦ subst P (sym (connector_error_known s i r l conn e c)) (known conn r e c)
          | inr c ↦ subst P (sym (connector_error_new s i r l conn e c)) (new conn r e c)
        ]
      ]
    ]
  ]
