-- ===== src/Server/Twins.antt =====
-- ConnectorError of server/core/server.go for connectors that have the same id.
use native.Mathlib.Decide.{ℕ_discrete}
use nats_replicator.Prelude.{
  ℕ, ◌≡◌, refl, sym, ap, subst, ◌∙◌, ◌⊎◌, inl, inr, true, false, some, arith, get_elem?, Bool-cases,
  eq_iff,
}
use nats_replicator.Prelude.Assoc.{contains}
use nats_replicator.Prelude.Outcome.{done, done-injective}
use nats_replicator.Float.{Float}
use nats_replicator.Connector.{Connector, connector_id}
use nats_replicator.State.{Server}
use nats_replicator.Server.{unlock_connectors, connector_error}
use nats_replicator.Server.Errors.{connector_error_twice, mark_broken_ne, mark_broken-Marks}
use nats_replicator.Server.Marks.{connector_error_known}
use nats_replicator.Server.Waiting.{marked, connector_error_ends, marked-contains}

module _ ⦃fl : Float⦄ where
  module _ (s : Server) (i : ℕ) (conn : Connector) where
    marked-running : (marked s i conn).running ≡ s.running
    marked-running = elim (Bool-cases (contains (connector_id conn) s.need_reconnect)) [
      | inl k ↦ rw k refl
      | inr k ↦ rw k (mark_broken-Marks s i conn).running
    ]

    marked_ne :
        (j : ℕ) → ¬ (i ≡ j) → get_elem? (marked s i conn).connectors j ≡ get_elem? s.connectors j
    marked_ne j p = elim (Bool-cases (contains (connector_id conn) s.need_reconnect)) [
      | inl k ↦ rw k refl
      | inr k ↦ rw k (mark_broken_ne s i j conn p)
    ]

    marked-known : contains (connector_id conn) (marked s i conn).need_reconnect ≡ true
    marked-known =
        marked-contains s i conn (connector_id conn)
        ∙ ground (arith, eq_iff (connector_id conn) (connector_id conn))

  -- On a running server whose lock is free: when ConnectorError for a connector has ended, a
  -- second one, for it or for another connector with its id, changes nothing; so another
  -- connector with that id stays as it was.
  pub connector_error_same_id :
      (s s' : Server) (i j : ℕ) (conn twin : Connector)
      → s.running ≡ true
      → s.connector_locked ≡ false
      → get_elem? s.connectors i ≡ some conn
      → get_elem? s.connectors j ≡ some twin
      → connector_id twin ≡ connector_id conn
      → connector_error s i ≡ done s'
      → (connector_error s' j ≡ done s') × ((i ≡ j) ⊎ (get_elem? s'.connectors j ≡ some twin))
  connector_error_same_id s s' i j conn twin r l at at' same h = elim (ℕ_discrete i j) [
    | yes p ↦ (
      subst (λ n. connector_error s' n ≡ done s') p (connector_error_twice s s' i conn l r at h),
      inl p,
    )
    | no p ↦
        let e = done-injective (sym (connector_error_ends s i conn r l at) ∙ h) in
        let here = marked_ne s i conn j p ∙ at' in
        (
          subst (λ t. connector_error t j ≡ done t) e
              (connector_error_known (unlock_connectors (marked s i conn)) j
                (marked-running s i conn ∙ r) refl twin here
                (ap (λ id. contains id (marked s i conn).need_reconnect) same
                  ∙ marked-known s i conn)),
          inr (subst (λ (t : Server). get_elem? t.connectors j ≡ some twin) e here),
        )
  ]
