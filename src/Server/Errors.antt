-- ===== src/Server/Errors.antt =====
-- ConnectorError of server/core/server.go.
use nats_replicator.Prelude.{
  ℕ, String, ◌≡◌, ◌≢◌, refl, sym, subst, ◌∙◌, true, false, some, get_elem?, get_elem?-set_self,
  get_elem?-set_ne,
}
use nats_replicator.Prelude.Assoc.{contains, contains-insert_self, contains-insert_keeps}
use nats_replicator.Prelude.Outcome.{Outcome, done, done-injective}
use nats_replicator.Float.{Float}
use nats_replicator.Connector.{Connector, connector_id}
use nats_replicator.Connector.Methods
use nats_replicator.Connector.Lifecycle.{shutdown-Stopped}
use nats_replicator.State.{Server}
use nats_replicator.Server.{unlock_connectors, mark_broken, connector_error}
use nats_replicator.Server.Marks.{
  WellMarked, same_elem, mark_broken-WellMarked, connector_error_cases, connector_error_known,
}

module _ ⦃fl : Float⦄ where
  -- Between two handlers: the lock is free, and the map of restarts is sound.
  pub record Sound (s : Server) : Type 0 where
    pub free : s.connector_locked ≡ false
    pub marked : WellMarked s

  -- What marking a connector leaves alone, and what it does to the map.
  pub record Marks (s : Server) (conn : Connector) (s' : Server) : Type 0 where
    pub known : contains (connector_id conn) s'.need_reconnect ≡ true
    pub keeps :
        (id : String) → contains id s.need_reconnect ≡ true → contains id s'.need_reconnect ≡ true
    pub running : s'.running ≡ s.running
    pub connections : s'.connections ≡ s.connections
    pub locked : s'.connector_locked ≡ s.connector_locked
    pub config : s'.config ≡ s.config

  pub mark_broken-Marks :
      (s : Server) (i : ℕ) (conn : Connector) → Marks s conn (mark_broken s i conn)
  unfolding mark_broken
  mark_broken-Marks s i conn = record {
    known = contains-insert_self (connector_id conn) i s.need_reconnect;
    keeps = λ id h. contains-insert_keeps (connector_id conn) id i s.need_reconnect h;
    running = refl;
    connections = refl;
    locked = refl;
    config = refl;
  }

  pub mark_broken_at :
      (s : Server) (i : ℕ) (conn : Connector)
      → get_elem? s.connectors i ≡ some conn
      → get_elem? (mark_broken s i conn).connectors i ≡ some (Methods.shutdown conn).0
  unfolding mark_broken
  mark_broken_at s i conn e = get_elem?-set_self s.connectors i conn (Methods.shutdown conn).0 e

  pub mark_broken_ne :
      (s : Server) (i j : ℕ) (conn : Connector)
      → i ≢ j
      → get_elem? (mark_broken s i conn).connectors j ≡ get_elem? s.connectors j
  unfolding mark_broken
  mark_broken_ne s i j conn ne = get_elem?-set_ne s.connectors i j (Methods.shutdown conn).0 ne

  -- The connector is kept for a restart.
  abbrev pub Waits : Server → Connector → Type 0
  Waits s conn = contains (connector_id conn) s.need_reconnect ≡ true

  -- ConnectorError on a running, sound server, for a connector of it: it ends, with the lock free
  -- and the map of restarts sound, and the failed connector waits for its restart.
  pub connector_error_lem :
      (s : Server) (i : ℕ) (conn : Connector)
      → Sound s
      → s.running ≡ true
      → get_elem? s.connectors i ≡ some conn
      → (s' : Server) × (connector_error s i ≡ done s')
        × Sound s'
        × (contains (connector_id conn) s'.need_reconnect ≡ true)
        × (s'.running ≡ true)
  connector_error_lem s i conn v r at =
      connector_error_cases
        (λ (o : Outcome Server).
          (s' : Server) × (o ≡ done s')
          × Sound s'
          × (contains (connector_id conn) s'.need_reconnect ≡ true)
          × (s'.running ≡ true))
        s i (λ off. cc) (λ _ l. cc (v.free)) (λ _ e. cc)
        (λ c _ e k. (
          unlock_connectors s,
          refl,
          record { free = refl; marked = v.marked },
          subst (Waits s) (same_elem (sym e ∙ at)) k,
          r,
        ))
        (λ c _ e k.
          let m = mark_broken-Marks s i c in
          let w = mark_broken-WellMarked s i c e v.marked in
          (
            unlock_connectors (mark_broken s i c),
            refl,
            record { free = refl; marked = w },
            subst (Waits (mark_broken s i c)) (same_elem (sym e ∙ at)) m.known,
            m.running ∙ r,
          ))

  -- On a running server whose lock is free: when ConnectorError has ended, a second one for the
  -- same connector changes nothing, so that it is not shut down again.
  pub connector_error_twice :
      (s s' : Server) (i : ℕ) (conn : Connector)
      → s.connector_locked ≡ false
      → s.running ≡ true
      → get_elem? s.connectors i ≡ some conn
      → connector_error s i ≡ done s'
      → connector_error s' i ≡ done s'
  connector_error_twice s s' i conn l r at h =
      connector_error_cases (λ (o : Outcome Server). o ≡ done s' → connector_error s' i ≡ done s') s
        i (λ off _. cc) (λ _ l' _. cc) (λ _ e _. cc)
        (λ c _ e k p.
          subst (λ t. connector_error t i ≡ done t) (done-injective p)
            (connector_error_known (unlock_connectors s) i r refl c e k))
        (λ c _ e k p.
          let t = unlock_connectors (mark_broken s i c) in
          let m = mark_broken-Marks s i c in
          subst (λ t. connector_error t i ≡ done t) (done-injective p)
            (connector_error_known t i (m.running ∙ r) refl (Methods.shutdown c).0
              (mark_broken_at s i c e)
              (subst (λ id. contains id t.need_reconnect ≡ true) (sym (shutdown-Stopped c).same.id)
                m.known)))
        h
