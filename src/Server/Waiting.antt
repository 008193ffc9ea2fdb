-- ===== src/Server/Waiting.antt =====
-- What checkConnections of server/core/server.go does to the map of restarts, exactly.
use mathlib.Core.Path.{ap₂, fun_ext}
use mathlib.Core.Bool.{or_assoc}
use nats_replicator.Prelude.{
  ℕ, suc, String, ◌==◌, eq_iff, ◌≡◌, ap, ◌∙◌, Bool, true, false, ◌&&◌, ◌||◌, none, some, List, [],
  ◌∷◌, arith, get_elem?, if◌then◌else◌,
}
use nats_replicator.Prelude.Assoc.{Assoc, insert, contains, lookup-insert}
use nats_replicator.Prelude.Outcome.{done}
use nats_replicator.Float.{Float}
use nats_replicator.Client.{Client}
use nats_replicator.Nats.{Connections}
use nats_replicator.Connector.{Connector, connector_id}
use nats_replicator.Connector.Methods
use nats_replicator.State.{Server}
use nats_replicator.Server.{
  unlock_connectors, mark_broken, check_one, check_loop, check_connections, connector_error,
}
use nats_replicator.Server.Checks.{check_connections_on}

contains-insert :
    {V : Type 0} (k j : String) (v : V) (m : Assoc V)
    → contains j (insert k v m) ≡ (k == j || contains j m)
unfolding contains
contains-insert k j v m = ground (arith, lookup-insert k j v m)

module _ ⦃fl : Float⦄ where
  -- CheckConnections has an error.
  abbrev pub is_broken : Client → Connections → Connector → Bool
  is_broken client cs conn = elim (Methods.check_connections client cs conn) [
    | none ↦ false
    | some e ↦ true
  ]

  -- Some connector with that id is broken.
  abbrev pub broken : Client → Connections → List Connector → String → Bool
  broken client cs [] id = false
  broken client cs (conn ∷ rest) id =
      (connector_id conn == id && is_broken client cs conn) || broken client cs rest id

  check_one-contains :
      (client : Client) (s : Server) (i : ℕ) (conn : Connector) (id : String)
      → contains id (check_one client s i conn).need_reconnect ≡ (
          contains id s.need_reconnect
          || (connector_id conn == id && is_broken client s.connections conn))
  unfolding check_one mark_broken
  check_one-contains client s i conn id = ground (
    arith,
    contains-insert (connector_id conn) id i s.need_reconnect,
    eq_iff (connector_id conn) id,
    ap (λ k. contains k s.need_reconnect),
  )

  check_one-connections :
      (client : Client) (s : Server) (i : ℕ) (conn : Connector)
      → (check_one client s i conn).connections ≡ s.connections
  unfolding check_one mark_broken
  check_one-connections client s i conn = ground arith

  check_loop-contains :
      (client : Client) (s : Server) (i : ℕ) (rest : List Connector) (id : String)
      → contains id (check_loop client s i rest).need_reconnect
        ≡ (contains id s.need_reconnect || broken client s.connections rest id)
  unfolding check_loop
  check_loop-contains client s i [] id = ground arith
  check_loop-contains client s i (conn ∷ rest) id =
      let s' = check_one client s i conn in
      check_loop-contains client s' (suc i) rest id
      ∙ ap₂ (λ (b : Bool) (cs : Connections). b || broken client cs rest id)
          (check_one-contains client s i conn id) (check_one-connections client s i conn)
      ∙ or_assoc (contains id s.need_reconnect)
          (connector_id conn == id && is_broken client s.connections conn)
          (broken client s.connections rest id)

  -- The specification: the set of the ids that wait for a restart.
  abbrev pub Waiting : Type 0
  Waiting = String → Bool

  abbrev pub waiting : Server → Waiting
  waiting s id = contains id s.need_reconnect

  abbrev pub union : Waiting → Waiting → Waiting
  union w v id = w id || v id

  abbrev pub only : String → Waiting
  only id other = id == other

  abbrev pub marked : Server → ℕ → Connector → Server
  marked s i conn =
      if contains (connector_id conn) s.need_reconnect then s else mark_broken s i conn

  pub connector_error_ends :
      (s : Server) (i : ℕ) (conn : Connector)
      → s.running ≡ true
      → s.connector_locked ≡ false
      → get_elem? s.connectors i ≡ some conn
      → connector_error s i ≡ done (unlock_connectors (marked s i conn))
  unfolding connector_error
  connector_error_ends s i conn r l at = ground arith

  pub marked-contains :
      (s : Server) (i : ℕ) (conn : Connector) (id : String)
      → contains id (marked s i conn).need_reconnect
        ≡ (contains id s.need_reconnect || connector_id conn == id)
  unfolding mark_broken
  marked-contains s i conn id = ground (
    arith,
    contains-insert (connector_id conn) id i s.need_reconnect,
    eq_iff (connector_id conn) id,
    ap (λ k. contains k s.need_reconnect),
  )

  connector_error-waiting :
      (s : Server) (i : ℕ) (conn : Connector)
      → s.running ≡ true
      → s.connector_locked ≡ false
      → get_elem? s.connectors i ≡ some conn
      → (s' : Server) × (connector_error s i ≡ done s')
        × ((id : String) → waiting s' id ≡ union (waiting s) (only (connector_id conn)) id)
  connector_error-waiting s i conn r l at = (
    unlock_connectors (marked s i conn),
    connector_error_ends s i conn r l at,
    marked-contains s i conn,
  )

  -- On a running server whose lock is free, the set of the ids that wait for a restart changes
  -- exactly so: ConnectorError for a connector in the list ends and adds its id; checkConnections
  -- ends and adds the ids of those connectors whose CheckConnections has an error.
  pub handlers-refine :
      (client : Client) (s : Server) (i : ℕ) (conn : Connector)
      → s.running ≡ true
      → s.connector_locked ≡ false
      → get_elem? s.connectors i ≡ some conn
      → ((s' : Server) × (connector_error s i ≡ done s')
          × (waiting s' ≡ union (waiting s) (only (connector_id conn))))
        × ((t : Server) × (check_connections client s ≡ done t)
            × (waiting t ≡ union (waiting s) (broken client s.connections s.connectors)))
  handlers-refine client s i conn r l at =
      let (s', e, h) = connector_error-waiting s i conn r l at in
      (
        (s', e, fun_ext h),
        (
          unlock_connectors
              (check_loop client (record s { connector_locked = true }) 0 s.connectors),
          check_connections_on client s r l,
          fun_ext
              (check_loop-contains client (record s { connector_locked = true }) 0 s.connectors),
        ),
      )
