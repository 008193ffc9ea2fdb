-- ===== src/Server/Checks.antt =====
-- checkConnections of server/core/server.go.
use nats_replicator.Prelude.{
  String, ℕ, suc, ◌+◌, ◌-◌, ◌<◌, ◌≡◌, refl, sym, ap, subst, ◌∙◌, ◌⊎◌, inl, inr, true, false, Option,
  none, some, List, [], ◌∷◌, arith, get_elem?, Bool-cases, Option-cases,
}
use Prim.Native.Nat.add
use native.Mathlib.Decide.{ℕ_discrete, dec_lt}
use nats_replicator.Prelude.Assoc.{Assoc, contains, lookup}
use nats_replicator.Prelude.Outcome.{done}
use nats_replicator.Float.{Float}
use nats_replicator.Result.{Error}
use nats_replicator.Client.{Client}
use nats_replicator.Connector.{Connector, connector_id}
use nats_replicator.Connector.Methods
use nats_replicator.Connector.Lifecycle.{shutdown-Stopped}
use nats_replicator.State.{Server}
use nats_replicator.Server.{
  unlock_connectors, mark_broken, check_one, check_loop, check_connections,
}
use nats_replicator.Server.Errors.{Sound, Waits, mark_broken-Marks, mark_broken_at, mark_broken_ne}
use nats_replicator.Server.Marks.{WellMarked, same_elem, mark_broken-WellMarked}

module _ ⦃fl : Float⦄ where
  -- The connections of the connector are up, or it is kept for a restart.
  abbrev pub IsSettled : Client → Server → Connector → Type 0
  IsSettled client s conn =
      (Methods.check_connections client s.connections conn ≡ none) ⊎ Waits s conn

  module _ (client : Client) (s : Server) (i : ℕ) (conn : Connector) where
    check_one_waiting : Waits s conn → check_one client s i conn ≡ s
    unfolding check_one
    check_one_waiting h = ground arith

    check_one_up :
        Methods.check_connections client s.connections conn ≡ none → check_one client s i conn ≡ s
    unfolding check_one
    check_one_up h = ground arith

    check_one_broken :
        (e : Error)
        → contains (connector_id conn) s.need_reconnect ≡ false
        → Methods.check_connections client s.connections conn ≡ some e
        → check_one client s i conn ≡ mark_broken s i conn
    unfolding check_one
    check_one_broken e h c = ground arith

    pub check_one_cases {ℓ} :
        (P : Server → Type ℓ)
        → (IsSettled client s conn → P s)
        → P (mark_broken s i conn)
        → P (check_one client s i conn)
    check_one_cases P keep mark =
        elim (Bool-cases (contains (connector_id conn) s.need_reconnect)) [
          | inl w ↦ subst P (sym (check_one_waiting w)) (keep (inr w))
          | inr w ↦ elim (Option-cases (Methods.check_connections client s.connections conn)) [
            | inl c ↦ subst P (sym (check_one_up c)) (keep (inl c))
            | inr (e, c) ↦ subst P (sym (check_one_broken e w c)) mark
          ]
        ]

  -- The state of the loop before the round of place i, begun at a server with `running`, `cs` and
  -- `locked`: the connectors before i are settled, and those from i on are `rest`.
  record Before (client : Client) (o s : Server) (i : ℕ) (rest : List Connector) : Type 0 where
    marked : WellMarked s
    settled :
        (j : ℕ) (conn : Connector)
        → j < i
        → get_elem? s.connectors j ≡ some conn
        → IsSettled client s conn
    ahead : (k : ℕ) → get_elem? s.connectors (i + k) ≡ get_elem? rest k
    running : s.running ≡ o.running
    connections : s.connections ≡ o.connections
    locked : s.connector_locked ≡ o.connector_locked
    named :
        (j : ℕ) (c : Connector)
        → get_elem? s.connectors j ≡ some c
        → (d : Connector) × (get_elem? o.connectors j ≡ some d) × (connector_id c ≡ connector_id d)

  module _ (client : Client) (o s : Server) (i : ℕ) (conn : Connector) (rest : List Connector)
      (b : Before client o s i (conn ∷ rest)) where
    here : get_elem? s.connectors i ≡ some conn
    here =
        let p : i + 0 ≡ i = omega arith in
        subst (λ n. get_elem? s.connectors n ≡ some conn) p (b.ahead 0)

    later : (k : ℕ) → get_elem? s.connectors (suc i + k) ≡ get_elem? rest k
    later k =
        let p : i + suc k ≡ suc i + k = omega arith in
        subst (λ n. get_elem? s.connectors n ≡ get_elem? rest k) p (b.ahead (suc k))

    Before-kept : IsSettled client s conn → Before client o s (suc i) rest
    Before-kept h = record {
      marked = b.marked;
      settled = λ j c lt e. elim (ℕ_discrete j i) [
        | yes p ↦
            subst (IsSettled client s)
              (same_elem (sym here ∙ (ap (get_elem? s.connectors) (sym p) ∙ e))) h
        | no p ↦ b.settled j c (omega arith) e
      ];
      ahead = later;
      running = b.running;
      connections = b.connections;
      locked = b.locked;
      named = b.named;
    }

    IsSettled-after :
        (c : Connector) → IsSettled client s c → IsSettled client (mark_broken s i conn) c
    IsSettled-after c (inl up) = inl (
        subst (λ cs. Methods.check_connections client cs c ≡ none)
          (sym (mark_broken-Marks s i conn).connections) up)
    IsSettled-after c (inr w) = inr ((mark_broken-Marks s i conn).keeps (connector_id c) w)

    shut-IsSettled : IsSettled client (mark_broken s i conn) (Methods.shutdown conn).0
    shut-IsSettled = inr (
        subst (λ id. contains id (mark_broken s i conn).need_reconnect ≡ true)
          (sym (shutdown-Stopped conn).same.id) (mark_broken-Marks s i conn).known)

    Before-marked : Before client o (mark_broken s i conn) (suc i) rest
    Before-marked =
        let m = mark_broken-Marks s i conn in
        record {
          marked = mark_broken-WellMarked s i conn here b.marked;
          settled = λ j c lt e. elim (ℕ_discrete j i) [
            | yes p ↦
                subst (IsSettled client (mark_broken s i conn))
                  (same_elem (
                    sym (mark_broken_at s i conn here)
                    ∙ (ap (get_elem? (mark_broken s i conn).connectors) (sym p) ∙ e)))
                  shut-IsSettled
            | no p ↦
                IsSettled-after c (
                  b.settled j c (omega arith)
                    (sym (mark_broken_ne s i j conn (λ q. p (sym q))) ∙ e))
          ];
          ahead = λ k. mark_broken_ne s i (suc i + k) conn (λ q. absurd (omega arith)) ∙ later k;
          running = m.running ∙ b.running;
          connections = m.connections ∙ b.connections;
          locked = m.locked ∙ b.locked;
          named = λ j c e. elim (ℕ_discrete i j) [
            | yes p ↦
                let (d, f, same) = b.named i conn here in
                let it : c ≡ (Methods.shutdown conn).0 = same_elem (
                  sym e
                  ∙ (ap (get_elem? (mark_broken s i conn).connectors) (sym p)
                      ∙ mark_broken_at s i conn here)) in
                (
                  d,
                  ap (get_elem? o.connectors) (sym p) ∙ f,
                  ap (λ (x : Connector). connector_id x) it
                      ∙ ((shutdown-Stopped conn).same.id ∙ same),
                )
            | no p ↦ b.named j c (sym (mark_broken_ne s i j conn p) ∙ e)
          ];
        }

  check_loop-Before :
      (client : Client) (o s : Server) (i : ℕ) (rest : List Connector)
      → Before client o s i rest
      → (n : ℕ) × Before client o (check_loop client s i rest) n []
  unfolding check_loop
  check_loop-Before client o s i [] b = (i, b)
  check_loop-Before client o s i (conn ∷ rest) b =
      check_loop-Before client o (check_one client s i conn) (suc i) rest (
        check_one_cases client s i conn (λ (t : Server). Before client o t (suc i) rest)
          (Before-kept client o s i conn rest b) (Before-marked client o s i conn rest b))

  -- Behind the last place there is no connector, so that all are settled.
  all-IsSettled :
      (client : Client) (o s : Server) (n : ℕ)
      → Before client o s n []
      → (j : ℕ) (conn : Connector) → get_elem? s.connectors j ≡ some conn
      → IsSettled client s conn
  all-IsSettled client o s n b j conn e = elim (dec_lt j n) [
    | yes lt ↦ b.settled j conn lt e
    | no ge ↦
        let p : n + (j - n) ≡ j = omega arith in
        let q : ◌≡◌ {A = Option Connector} none (some conn) =
          sym (b.ahead (j - n)) ∙ (ap (get_elem? s.connectors) p ∙ e) in
        cc
  ]

  pub check_connections_on :
      (client : Client) (s : Server)
      → s.running ≡ true
      → s.connector_locked ≡ false
      → check_connections client s
        ≡ done (
            unlock_connectors
              (check_loop client (record s { connector_locked = true }) 0 s.connectors))
  unfolding check_connections
  check_connections_on client s r l = ground arith

  -- No two connectors have the same id.
  abbrev pub DistinctIds : List Connector → Type 0
  DistinctIds conns =
      (i j : ℕ) (c d : Connector)
      → get_elem? conns i ≡ some c
      → get_elem? conns j ≡ some d
      → connector_id c ≡ connector_id d
      → i ≡ j

  -- The connections of the connector at place j are up; or the map of restarts has its place under
  -- its id, and it has no subscription.
  abbrev pub IsCared : Client → Server → ℕ → Connector → Type 0
  IsCared client s j conn =
      (Methods.check_connections client s.connections conn ≡ none)
      ⊎ ((lookup (connector_id conn) s.need_reconnect ≡ some j) × (conn.subscription ≡ none))

  lookup_of_contains :
      (id : String) (m : Assoc ℕ) → contains id m ≡ true → (i : ℕ) × (lookup id m ≡ some i)
  unfolding contains
  lookup_of_contains id m h = elim (Option-cases (lookup id m)) [
    | inl e ↦ absurd (ground arith)
    | inr (i, e) ↦ (i, e)
  ]

  own_entry :
      (client : Client) (o s : Server) (n : ℕ)
      → Before client o s n []
      → DistinctIds o.connectors
      → (j : ℕ) (conn : Connector) → get_elem? s.connectors j ≡ some conn
      → IsSettled client s conn
      → IsCared client s j conn
  own_entry client o s n b apart j conn e (inl up) = inl up
  own_entry client o s n b apart j conn e (inr w) =
      let (i, at) = lookup_of_contains (connector_id conn) s.need_reconnect w in
      let (c, f, same, off) = b.marked (connector_id conn) i at in
      let (d, g, p) = b.named j conn e in
      let (d', g', p') = b.named i c f in
      let here : i ≡ j = apart i j d' d g' g (sym p' ∙ (same ∙ p)) in
      let it : c ≡ conn = same_elem (sym f ∙ (ap (get_elem? s.connectors) here ∙ e)) in
      inr (
        subst (λ k. lookup (connector_id conn) s.need_reconnect ≡ some k) here at,
        subst (λ (x : Connector). x.subscription ≡ none) it off,
      )

  -- P of each connector, with its place; the first has place n.
  abbrev pub EachAt : (ℕ → Connector → Type 0) → ℕ → List Connector → Type 0
  EachAt P n [] = Unit
  EachAt P n (conn ∷ rest) = P n conn × EachAt P (suc n) rest

  EachAt-of_elems :
      (P : ℕ → Connector → Type 0) (n : ℕ) (conns : List Connector)
      → ((j : ℕ) (conn : Connector) → get_elem? conns j ≡ some conn → P (n + j) conn)
      → EachAt P n conns
  EachAt-of_elems P n [] h = tt
  EachAt-of_elems P n (conn ∷ rest) h =
      let first : n + 0 ≡ n = omega arith in
      (
        subst (λ k. P k conn) first (h 0 conn refl),
        EachAt-of_elems P (suc n) rest (λ j c e.
            let later : n + suc j ≡ suc n + j = omega arith in
            subst (λ k. P k c) later (h (suc j) c e)),
      )

  -- checkConnections on a running, sound server whose connectors have different ids: it ends,
  -- with the lock free and the map of restarts sound, and each connector has its connections, or
  -- the map has its own place under its id and it has no subscription.
  pub check_connections_lem :
      (client : Client) (s : Server)
      → Sound s
      → DistinctIds s.connectors
      → s.running ≡ true
      → (s' : Server) × (check_connections client s ≡ done s')
        × Sound s'
        × EachAt (IsCared client s') 0 s'.connectors
  check_connections_lem client s v apart r =
      let t = record s { connector_locked = true } in
      let start : Before client t t 0 s.connectors = record {
        marked = v.marked;
        settled = λ j c lt e. absurd (omega arith);
        ahead = λ k. ap (get_elem? s.connectors) (add.zero k);
        running = refl;
        connections = refl;
        locked = refl;
        named = λ j c e. (c, e, refl);
      } in
      let (n, b) = check_loop-Before client t t 0 s.connectors start in
      let u = check_loop client t 0 s.connectors in
      (
        unlock_connectors u,
        check_connections_on client s r v.free,
        record { free = refl; marked = b.marked },
        EachAt-of_elems (IsCared client u) 0 u.connectors (λ j conn e.
            let here : j ≡ 0 + j = omega arith in
            subst (λ k. IsCared client u k conn) here
              (own_entry client t u n b apart j conn e (all-IsSettled client t u n b j conn e))),
      )
