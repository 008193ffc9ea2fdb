-- ===== src/Server/Tidy.antt =====
-- The entries of the map `needReconnect` of server/core/server.go, and the connectors they stand for.
use native.Mathlib.Decide.{ℕ_discrete}
use nats_replicator.Prelude.{
  ℕ, suc, ◌+◌, String, ◌==◌, ◌≡◌, refl, sym, ap, subst, ◌∙◌, inl, inr, false, none, some, List, [],
  ◌∷◌, All, arith, get_elem?, set, get_elem?-set_self, get_elem?-set_ne, Bool-cases,
}
use nats_replicator.Prelude.Assoc.{Assoc, insert, delete}
use nats_replicator.Float.{Float}
use nats_replicator.Client.{Client}
use nats_replicator.Connector.{Connector, connector_id}
use nats_replicator.Connector.Methods
use nats_replicator.Connector.Lifecycle.{shutdown-Stopped}
use nats_replicator.State.{Server}
use nats_replicator.Server.{mark_broken, check_one, check_loop}
use nats_replicator.Server.Marks.{Marked, same_elem}
use nats_replicator.Server.Errors.{mark_broken_ne, mark_broken-Marks}
use nats_replicator.Server.Checks.{check_one_cases}

module _ ⦃fl : Float⦄ where
  -- Every entry, and not only the one that is found under its id.
  abbrev pub IsTidy : Server → Type 0
  IsTidy s = All (λ (e : String × ℕ). Marked s.connectors e.0 e.1) s.need_reconnect

  -- A connector in place of another of that id, without a subscription where that one had none.
  Marked-replaced :
      (conns : List Connector) (i j : ℕ) (conn new : Connector) (id : String)
      → get_elem? conns i ≡ some conn
      → connector_id new ≡ connector_id conn
      → (conn.subscription ≡ none → new.subscription ≡ none)
      → Marked conns id j
      → Marked (set conns i new) id j
  Marked-replaced conns i j conn new id at same keeps (c, e, ci, sn) = elim (ℕ_discrete i j) [
    | yes p ↦
        let it : c ≡ conn = same_elem (sym e ∙ (ap (get_elem? conns) (sym p) ∙ at)) in
        (
          new,
          ap (get_elem? (set conns i new)) (sym p) ∙ get_elem?-set_self conns i conn new at,
          same ∙ (ap (λ (d : Connector). connector_id d) (sym it) ∙ ci),
          keeps (ap (λ (d : Connector). d.subscription) (sym it) ∙ sn),
        )
    | no p ↦ (c, get_elem?-set_ne conns i j new p ∙ e, ci, sn)
  ]

  pub All-replaced :
      (conns : List Connector) (i : ℕ) (conn new : Connector) (m : Assoc ℕ)
      → get_elem? conns i ≡ some conn
      → connector_id new ≡ connector_id conn
      → (conn.subscription ≡ none → new.subscription ≡ none)
      → All (λ (e : String × ℕ). Marked conns e.0 e.1) m
      → All (λ (e : String × ℕ). Marked (set conns i new) e.0 e.1) m
  All-replaced conns i conn new [] at same keeps a = tt
  All-replaced conns i conn new ((id, j) ∷ m) at same keeps (h, a) = (
    Marked-replaced conns i j conn new id at same keeps h,
    All-replaced conns i conn new m at same keeps a,
  )

  All-insert {ℓ} :
      (P : String × ℕ → Type ℓ) (k : String) (v : ℕ) (m : Assoc ℕ)
      → P (k, v)
      → All P m
      → All P (insert k v m)
  unfolding insert
  All-insert P k v [] h a = (h, tt)
  All-insert P k v ((j, w) ∷ m) h (b, a) = elim (Bool-cases (j == k)) [
    | inl e ↦ rw e (h, a)
    | inr e ↦ rw e (b, All-insert P k v m h a)
  ]

  pub All-delete {ℓ} :
      (P Q : String × ℕ → Type ℓ) (k : String) (m : Assoc ℕ)
      → ((id : String) (j : ℕ) → (id == k) ≡ false → P (id, j) → Q (id, j))
      → All P m
      → All Q (delete k m)
  unfolding delete
  All-delete P Q k [] f a = tt
  All-delete P Q k ((j, w) ∷ m) f (b, a) = elim (Bool-cases (j == k)) [
    | inl e ↦ rw e (All-delete P Q k m f a)
    | inr e ↦ rw e (f j w e b, All-delete P Q k m f a)
  ]

  pub mark_broken-IsTidy :
      (s : Server) (i : ℕ) (conn : Connector)
      → get_elem? s.connectors i ≡ some conn
      → IsTidy s
      → IsTidy (mark_broken s i conn)
  unfolding mark_broken
  mark_broken-IsTidy s i conn at a =
      let stopped = shutdown-Stopped conn in
      let new = (Methods.shutdown conn).0 in
      All-insert (λ (e : String × ℕ). Marked (set s.connectors i new) e.0 e.1) (connector_id conn) i
        s.need_reconnect
        (new, get_elem?-set_self s.connectors i conn new at, stopped.same.id, stopped.unsubscribed)
        (All-replaced s.connectors i conn new s.need_reconnect at stopped.same.id
          (λ _. stopped.unsubscribed) a)

  -- The places of the loop of checkConnections from i on hold the connectors that are left.
  abbrev pub Ahead : Server → ℕ → List Connector → Type 0
  Ahead s i rest = (k : ℕ) → get_elem? s.connectors (i + k) ≡ get_elem? rest k

  Ahead-here :
      (s : Server) (i : ℕ) (conn : Connector) (rest : List Connector)
      → Ahead s i (conn ∷ rest)
      → get_elem? s.connectors i ≡ some conn
  Ahead-here s i conn rest h =
      let p : i + 0 ≡ i = omega arith in subst (λ n. get_elem? s.connectors n ≡ some conn) p (h 0)

  Ahead-later :
      (s : Server) (i : ℕ) (conn : Connector) (rest : List Connector)
      → Ahead s i (conn ∷ rest)
      → Ahead s (suc i) rest
  Ahead-later s i conn rest h k =
      let p : i + suc k ≡ suc i + k = omega arith in
      subst (λ n. get_elem? s.connectors n ≡ get_elem? rest k) p (h (suc k))

  -- The state before the next round of the loop.
  abbrev Round : Server → Server → ℕ → List Connector → Type 0
  Round s t i rest = Ahead t i rest × IsTidy t × (t.running ≡ s.running)

  check_one-Round :
      (client : Client) (s : Server) (i : ℕ) (conn : Connector) (rest : List Connector)
      → Ahead s i (conn ∷ rest)
      → IsTidy s
      → Round s (check_one client s i conn) (suc i) rest
  check_one-Round client s i conn rest h a =
      let here = Ahead-here s i conn rest h in
      check_one_cases client s i conn (λ (t : Server). Round s t (suc i) rest)
        (λ _. (Ahead-later s i conn rest h, a, refl))
        (
          λ k.
              mark_broken_ne s i (suc i + k) conn (λ q. absurd (omega arith))
              ∙ Ahead-later s i conn rest h k,
          mark_broken-IsTidy s i conn here a,
          (mark_broken-Marks s i conn).running,
        )

  pub check_loop-IsTidy :
      (client : Client) (s : Server) (i : ℕ) (rest : List Connector)
      → Ahead s i rest
      → IsTidy s
      → IsTidy (check_loop client s i rest) × ((check_loop client s i rest).running ≡ s.running)
  unfolding check_loop
  check_loop-IsTidy client s i [] h a = (a, refl)
  check_loop-IsTidy client s i (conn ∷ rest) h a =
      let (ahead, tidy, same) = check_one-Round client s i conn rest h a in
      let (all, run) =
        check_loop-IsTidy client (check_one client s i conn) (suc i) rest ahead tidy in
      (all, run ∙ same)

  -- A connector of that id stands at the place.
  abbrev pub Placed : List Connector → String → ℕ → Type 0
  Placed conns id i =
      (conn : Connector) × (get_elem? conns i ≡ some conn) × (connector_id conn ≡ id)

  abbrev pub AllPlaced : List Connector → Assoc ℕ → Type 0
  AllPlaced conns m = All (λ (e : String × ℕ). Placed conns e.0 e.1) m

  pub AllPlaced-set :
      (conns : List Connector) (i : ℕ) (conn new : Connector) (m : Assoc ℕ)
      → get_elem? conns i ≡ some conn
      → connector_id new ≡ connector_id conn
      → AllPlaced conns m
      → AllPlaced (set conns i new) m
  AllPlaced-set conns i conn new [] at same a = tt
  AllPlaced-set conns i conn new ((id, j) ∷ m) at same ((c, e, ci), a) = (
    elim (ℕ_discrete i j) [
      | yes p ↦
          let it : c ≡ conn = same_elem (sym e ∙ (ap (get_elem? conns) (sym p) ∙ at)) in
          (
            new,
            ap (get_elem? (set conns i new)) (sym p) ∙ get_elem?-set_self conns i conn new at,
            same ∙ (ap (λ (d : Connector). connector_id d) (sym it) ∙ ci),
          )
      | no p ↦ (c, get_elem?-set_ne conns i j new p ∙ e, ci)
    ],
    AllPlaced-set conns i conn new m at same a,
  )

  pub IsTidy-AllPlaced : (s : Server) → IsTidy s → AllPlaced s.connectors s.need_reconnect
  IsTidy-AllPlaced s a = go s.need_reconnect a
    where
      go :
          (m : Assoc ℕ)
          → All (λ (e : String × ℕ). Marked s.connectors e.0 e.1) m
          → AllPlaced s.connectors m
      go [] a = tt
      go ((id, i) ∷ m) ((c, e, ci, sn), a) = ((c, e, ci), go m a)
