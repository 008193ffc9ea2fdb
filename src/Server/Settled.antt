-- ===== src/Server/Settled.antt =====
-- What a tick of server/core/server.go does to every connector, also when restarts fail.
use nats_replicator.Prelude.{
  ℕ, String, ◌==◌, ◌≡◌, refl, sym, ap, subst, ◌∙◌, ◌⊎◌, inl, inr, true, false, none, some, Option,
  List, [], ◌∷◌, arith, get_elem?, set, get_elem?-set_self, get_elem?-set_ne, Bool-cases,
  Option-cases, eq_iff,
}
use nats_replicator.Prelude.Assoc.{Assoc, lookup, lookup-delete}
use nats_replicator.Prelude.Outcome.{done}
use nats_replicator.Float.{Float}
use nats_replicator.Client.{Client}
use nats_replicator.Connector.{Connector, connector_id}
use nats_replicator.Connector.Methods
use nats_replicator.Connector.Lifecycle.{start-SameConnector, start-Started}
use nats_replicator.State.{Server}
use nats_replicator.Server.{unlock_connectors}
use nats_replicator.Server.Marks.{same_elem}
use nats_replicator.Server.Ticker.{restart_one, restart_loop}
use nats_replicator.Server.Recovery.{At, Subscribed, restarted, restart_one_ok, restart_loop_step}
use nats_replicator.Server.Restarts.{restart_one_refused, restart_loop_none}
use nats_replicator.Server.Keys.{Distinct, Distinct-delete}
use nats_replicator.Server.Tidy.{Placed, AllPlaced, AllPlaced-set}

pub found_cons :
    (k : String) (v : ℕ) (m : Assoc ℕ) (id : String) (i : ℕ)
    → lookup id ((k, v) ∷ m) ≡ some i
    → ((k ≡ id) × (v ≡ i)) ⊎ (((k == id) ≡ false) × (lookup id m ≡ some i))
unfolding lookup
found_cons k v m id i h = elim (Bool-cases (k == id)) [
  | inl e ↦ inl ((eq_iff k id).0 e, ground arith)
  | inr e ↦ inr (e, ground arith)
]

pub absent_cons :
    (k : String) (v : ℕ) (m : Assoc ℕ) (id : String)
    → lookup id ((k, v) ∷ m) ≡ none
    → ((k == id) ≡ false) × (lookup id m ≡ none)
unfolding lookup
absent_cons k v m id h = ground arith

-- No entry has the place j.
abbrev pub Unplaced : ℕ → Assoc ℕ → Type 0
Unplaced j entries = (id : String) → ¬ (lookup id entries ≡ some j)

-- Behind an entry whose key is in no other one.
Unplaced-tail :
    (k : String) (v : ℕ) (m : Assoc ℕ) (j : ℕ)
    → lookup k m ≡ none
    → Unplaced j ((k, v) ∷ m)
    → Unplaced j m
unfolding lookup
Unplaced-tail k v m j alone h id e = elim (Bool-cases (k == id)) [
  | inl p ↦ absurd (ground (arith, eq_iff k id, ap (λ x. lookup x m)))
  | inr p ↦ h id (ground arith)
]

Unplaced-head : (k : String) (v : ℕ) (m : Assoc ℕ) (j : ℕ) → Unplaced j ((k, v) ∷ m) → ¬ (v ≡ j)
unfolding lookup
Unplaced-head k v m j h p = h k (ground (arith, eq_iff k k))

module _ ⦃fl : Float⦄ where
  -- From s to s', after restarts of the entries: each of them still waits or its connector has a
  -- subscription, and what is not of them is as it was.
  pub record Settles (entries : Assoc ℕ) (s s' : Server) : Type 0 where
    pub distinct : Distinct s.need_reconnect → Distinct s'.need_reconnect
    pub restarted :
        (id : String) (i : ℕ)
        → lookup id entries ≡ some i
        → (lookup id s'.need_reconnect ≡ lookup id s.need_reconnect) ⊎ At Subscribed s'.connectors i
    pub others :
        (id : String)
        → lookup id entries ≡ none
        → lookup id s'.need_reconnect ≡ lookup id s.need_reconnect
    pub untouched :
        (j : ℕ) (conn : Connector)
        → get_elem? s.connectors j ≡ some conn
        → Unplaced j entries
        → get_elem? s'.connectors j ≡ some conn

  -- One restart: the entry goes only when its connector has a subscription.
  pub record Restart (id : String) (i : ℕ) (new : Connector) (s s' : Server) : Type 0 where
    pub running : s'.running ≡ s.running
    pub locked : s'.connector_locked ≡ s.connector_locked
    pub cancel : s'.cancel ≡ s.cancel
    pub distinct : Distinct s.need_reconnect → Distinct s'.need_reconnect
    pub placed : s'.connectors ≡ set s.connectors i new
    pub others :
        (k : String) → (id == k) ≡ false → lookup k s'.need_reconnect ≡ lookup k s.need_reconnect
    pub waits : (lookup id s'.need_reconnect ≡ lookup id s.need_reconnect) ⊎ Subscribed new

  pub restart_one-Restart :
      (client : Client) (s : Server) (id : String) (i : ℕ) (conn : Connector)
      → get_elem? s.connectors i ≡ some conn
      → (s' : Server) × (restart_one client s id i ≡ done s')
        × Restart id i (Methods.start client s.connections conn).0 s s'
  restart_one-Restart client s id i conn at =
      let new = (Methods.start client s.connections conn).0 in
      elim (Option-cases (Methods.start client s.connections conn).1) [
        | inl e ↦ (
          restarted client s id i conn,
          restart_one_ok client s id i conn at e,
          record {
            running = refl;
            locked = refl;
            cancel = refl;
            distinct = Distinct-delete id s.need_reconnect;
            placed = refl;
            others = λ k ne. ground (arith, lookup-delete id k s.need_reconnect);
            waits = inr (start-Started client s.connections conn e).subscribed;
          },
        )
        | inr (x, e) ↦ (
          record s { connectors = set s.connectors i new },
          restart_one_refused client s id i conn at x e,
          record {
            running = refl;
            locked = refl;
            cancel = refl;
            distinct = λ d. d;
            placed = refl;
            others = λ k ne. refl;
            waits = inl refl;
          },
        )
      ]

  module _ {s s₁ s' : Server} {rest : Assoc ℕ} (id : String) (i : ℕ) (conn new : Connector)
      (at : get_elem? s.connectors i ≡ some conn) (same : connector_id conn ≡ id)
      (new_id : connector_id new ≡ id) (alone : lookup id rest ≡ none) (free : Unplaced i rest)
      (r : Restart id i new s s₁) (later : Settles rest s₁ s') where
    head :
        (lookup id s'.need_reconnect ≡ lookup id s.need_reconnect) ⊎ At Subscribed s'.connectors i
    head = elim r.waits [
      | inl e ↦ inl (later.others id alone ∙ e)
      | inr sub ↦ inr (record {
        conn = new;
        here =
            later.untouched i new
              (ap (λ cs. get_elem? cs i) r.placed ∙ get_elem?-set_self s.connectors i conn new at)
              free;
        holds = sub;
      })
    ]

    one_more : Settles ((id, i) ∷ rest) s s'
    one_more = record {
      distinct = λ d. later.distinct (r.distinct d);
      restarted = λ id' j h. elim (found_cons id i rest id' j h) [
        | inl (p, q) ↦
            subst
              (λ k.
                (lookup k s'.need_reconnect ≡ lookup k s.need_reconnect)
                ⊎ At Subscribed s'.connectors j)
              p
              (subst
                (λ n.
                  (lookup id s'.need_reconnect ≡ lookup id s.need_reconnect)
                  ⊎ At Subscribed s'.connectors n)
                q head)
        | inr (ne, h') ↦ elim (later.restarted id' j h') [
          | inl e ↦ inl (e ∙ r.others id' ne)
          | inr a ↦ inr a
        ]
      ];
      others = λ id' h.
          let (ne, h') = absent_cons id i rest id' h in later.others id' h' ∙ r.others id' ne;
      untouched = λ j c e h.
          later.untouched j c
            (ap (λ cs. get_elem? cs j) r.placed
              ∙ (get_elem?-set_ne s.connectors i j new (Unplaced-head id i rest j h) ∙ e))
            (Unplaced-tail id i rest j alone h);
    }

  no_entry : (id : String) (j : ℕ) → ¬ (lookup {V = ℕ} id [] ≡ some j)
  unfolding lookup
  no_entry id j h = cc

  pub Placed-at :
      (conns : List Connector) (m : Assoc ℕ) (id : String) (j : ℕ)
      → AllPlaced conns m
      → lookup id m ≡ some j
      → Placed conns id j
  Placed-at conns [] id j a h = absurd (no_entry id j h)
  Placed-at conns ((k, v) ∷ m) id j (at, a) h = elim (found_cons k v m id j h) [
    | inl (p, q) ↦ subst (λ x. Placed conns x j) p (subst (Placed conns k) q at)
    | inr (ne, h') ↦ Placed-at conns m id j a h'
  ]

  -- The place of a connector of another id than those of the entries.
  none_placed :
      (conns : List Connector) (m : Assoc ℕ) (id : String) (i : ℕ) (new : Connector)
      → AllPlaced conns m
      → get_elem? conns i ≡ some new
      → connector_id new ≡ id
      → lookup id m ≡ none
      → Unplaced i m
  none_placed conns m id i new a at new_id alone id' h =
      let (c, e, ci) = Placed-at conns m id' i a h in
      let it : new ≡ c = same_elem (sym at ∙ e) in
      let same : id ≡ id' = sym new_id ∙ (ap (λ (x : Connector). connector_id x) it ∙ ci) in
      let no : ◌≡◌ {A = Option ℕ} none (some i) = sym alone ∙ (ap (λ k. lookup k m) same ∙ h) in cc

  pub restart_loop-Settles :
      (client : Client) (s : Server) (rest : Assoc ℕ)
      → s.running ≡ true
      → AllPlaced s.connectors rest
      → Distinct rest
      → (s' : Server) × (restart_loop client s rest ≡ done s') × Settles rest s s'
  restart_loop-Settles client s [] run p d = (
    unlock_connectors s,
    restart_loop_none client s,
    record {
      distinct = λ d. d;
      restarted = λ id i h. inl refl;
      others = λ id h. refl;
      untouched = λ j conn e h. e;
    },
  )
  restart_loop-Settles client s ((id, i) ∷ rest) run ((conn, at, same), more) (alone, d) =
      let new = (Methods.start client s.connections conn).0 in
      let kept = (start-SameConnector client s.connections conn).id in
      let (s₁, e, r) = restart_one-Restart client s id i conn at in
      let placed =
        subst (λ cs. AllPlaced cs rest) (sym r.placed)
          (AllPlaced-set s.connectors i conn new rest at kept more) in
      let (s', e', later) = restart_loop-Settles client s₁ rest (r.running ∙ run) placed d in
      (
        s',
        restart_loop_step client s s₁ id i rest run e ∙ e',
        one_more id i conn new at same (kept ∙ same) alone
            (none_placed s₁.connectors rest id i new placed
              (ap (λ cs. get_elem? cs i) r.placed ∙ get_elem?-set_self s.connectors i conn new at)
              (kept ∙ same) alone)
            r later,
      )
