-- ===== src/Server/Threads/Sane.antt =====
-- What every part of every thread of server/core keeps true.
use nats_replicator.Prelude.{
  zero, suc, ℕ, ◌⊎◌, inl, inr, String, Bool, true, false, ◌≡◌, refl, sym, ap, subst, ◌∙◌, some,
  List, [], ◌∷◌, ◌++◌, All, arith, get_elem?, Bool-cases, Option-cases,
}
use Prim.Native.Nat.add
use nats_replicator.Prelude.Assoc.{Assoc, lookup, contains}
use nats_replicator.Prelude.Outcome.{done}
use nats_replicator.Float.{Float}
use nats_replicator.Client.{Client}
use nats_replicator.Connector.{Connector, connector_id}
use nats_replicator.Connector.Methods
use nats_replicator.Connector.Lifecycle.{shutdown-Stopped}
use nats_replicator.State.{Server}
use nats_replicator.Server.{
  unlock_connectors, mark_broken, check_loop, error_section, check_section,
}
use nats_replicator.Server.Startup.{shutdown_all, close_connectors}
use nats_replicator.Server.Marks.{Marked, same_elem}
use nats_replicator.Server.Tidy.{IsTidy, mark_broken-IsTidy, check_loop-IsTidy}
use nats_replicator.Server.Keys.{
  Distinct, mark_broken-Distinct, check_loop-Distinct, check_loop-cancel, check_loop-running,
}
use nats_replicator.Server.Threads.{
  Ticker, selecting, connecting, locking, restarting, chosen, ended, Stopping, idle, cancelling,
  Handler, World,
}
use nats_replicator.Server.Threads.Alike.{Alike, IsTidy-Alike}

-- The entries that the ticker still has to restart.
abbrev pub entries_of : Ticker → Assoc ℕ
entries_of (restarting m) = m
entries_of (chosen id i m) = (id, i) ∷ m
entries_of _ = []

-- The ticker is between its Lock and its Unlock.
abbrev pub holding : Ticker → Bool
holding (restarting m) = true
holding (chosen id i m) = true
holding _ = false

abbrev pub is_idle : Stopping → Bool
is_idle idle = true
is_idle _ = false

-- Stop has not sent to `cancelReconnect`.
abbrev pub is_unsent : Stopping → Bool
is_unsent idle = true
is_unsent cancelling = true
is_unsent _ = false

-- What is left to restart is in the map, each entry once.
pub record Left (m need : Assoc ℕ) : Type 0 where
  pub distinct : Distinct m
  pub there : (id : String) (i : ℕ) → lookup id m ≡ some i → lookup id need ≡ some i

pub no_entry : (id : String) (i : ℕ) → ¬ (lookup {V = ℕ} id [] ≡ some i)
unfolding lookup
no_entry id i h = cc

pub none-Left : (t : Ticker) (need : Assoc ℕ) → holding t ≡ false → Left (entries_of t) need
none-Left selecting need h = record { distinct = tt; there = λ id i e. absurd (no_entry id i e) }
none-Left connecting need h = record { distinct = tt; there = λ id i e. absurd (no_entry id i e) }
none-Left locking need h = record { distinct = tt; there = λ id i e. absurd (no_entry id i e) }
none-Left ended need h = record { distinct = tt; there = λ id i e. absurd (no_entry id i e) }
none-Left (restarting m) need h = cc
none-Left (chosen id i m) need h = cc

module _ ⦃fl : Float⦄ where
  -- The lock is held by the ticker, or by nobody; or the ticker has left it behind, which happens
  -- only once the server is stopped.
  abbrev pub LockOf : Server → Ticker → Type 0
  LockOf s t =
      (s.connector_locked ≡ holding t)
      ⊎ ((s.running ≡ false) × (s.connector_locked ≡ true) × (holding t ≡ false))

  -- The server runs until Stop begins; the lock; each entry of the map is of a connector without a
  -- subscription; no key has two entries; what the ticker has left is in the map; and the channel
  -- is empty until Stop sends.
  pub record Sane (w : World) : Type 0 where
    pub runs : w.server.running ≡ is_idle w.stopping
    pub lock : LockOf w.server w.ticker
    pub tidy : IsTidy w.server
    pub keyed : Distinct w.server.need_reconnect
    pub left : Left (entries_of w.ticker) w.server.need_reconnect
    pub unsent : (is_unsent w.stopping ≡ false) ⊎ (w.server.cancel ≡ 0)

  -- A section under the lock, from one free state to another.
  pub record Changed (s s' : Server) : Type 0 where
    pub before : s.connector_locked ≡ false
    pub after : s'.connector_locked ≡ false
    pub running : s'.running ≡ s.running
    pub cancel : s'.cancel ≡ s.cancel
    pub tidy : IsTidy s → IsTidy s'
    pub keyed : Distinct s.need_reconnect → Distinct s'.need_reconnect

  pub not_holding :
      (s : Server) (t : Ticker) → LockOf s t → s.connector_locked ≡ false → holding t ≡ false
  not_holding s t (inl e) h = sym e ∙ h
  not_holding s t (inr (_, e, n)) h = n

  pub Changed-Sane :
      (w : World) (s' : Server) (late' : List Handler)
      → Sane w
      → Changed w.server s'
      → Sane (record w { server = s'; late = late' })
  Changed-Sane w s' late' o c =
      let off = not_holding w.server w.ticker o.lock c.before in
      record {
        runs = c.running ∙ o.runs;
        lock = inl (c.after ∙ sym off);
        tidy = c.tidy o.tidy;
        keyed = c.keyed o.keyed;
        left = none-Left w.ticker s'.need_reconnect off;
        unsent = elim o.unsent [ inl e ↦ inl e | inr e ↦ inr (c.cancel ∙ e) ];
      }

  pub LockOf-Alike : (s s' : Server) (t : Ticker) → Alike s s' → LockOf s t → LockOf s' t
  LockOf-Alike s s' t k (inl e) = inl (k.locked ∙ e)
  LockOf-Alike s s' t k (inr (r, l, n)) = inr (k.running ∙ r, k.locked ∙ l, n)

  pub Alike-Sane :
      (w : World) (s' : Server) (late' : List Handler)
      → Sane w
      → Alike w.server s'
      → Sane (record w { server = s'; late = late' })
  Alike-Sane w s' late' o k = record {
    runs = k.running ∙ o.runs;
    lock = LockOf-Alike w.server s' w.ticker k o.lock;
    tidy = IsTidy-Alike w.server s' k o.tidy;
    keyed = subst Distinct (sym k.need) o.keyed;
    left = subst (Left (entries_of w.ticker)) (sym k.need) o.left;
    unsent = elim o.unsent [ inl e ↦ inl e | inr e ↦ inr (k.cancel ∙ e) ];
  }

  pub error_section_cases :
      (s s' : Server) (i : ℕ)
      → error_section s i ≡ done s'
      → (s.connector_locked ≡ false)
        × (conn : Connector) × (get_elem? s.connectors i ≡ some conn)
        × ((s' ≡ unlock_connectors (record s { connector_locked = true }))
            ⊎ (s' ≡ unlock_connectors (mark_broken (record s { connector_locked = true }) i conn)))
  error_section_cases s s' i h = elim (Option-cases (get_elem? s.connectors i)) [
    | inl e ↦ absurd (ground arith)
    | inr (conn, e) ↦ elim (Bool-cases (contains (connector_id conn) s.need_reconnect)) [
      | inl k ↦ (ground arith, conn, e, inl (ground arith))
      | inr k ↦ (ground arith, conn, e, inr (ground arith))
    ]
  ]

  unlocked-Changed :
      (s : Server)
      → s.connector_locked ≡ false
      → Changed s (unlock_connectors (record s { connector_locked = true }))
  unlocked-Changed s l = record {
    before = l;
    after = refl;
    running = refl;
    cancel = refl;
    tidy = λ a. a;
    keyed = λ d. d;
  }

  marked-Changed :
      (s : Server) (i : ℕ) (conn : Connector)
      → s.connector_locked ≡ false
      → get_elem? s.connectors i ≡ some conn
      → Changed s (unlock_connectors (mark_broken (record s { connector_locked = true }) i conn))
  unfolding mark_broken
  marked-Changed s i conn l at = record {
    before = l;
    after = refl;
    running = refl;
    cancel = refl;
    tidy = λ a. mark_broken-IsTidy (record s { connector_locked = true }) i conn at a;
    keyed = λ d. mark_broken-Distinct (record s { connector_locked = true }) i conn d;
  }

  pub error_section-Changed : (s s' : Server) (i : ℕ) → error_section s i ≡ done s' → Changed s s'
  error_section-Changed s s' i h =
      let (l, conn, at, which) = error_section_cases s s' i h in
      elim which [
        | inl e ↦ subst (Changed s) (sym e) (unlocked-Changed s l)
        | inr e ↦ subst (Changed s) (sym e) (marked-Changed s i conn l at)
      ]

  pub check_section_done :
      (client : Client) (s s' : Server)
      → check_section client s ≡ done s'
      → (s.connector_locked ≡ false)
        × (unlock_connectors
              (check_loop client (record s { connector_locked = true }) 0 s.connectors)
            ≡ s')
  check_section_done client s s' h = ground arith

  pub check_section-Changed :
      (client : Client) (s s' : Server) → check_section client s ≡ done s' → Changed s s'
  check_section-Changed client s s' h =
      let t = record s { connector_locked = true } in
      let (l, e) = check_section_done client s s' h in
      let ahead = λ (k : ℕ). ap (get_elem? s.connectors) (add.zero k) in
      subst (Changed s) e (record {
        before = l;
        after = refl;
        running = check_loop-running client t 0 s.connectors;
        cancel = check_loop-cancel client t 0 s.connectors;
        tidy = λ a. (check_loop-IsTidy client t 0 s.connectors ahead a).0;
        keyed = check_loop-Distinct client t 0 s.connectors;
      })

  pub shutdown_all-at :
      (conns : List Connector) (j : ℕ) (c : Connector)
      → get_elem? conns j ≡ some c
      → get_elem? (shutdown_all conns).0 j ≡ some (Methods.shutdown c).0
  unfolding shutdown_all
  shutdown_all-at [] j c e = cc
  shutdown_all-at (d ∷ rest) zero c e =
      ap (λ (x : Connector). some (Methods.shutdown x).0) (same_elem e)
  shutdown_all-at (d ∷ rest) (suc j) c e = shutdown_all-at rest j c e

  All-shut :
      (conns : List Connector) (m : Assoc ℕ)
      → All (λ (e : String × ℕ). Marked conns e.0 e.1) m
      → All (λ (e : String × ℕ). Marked (shutdown_all conns).0 e.0 e.1) m
  All-shut conns [] a = tt
  All-shut conns ((id, i) ∷ m) ((c, e, ci, off), a) =
      let s = shutdown-Stopped c in
      (
        ((Methods.shutdown c).0, shutdown_all-at conns i c e, s.same.id ∙ ci, s.unsubscribed),
        All-shut conns m a,
      )

  pub close_connectors_done :
      (s s' : Server)
      → close_connectors s ≡ done s'
      → (s.connector_locked ≡ false)
        × (record s {
          connectors = (shutdown_all s.connectors).0;
          effects = s.effects ++ (shutdown_all s.connectors).1;
          connector_locked = false;
        }
            ≡ s')
  unfolding close_connectors
  close_connectors_done s s' h = ground arith

  pub close_connectors-Changed : (s s' : Server) → close_connectors s ≡ done s' → Changed s s'
  close_connectors-Changed s s' h =
      let (l, e) = close_connectors_done s s' h in
      subst (Changed s) e (record {
        before = l;
        after = refl;
        running = refl;
        cancel = refl;
        tidy = All-shut s.connectors s.need_reconnect;
        keyed = λ d. d;
      })
