-- ===== src/Server/Threads/Quiet.antt =====
-- Stop of server/core/server.go, with the other threads between its parts, when no connector waits for
-- a restart and no handler has tested `running` before.
pub mod Steps
use nats_replicator.Prelude.{
  ℕ, ◌⊎◌, inl, inr, true, false, ◌≡◌, refl, sym, subst, ◌∙◌, Option, none, some, List, [], ◌++◌,
  get_elem?,
}
use nats_replicator.Prelude.Outcome.{done}
use nats_replicator.Float.{Float}
use nats_replicator.Connector.{Connector}
use nats_replicator.Connector.Methods
use nats_replicator.State.{Server}
use nats_replicator.Server.Startup.{close_connectors}
use nats_replicator.Server.Threads.{
  Ticker, selecting, connecting, locking, restarting, chosen, ended, Stopping, idle, cancelling,
  closing, disconnecting, unmonitoring, stopped, World,
}
use nats_replicator.Server.Threads.Alike.{Alike}
use nats_replicator.Server.Threads.Sane.{entries_of, holding, is_idle, is_unsent}
use nats_replicator.Server.Threads.Safe.{at}
use mathlib.Core.List.{append-nil, mem-append_left, mem-append_right}
use nats_replicator.Client.{Effect}
use nats_replicator.Connector.{Subscription, Kind}
use nats_replicator.Connector.Lifecycle.{shutdown-Stopped}
use nats_replicator.Server.Startup.{shutdown_all}
use nats_replicator.Server.Closing.{Ended, EndedBy, shutdown_all-closing}
use nats_replicator.Server.Threads.Alike.{SameConnectors, SameOne}
use nats_replicator.Server.Threads.Sane.{close_connectors_done, shutdown_all-at}

pub entries_of_none : (t : Ticker) → holding t ≡ false → entries_of t ≡ []
entries_of_none selecting h = refl
entries_of_none connecting h = refl
entries_of_none locking h = refl
entries_of_none ended h = refl
entries_of_none (restarting m) h = cc
entries_of_none (chosen id i m) h = cc

-- The part of Stop that comes next.
abbrev pub after : Stopping → Stopping
after idle = cancelling
after cancelling = closing
after closing = disconnecting
after disconnecting = unmonitoring
after unmonitoring = stopped
after stopped = stopped

module _ ⦃fl : Float⦄ where
  -- Each connector of the first list is at its place in the second, without a subscription.
  abbrev pub Shut : List Connector → List Connector → Type 0
  Shut conns conns' =
      (j : ℕ) (c : Connector)
      → get_elem? conns j ≡ some c
      → (d : Connector) × (get_elem? conns' j ≡ some d) × (d.subscription ≡ none)

  -- The subscription of each connector was ended by one of the calls.
  abbrev pub AllEnded : List Connector → List Effect → Type 0
  AllEnded conns effects = (j : ℕ) (c : Connector) → get_elem? conns j ≡ some c → Ended effects c

  -- What Stop has done to the connectors that it began with.
  abbrev pub Closed : Stopping → List Connector → Server → Type 0
  Closed idle conns s = SameConnectors conns s.connectors
  Closed cancelling conns s = SameConnectors conns s.connectors
  Closed closing conns s = SameConnectors conns s.connectors
  Closed _ conns s = Shut conns s.connectors × AllEnded conns s.effects

  pub record Quiet (conns : List Connector) (w : World) : Type 0 where
    pub off : w.server.running ≡ false
    pub alone : w.late ≡ []
    pub need : w.server.need_reconnect ≡ []
    pub entries : entries_of w.ticker ≡ []
    pub lock : w.server.connector_locked ≡ holding w.ticker
    pub begun : is_idle w.stopping ≡ false
    pub unsent : (is_unsent w.stopping ≡ false) ⊎ (w.server.cancel ≡ 0)
    pub woken : (is_unsent w.stopping ≡ true) ⊎ ((w.ticker ≡ ended) ⊎ (w.server.cancel ≡ 1))
    pub closed : Closed w.stopping conns w.server

  SameOne-trans : {a b c : Connector} → SameOne a b → SameOne b c → SameOne a c
  SameOne-trans p q = record {
    id = q.id ∙ p.id;
    kind = q.kind ∙ p.kind;
    subscription = q.subscription ∙ p.subscription;
  }

  same_trans :
      (a b c : List Connector) → SameConnectors a b → SameConnectors b c → SameConnectors a c
  same_trans a b c p q j x e =
      let (y, f, k) = p j x e in let (z, g, l) = q j y f in (z, g, SameOne-trans k l)

  Shut-same : (a b c : List Connector) → Shut a b → SameConnectors b c → Shut a c
  Shut-same a b c p q j x e =
      let (y, f, k) = p j x e in let (z, g, l) = q j y f in (z, g, l.subscription ∙ k)

  EndedBy-append :
      (es fs : List Effect) (kind : Kind) (sub : Option Subscription)
      → EndedBy es kind sub
      → EndedBy (es ++ fs) kind sub
  EndedBy-append es fs kind none h = tt
  EndedBy-append es fs kind (some sub) h = mem-append_left fs h

  -- The calls only grow.
  abbrev pub Grows : Server → Server → Type 0
  Grows s s' = (fs : List Effect) × (s'.effects ≡ s.effects ++ fs)

  AllEnded-Grows :
      (conns : List Connector) (s s' : Server)
      → Grows s s'
      → AllEnded conns s.effects
      → AllEnded conns s'.effects
  AllEnded-Grows conns s s' (fs, e) a j c at =
      subst (λ es. Ended es c) (sym e)
        (EndedBy-append s.effects fs c.kind c.subscription (a j c at))

  pub Closed-alike :
      (p : Stopping) (conns : List Connector) (s s' : Server)
      → Alike s s'
      → Grows s s'
      → Closed p conns s
      → Closed p conns s'
  Closed-alike idle conns s s' k g c = same_trans conns s.connectors s'.connectors c k.connectors
  Closed-alike cancelling conns s s' k g c =
      same_trans conns s.connectors s'.connectors c k.connectors
  Closed-alike closing conns s s' k g c = same_trans conns s.connectors s'.connectors c k.connectors
  Closed-alike disconnecting conns s s' k g (c, a) =
      (Shut-same conns s.connectors s'.connectors c k.connectors, AllEnded-Grows conns s s' g a)
  Closed-alike unmonitoring conns s s' k g (c, a) =
      (Shut-same conns s.connectors s'.connectors c k.connectors, AllEnded-Grows conns s s' g a)
  Closed-alike stopped conns s s' k g (c, a) =
      (Shut-same conns s.connectors s'.connectors c k.connectors, AllEnded-Grows conns s s' g a)

  pub Quiet-Alike :
      (conns : List Connector) (w : World) (s' : Server)
      → Quiet conns w
      → Alike w.server s'
      → Grows w.server s'
      → Quiet conns (record w { server = s' })
  Quiet-Alike conns w s' q k g = record {
    off = k.running ∙ q.off;
    alone = q.alone;
    need = k.need ∙ q.need;
    entries = q.entries;
    lock = k.locked ∙ q.lock;
    begun = q.begun;
    unsent = elim q.unsent [ inl u ↦ inl u | inr u ↦ inr (k.cancel ∙ u) ];
    woken = elim q.woken [
      | inl u ↦ inl u
      | inr (inl u) ↦ inr (inl u)
      | inr (inr u) ↦ inr (inr (k.cancel ∙ u))
    ];
    closed = Closed-alike w.stopping conns w.server s' k g q.closed;
  }

  pub same_effects : (s s' : Server) → s'.effects ≡ s.effects → Grows s s'
  same_effects s s' e = ([], e ∙ sym (append-nil s.effects))

  -- Closing the connectors.
  pub close_connectors-Closed :
      (conns : List Connector) (s s' : Server)
      → SameConnectors conns s.connectors
      → close_connectors s ≡ done s'
      → Shut conns s'.connectors × AllEnded conns s'.effects
  close_connectors-Closed conns s s' same h =
      let (_, e) = close_connectors_done s s' h in
      subst (λ (x : Server). Shut conns x.connectors × AllEnded conns x.effects) e
        (
          (λ j c at.
              let (d, f, k) = same j c at in
              (
                (Methods.shutdown d).0,
                shutdown_all-at s.connectors j d f,
                (shutdown-Stopped d).unsubscribed,
              )),
          (λ j c at.
              let (d, f, k) = same j c at in
              let es = s.effects ++ (shutdown_all s.connectors).1 in
              subst (λ x. EndedBy es x c.subscription) k.kind
                (subst (λ x. EndedBy es d.kind x) k.subscription
                  (closed_call s.connectors s.effects j d f d.subscription refl))),
        )
    where
      closed_call :
          (cs : List Connector) (before : List Effect) (j : ℕ) (d : Connector)
          → get_elem? cs j ≡ some d
          → (sub : Option Subscription) → d.subscription ≡ sub
          → EndedBy (before ++ (shutdown_all cs).1) d.kind sub
      closed_call cs before j d f none e = tt
      closed_call cs before j d f (some sub) e =
          mem-append_right before (shutdown_all-closing cs j d sub f e)
