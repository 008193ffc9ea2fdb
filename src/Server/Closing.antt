-- ===== src/Server/Closing.antt =====
-- Stop of server/core/server.go.
use mathlib.Core.List.{Mem, mem-append_left, mem-append_right, mem-cons_self}
use nats_replicator.Prelude.{
  ℕ, zero, suc, ◌+◌, ◌≡◌, refl, sym, subst, inl, inr, true, false, Option, none, some, List, [],
  ◌∷◌, ◌++◌, All, arith, get_elem?, All-of_elems, Option-cases,
}
use nats_replicator.Prelude.Outcome.{done}
use nats_replicator.Float.{Float}
use nats_replicator.Result.{Error}
use nats_replicator.Client.{Effect, unsubscribe, close_subscription, close_nats, close_stan}
use nats_replicator.Connector.{
  Kind, nats2nats, nats2stan, stan2nats, stan2stan, Connector, Subscription,
}
use nats_replicator.Connector.Methods
use nats_replicator.Connector.NatsToNats
use nats_replicator.Connector.NatsToStan
use nats_replicator.Connector.StanToNats
use nats_replicator.Connector.StanToStan
use nats_replicator.Connector.Lifecycle.{shutdown-Stopped}
use nats_replicator.State.{Server}
use nats_replicator.Monitoring.{stop_monitoring}
use nats_replicator.Server.Marks.{same_elem}
use nats_replicator.Server.Startup.{
  close_each, shutdown_all, close_connectors, close_connections, end_monitoring, stop_begin,
  stop_finish, stop,
}

module _ ⦃fl : Float⦄ where
  -- The call that ends a subscription of that kind.
  abbrev pub closing : Kind → ℕ → Effect
  closing nats2nats = unsubscribe
  closing nats2stan = unsubscribe
  closing stan2nats = close_subscription
  closing stan2stan = close_subscription

  shutdown-closing :
      (conn : Connector) (sub : Subscription)
      → conn.subscription ≡ some sub
      → (Methods.shutdown conn).1 ≡ closing conn.kind sub.handle ∷ []
  unfolding Methods.shutdown NatsToNats.shutdown NatsToStan.shutdown StanToNats.shutdown
      StanToStan.shutdown
  shutdown-closing conn sub e = ground arith

  closing_mem :
      (conn : Connector) (sub : Subscription)
      → conn.subscription ≡ some sub
      → Mem (closing conn.kind sub.handle) (Methods.shutdown conn).1
  closing_mem conn sub e =
      subst (Mem (closing conn.kind sub.handle)) (sym (shutdown-closing conn sub e)) mem-cons_self

  abbrev pub Unsubscribed : Connector → Type 0
  Unsubscribed conn = conn.subscription ≡ none

  shutdown_all-Unsubscribed : (conns : List Connector) → All Unsubscribed (shutdown_all conns).0
  unfolding shutdown_all
  shutdown_all-Unsubscribed [] = tt
  shutdown_all-Unsubscribed (conn ∷ rest) =
      ((shutdown-Stopped conn).unsubscribed, shutdown_all-Unsubscribed rest)

  pub shutdown_all-closing :
      (conns : List Connector) (i : ℕ) (conn : Connector) (sub : Subscription)
      → get_elem? conns i ≡ some conn
      → conn.subscription ≡ some sub
      → Mem (closing conn.kind sub.handle) (shutdown_all conns).1
  unfolding shutdown_all
  shutdown_all-closing [] i conn sub at e = cc
  shutdown_all-closing (c ∷ rest) zero conn sub at e = mem-append_left (shutdown_all rest).1 (
      subst (λ (d : Connector). Mem (closing conn.kind sub.handle) (Methods.shutdown d).1)
        (sym (same_elem at)) (closing_mem conn sub e))
  shutdown_all-closing (c ∷ rest) (suc i) conn sub at e =
      mem-append_right (Methods.shutdown c).1 (shutdown_all-closing rest i conn sub at e)

  -- The subscription that the connector had, if any, was ended by one of the calls.
  abbrev pub EndedBy : List Effect → Kind → Option Subscription → Type 0
  EndedBy effects kind none = Unit
  EndedBy effects kind (some sub) = Mem (closing kind sub.handle) effects

  abbrev pub Ended : List Effect → Connector → Type 0
  Ended effects conn = EndedBy effects conn.kind conn.subscription

  shutdown_all-Ended :
      (conns : List Connector) (before after : List Effect)
      → All (Ended ((before ++ (shutdown_all conns).1) ++ after)) conns
  shutdown_all-Ended conns before after =
      All-of_elems (Ended ((before ++ (shutdown_all conns).1) ++ after)) conns (λ i conn at.
        elim (Option-cases conn.subscription) [
          | inl e ↦ rw e tt
          | inr (sub, e) ↦ rw e (
              mem-append_left after
                (mem-append_right before (shutdown_all-closing conns i conn sub at e)))
        ])

  -- The server after Stop.
  abbrev closed : Option Error → Server → Server
  closed answer s = record s {
    running = false;
    connector_locked = false;
    cancel = s.cancel + 1;
    connectors = (shutdown_all s.connectors).0;
    monitor = (stop_monitoring answer s.monitor).0;
    effects =
        (s.effects ++ (shutdown_all s.connectors).1)
        ++ (close_each close_stan s.connections.stan ++ close_each close_nats s.connections.nats);
  }

  stop_on :
      (answer : Option Error) (s : Server)
      → s.running ≡ true
      → s.connector_locked ≡ false
      → s.cancel ≡ 0
      → stop answer s ≡ done (closed answer s)
  unfolding stop stop_begin stop_finish close_connectors close_connections end_monitoring
  stop_on answer s r l c = ground arith

  stop_off : (answer : Option Error) (s : Server) → s.running ≡ false → stop answer s ≡ done s
  unfolding stop
  stop_off answer s r = ground arith

  -- Stop, with no other thread between its parts, on a running server whose lock is free and whose cancel channel is empty: it ends,
  -- stopped and with the lock free; no connector has a subscription; each subscription that was
  -- open was ended by a call of its client library; and a further Stop does nothing.
  pub stop_lem :
      (answer : Option Error) (s : Server)
      → s.running ≡ true
      → s.connector_locked ≡ false
      → s.cancel ≡ 0
      → (s' : Server) × (stop answer s ≡ done s')
        × (s'.running ≡ false)
        × (s'.connector_locked ≡ false)
        × All Unsubscribed s'.connectors
        × All (Ended s'.effects) s.connectors
        × (stop answer s' ≡ done s')
  stop_lem answer s r l c = (
    closed answer s,
    stop_on answer s r l c,
    refl,
    refl,
    shutdown_all-Unsubscribed s.connectors,
    shutdown_all-Ended s.connectors s.effects _,
    stop_off answer (closed answer s) refl,
  )
