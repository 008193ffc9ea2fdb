-- ===== src/Server/Running.antt =====
-- Start of server/core/server.go.
use nats_replicator.Prelude.{
  length, ℕ, ◌≡◌, refl, sym, ap, subst, ◌∙◌, true, Option, none, some, List, [], ◌∷◌, ◌++◌, map,
  All, arith, inl, inr, Option-cases,
}
use mathlib.Core.List.{append-nil, append_assoc, map-append}
use nats_replicator.Float.{Float}
use nats_replicator.Result.{Error, ok, err, Result-cases}
use nats_replicator.Conf.{ConnectorConfig}
use nats_replicator.Client.{Client}
use nats_replicator.Nats.{Connections}
use nats_replicator.Nats.Streams.{IsServed, connect_to_stan_lem}
use nats_replicator.Connector.{Connector, create_connector}
use nats_replicator.Connector.Methods
use nats_replicator.Connector.Options.{create_connector-Created}
use nats_replicator.Connector.Lifecycle.{start-Started}
use nats_replicator.State.{Server}
use nats_replicator.Monitoring.{Network}
use nats_replicator.Server.Recovery.{Subscribed}
use nats_replicator.Server.Startup.{
  and_then, initialize_connectors, start_connectors, reset, nats_step, stan_step, initialize_step,
  start_step, monitor_step, start,
}

module _ ⦃fl : Float⦄ where
  -- A sequence of steps has no error when neither part has one.
  and_then_ok :
      (r : Server × Option Error) (next : Server → Server × Option Error)
      → (and_then r next).1 ≡ none
      → (r.1 ≡ none) × (and_then r next ≡ next r.0)
  and_then_ok (s, none) next h = (refl, refl)
  and_then_ok (s, some e) next h = cc

  abbrev pub configs : List Connector → List ConnectorConfig
  configs conns = map (λ (c : Connector). c.config) conns

  initialize_step_ok :
      (client : Client) (c : ConnectorConfig) (rest : List ConnectorConfig) (conns : List Connector)
      → (conn : Connector) → create_connector client (length conns) c ≡ ok conn
      → initialize_connectors client (c ∷ rest) conns
        ≡ initialize_connectors client rest (conns ++ conn ∷ [])
  unfolding initialize_connectors
  initialize_step_ok client c rest conns conn e = rw (e, initialize_connectors) refl

  initialize_step_err :
      (client : Client) (c : ConnectorConfig) (rest : List ConnectorConfig) (conns : List Connector)
      → (x : Error) → create_connector client (length conns) c ≡ err x
      → (initialize_connectors client (c ∷ rest) conns).1 ≡ some x
  unfolding initialize_connectors
  initialize_step_err client c rest conns x e = ground arith

  initialize_ok :
      (client : Client) (cs : List ConnectorConfig) (conns : List Connector)
      → (initialize_connectors client cs conns).1 ≡ none
      → configs (initialize_connectors client cs conns).0 ≡ configs conns ++ cs
  initialize_ok client [] conns h = unfold initialize_connectors in sym (append-nil (configs conns))
  initialize_ok client (c ∷ rest) conns h =
      elim (Result-cases (create_connector client (length conns) c)) [
        | inl (conn, e) ↦
            let step = initialize_step_ok client c rest conns conn e in
            ap (λ (r : List Connector × Option Error). configs r.0) step
            ∙ (initialize_ok client rest (conns ++ conn ∷ []) (rw step at h)
                ∙ regroup conns conn c rest
                    (create_connector-Created client (length conns) c conn e).configured)
        | inr (x, e) ↦ cc (initialize_step_err client c rest conns x e)
      ]
    where
      regroup :
          (conns : List Connector) (conn : Connector) (c : ConnectorConfig)
          (rest : List ConnectorConfig)
          → conn.config ≡ c
          → configs (conns ++ conn ∷ []) ++ rest ≡ configs conns ++ c ∷ rest
      regroup conns conn c rest p = rw map-append (rw append_assoc (rw p refl))

  start_step_ok :
      (client : Client) (cs : Connections) (conn : Connector) (rest : List Connector)
      → (Methods.start client cs conn).1 ≡ none
      → start_connectors client cs (conn ∷ rest) ≡ (
        (Methods.start client cs conn).0 ∷ (start_connectors client cs rest).0,
        (start_connectors client cs rest).1,
      )
  unfolding start_connectors
  start_step_ok client cs conn rest e = ground arith

  start_step_err :
      (client : Client) (cs : Connections) (conn : Connector) (rest : List Connector) (x : Error)
      → (Methods.start client cs conn).1 ≡ some x
      → (start_connectors client cs (conn ∷ rest)).1 ≡ some x
  unfolding start_connectors
  start_step_err client cs conn rest x e = ground arith

  abbrev Running : List Connector → List Connector → Type 0
  Running conns conns' = All Subscribed conns' × (configs conns' ≡ configs conns)

  start_connectors_ok :
      (client : Client) (cs : Connections) (conns : List Connector)
      → (start_connectors client cs conns).1 ≡ none
      → Running conns (start_connectors client cs conns).0
  start_connectors_ok client cs [] h = unfold start_connectors in (tt, refl)
  start_connectors_ok client cs (conn ∷ rest) h =
      elim (Option-cases (Methods.start client cs conn).1) [
        | inl e ↦
            let step = start_step_ok client cs conn rest e in
            let started = start-Started client cs conn e in
            let (subs, same) =
              start_connectors_ok client cs rest
                (sym (ap (λ (r : List Connector × Option Error). r.1) step) ∙ h) in
            subst (λ (r : List Connector × Option Error). Running (conn ∷ rest) r.0) (sym step)
              ((started.subscribed, subs), λ i. started.same.config i ∷ same i)
        | inr (x, e) ↦ cc (start_step_err client cs conn rest x e)
      ]

  -- What Start promises of the server after it.
  abbrev pub Started : Server → Server → Type 0
  Started s s' =
      (s'.running ≡ true)
      × (s'.need_reconnect ≡ [])
      × (s'.connector_locked ≡ s.connector_locked)
      × All (IsServed s'.connections) s.config.stan
      × (configs s'.connectors ≡ s.config.connect)
      × All Subscribed s'.connectors

  fails_not : {r r' : Server × Option Error} → r ≡ r' → r.1 ≡ none → r'.1 ≡ none
  fails_not p h = sym (ap (λ (r : Server × Option Error). r.1) p) ∙ h

  -- Start without an error: the server runs, no connector waits for a restart, and the lock is as
  -- it was; every configured streaming connection with a cluster is there; there is one connector
  -- for each configuration, in order, and each has a subscription.
  pub start_lem :
      (client : Client) (net : Network) (now : ℕ) (s : Server)
      → (start client net now s).1 ≡ none
      → Started s (start client net now s).0
  unfolding start
  start_lem client net now s h =
      let n = nats_step client (reset now s) in
      let m = and_then n (stan_step client) in
      let i = and_then m (initialize_step client) in
      let c = and_then i (start_step client) in
      let (ec, pf) = and_then_ok c (monitor_step net) h in
      let (ei, qc) = and_then_ok i (start_step client) ec in
      let (em, qi) = and_then_ok m (initialize_step client) ei in
      let (en, pm) = and_then_ok n (stan_step client) em in
      let s₁ = n.0 in
      let s₂ = (stan_step client s₁).0 in
      let s₃ = (initialize_step client s₂).0 in
      let s₄ = (start_step client s₃).0 in
      let pi : i ≡ initialize_step client s₂ =
        qi ∙ ap (λ (r : Server × Option Error). initialize_step client r.0) pm in
      let pc : c ≡ start_step client s₃ =
        qc ∙ ap (λ (r : Server × Option Error). start_step client r.0) pi in
      let all : Started s (monitor_step net s₄).0 = (
        refl,
        refl,
        refl,
        connect_to_stan_lem client s.config.stan s₁.connections (fails_not pm em),
        (start_connectors_ok client s₂.connections s₃.connectors (fails_not pc ec)).1
            ∙ initialize_ok client s.config.connect [] (fails_not pi ei),
        (start_connectors_ok client s₂.connections s₃.connectors (fails_not pc ec)).0,
      ) in
      subst (λ (r : Server × Option Error). Started s r.0)
        (sym (pf ∙ ap (λ (r : Server × Option Error). monitor_step net r.0) pc)) all
