-- ===== src/Nats/Streams.antt =====
-- connectToSTAN of server/core/nats.go.
use nats_replicator.Prelude.{
  ℕ, String, ◌≡◌, refl, sym, ap, subst, ◌∙◌, ◌⊎◌, inl, inr, Option, none, some, List, [], ◌∷◌, All,
  arith, eq_iff, ◌==◌, if◌then◌else◌, Option-cases,
}
use nats_replicator.Prelude.Assoc.{lookup-insert}
use nats_replicator.Result.{Error, ok, err, Result-cases}
use nats_replicator.Conf.{NatsStreamingConfig}
use nats_replicator.Client.{Client}
use nats_replicator.Nats.{Connections, stan_conn, connect_stan, connect_to_stan, add_stan}

-- There is nothing to connect: the name has a connection, or no cluster is configured.
abbrev pub IsServed : Connections → NatsStreamingConfig → Type 0
IsServed cs config = ((sc : ℕ) × (stan_conn cs config.name ≡ some sc)) ⊎ (config.cluster_id ≡ "")

stan_conn-add_stan :
    (cs : Connections) (name j : String) (sc : ℕ)
    → stan_conn (add_stan name (some sc) cs) j ≡ (if name == j then some sc else stan_conn cs j)
unfolding stan_conn
stan_conn-add_stan cs name j sc = ground (arith, lookup-insert name j (some sc) cs.stan)

module _ (client : Client) (config : NatsStreamingConfig) (cs : Connections) where
  -- A served configuration is passed over.
  connect_stan-served : IsServed cs config → connect_stan client config cs ≡ ok none
  unfolding connect_stan
  connect_stan-served (inl (sc, e)) = rw (e, connect_stan) refl
  connect_stan-served (inr e) = ground (arith, eq_iff config.cluster_id "")

  -- A new connection is made only for a name that has none.
  connect_stan-new :
      (sc : ℕ) → connect_stan client config cs ≡ ok (some sc) → stan_conn cs config.name ≡ none
  unfolding connect_stan
  connect_stan-new sc h = ground arith

  -- Passed over without a new connection means served.
  connect_stan-none : connect_stan client config cs ≡ ok none → IsServed cs config
  unfolding connect_stan
  connect_stan-none h = elim (Option-cases (stan_conn cs config.name)) [
    | inr (sc, e) ↦ inl (sc, e)
    | inl e ↦ inr (ground (arith, eq_iff config.cluster_id ""))
  ]

  module _ (rest : List NatsStreamingConfig) where
    connect_step :
        (o : Option ℕ)
        → connect_stan client config cs ≡ ok o
        → connect_to_stan client (config ∷ rest) cs
          ≡ connect_to_stan client rest (add_stan config.name o cs)
    unfolding connect_to_stan
    connect_step o e = rw (e, connect_to_stan) refl

    connect_err :
        (x : Error)
        → connect_stan client config cs ≡ err x
        → connect_to_stan client (config ∷ rest) cs ≡ (cs, some x)
    unfolding connect_to_stan
    connect_err x e = rw (e, connect_to_stan) refl

  -- One round keeps the connections that are there.
  add_stan-keeps :
      (o : Option ℕ) (j : String) (sc : ℕ)
      → connect_stan client config cs ≡ ok o
      → stan_conn cs j ≡ some sc
      → stan_conn (add_stan config.name o cs) j ≡ some sc
  add_stan-keeps none j sc e h = h
  add_stan-keeps (some new) j sc e h =
      ground (
        arith,
        stan_conn-add_stan cs config.name j new,
        connect_stan-new new e,
        eq_iff config.name j,
      )

  -- After its round a configuration is served.
  add_stan-IsServed :
      (o : Option ℕ)
      → connect_stan client config cs ≡ ok o
      → IsServed (add_stan config.name o cs) config
  add_stan-IsServed none e = connect_stan-none e
  add_stan-IsServed (some new) e = inl (
    new,
    ground
        (arith, stan_conn-add_stan cs config.name config.name new, eq_iff config.name config.name),
  )

-- connectToSTAN never replaces or drops a streaming connection, also when it fails.
pub connect_to_stan-keeps :
    (client : Client) (configs : List NatsStreamingConfig) (cs : Connections) (j : String) (sc : ℕ)
    → stan_conn cs j ≡ some sc
    → stan_conn (connect_to_stan client configs cs).0 j ≡ some sc
connect_to_stan-keeps client [] cs j sc h = unfold connect_to_stan in h
connect_to_stan-keeps client (config ∷ rest) cs j sc h =
    elim (Result-cases (connect_stan client config cs)) [
      | inl (o, e) ↦ rw (connect_step client config cs rest o e) (
          connect_to_stan-keeps client rest (add_stan config.name o cs) j sc
            (add_stan-keeps client config cs o j sc e h))
      | inr (x, e) ↦ rw (connect_err client config cs rest x e) h
    ]

keeps-IsServed :
    (client : Client) (configs : List NatsStreamingConfig) (cs : Connections)
    (config : NatsStreamingConfig)
    → IsServed cs config
    → IsServed (connect_to_stan client configs cs).0 config
keeps-IsServed client configs cs config (inl (sc, e)) =
    inl (sc, connect_to_stan-keeps client configs cs config.name sc e)
keeps-IsServed client configs cs config (inr e) = inr e

-- When connectToSTAN returns no error, every configured name with a cluster has a connection.
pub connect_to_stan_lem :
    (client : Client) (configs : List NatsStreamingConfig) (cs : Connections)
    → (connect_to_stan client configs cs).1 ≡ none
    → All (IsServed (connect_to_stan client configs cs).0) configs
connect_to_stan_lem client [] cs h = tt
connect_to_stan_lem client (config ∷ rest) cs h =
    elim (Result-cases (connect_stan client config cs)) [
      | inl (o, e) ↦
          let step = connect_step client config cs rest o e in
          let after = add_stan config.name o cs in
          subst (λ r. All (IsServed r.0) (config ∷ rest)) (sym step)
            (
              keeps-IsServed client rest after config (add_stan-IsServed client config cs o e),
              connect_to_stan_lem client rest after (rw step at h),
            )
      | inr (x, e) ↦
          absurd (failed x (ap (λ r. r.1) (sym (connect_err client config cs rest x e)) ∙ h))
    ]
  where
    failed : (x : Error) → ◌≡◌ {A = Option Error} (some x) none → ⊥
    failed x p = cc

-- Where everything configured is served, connectToSTAN does nothing and returns no error.
pub connect_to_stan-served :
    (client : Client) (configs : List NatsStreamingConfig) (cs : Connections)
    → All (IsServed cs) configs
    → connect_to_stan client configs cs ≡ (cs, none)
connect_to_stan-served client [] cs h = unfold connect_to_stan in refl
connect_to_stan-served client (config ∷ rest) cs (h, hs) =
    connect_step client config cs rest none (connect_stan-served client config cs h)
    ∙ connect_to_stan-served client rest cs hs

-- After a call of connectToSTAN without an error the next one, whatever the servers would answer,
-- changes nothing and returns no error.
pub connect_to_stan_again :
    (client client' : Client) (configs : List NatsStreamingConfig) (cs : Connections)
    → (connect_to_stan client configs cs).1 ≡ none
    → connect_to_stan client' configs (connect_to_stan client configs cs).0
      ≡ ((connect_to_stan client configs cs).0, none)
connect_to_stan_again client client' configs cs h =
    connect_to_stan-served client' configs (connect_to_stan client configs cs).0
      (connect_to_stan_lem client configs cs h)
