-- ===== src/Nats/Connect.antt =====
-- connectToNATS of server/core/nats.go.
use nats_replicator.Prelude.{
  ℕ, String, ◌≡◌, refl, sym, ap, subst, ◌∙◌, inl, inr, Option, none, some, List, [], ◌∷◌, All,
  arith, eq_iff, ◌==◌, if◌then◌else◌,
}
use nats_replicator.Prelude.Assoc.{insert, lookup-insert}
use nats_replicator.Result.{Error, Result, ok, err, Result-cases}
use nats_replicator.Conf.{NatsConfig}
use nats_replicator.Client.{Client}
use nats_replicator.Nats.{Connections, nats_conn, nats_options, connect_to_nats}

-- There is a connection of that name.
abbrev pub HasNats : Connections → String → Type 0
HasNats cs name = (nc : ℕ) × (nats_conn cs name ≡ some nc)

abbrev with_nats : Connections → String → ℕ → Connections
with_nats cs name nc = record cs { nats = insert name (some nc) cs.nats }

nats_conn-with_nats :
    (cs : Connections) (name j : String) (nc : ℕ)
    → nats_conn (with_nats cs name nc) j ≡ (if name == j then some nc else nats_conn cs j)
unfolding nats_conn
nats_conn-with_nats cs name j nc = ground (arith, lookup-insert name j (some nc) cs.nats)

HasNats-with_nats :
    (cs : Connections) (name j : String) (nc : ℕ) → HasNats cs j → HasNats (with_nats cs name nc) j
HasNats-with_nats cs name j nc (mc, e) =
    (if name == j then nc else mc, ground (arith, nats_conn-with_nats cs name j nc))

HasNats-with_nats_self :
    (cs : Connections) (name : String) (nc : ℕ) → HasNats (with_nats cs name nc) name
HasNats-with_nats_self cs name nc =
    (nc, ground (arith, nats_conn-with_nats cs name name nc, eq_iff name name))

module _ (client : Client) (config : NatsConfig) (rest : List NatsConfig) (cs : Connections) where
  abbrev answer : Result ℕ
  answer = client.nats_connect config.servers (nats_options client config)

  connect_ok :
      (nc : ℕ)
      → answer ≡ ok nc
      → connect_to_nats client (config ∷ rest) cs
        ≡ connect_to_nats client rest (with_nats cs config.name nc)
  unfolding connect_to_nats
  connect_ok nc e = rw (e, connect_to_nats) refl

  connect_err :
      (x : Error) → answer ≡ err x → connect_to_nats client (config ∷ rest) cs ≡ (cs, some x)
  unfolding connect_to_nats
  connect_err x e = rw (e, connect_to_nats) refl

-- Connecting keeps each name that has a connection, also when it fails.
pub connect_to_nats-keeps :
    (client : Client) (configs : List NatsConfig) (cs : Connections) (j : String)
    → HasNats cs j
    → HasNats (connect_to_nats client configs cs).0 j
connect_to_nats-keeps client [] cs j h = unfold connect_to_nats in h
connect_to_nats-keeps client (config ∷ rest) cs j h =
    elim (Result-cases (answer client config rest cs)) [
      | inl (nc, e) ↦ rw (connect_ok client config rest cs nc e) (
          connect_to_nats-keeps client rest (with_nats cs config.name nc) j
            (HasNats-with_nats cs config.name j nc h))
      | inr (x, e) ↦ rw (connect_err client config rest cs x e) h
    ]

-- When connectToNATS returns no error, each configured name has a connection.
pub connect_to_nats_lem :
    (client : Client) (configs : List NatsConfig) (cs : Connections)
    → (connect_to_nats client configs cs).1 ≡ none
    → All (λ (c : NatsConfig). HasNats (connect_to_nats client configs cs).0 c.name) configs
connect_to_nats_lem client [] cs h = tt
connect_to_nats_lem client (config ∷ rest) cs h =
    elim (Result-cases (answer client config rest cs)) [
      | inl (nc, e) ↦
          let step = connect_ok client config rest cs nc e in
          let after = with_nats cs config.name nc in
          subst (λ r. All (λ (c : NatsConfig). HasNats r.0 c.name) (config ∷ rest)) (sym step)
            (
              connect_to_nats-keeps client rest after config.name
                  (HasNats-with_nats_self cs config.name nc),
              connect_to_nats_lem client rest after (rw step at h),
            )
      | inr (x, e) ↦
          absurd (failed x (ap (λ r. r.1) (sym (connect_err client config rest cs x e)) ∙ h))
    ]
  where
    failed : (x : Error) → ◌≡◌ {A = Option Error} (some x) none → ⊥
    failed x p = cc
