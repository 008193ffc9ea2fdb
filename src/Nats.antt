-- ===== src/Nats.antt =====
-- server/core/nats.go: the shared connections to NATS and to NATS streaming. The lock `natsLock`
-- makes each method one step.
pub mod Connect
pub mod Streams
use nats_replicator.Prelude.{
  ℕ, String, ◌==◌, Bool, true, false, not, ◌&&◌, Option, none, some, List, [], ◌∷◌, ◌++◌,
  if◌then◌else◌,
}
use nats_replicator.Prelude.Int.{ℤ, is_positive, is_zero, milliseconds}
use nats_replicator.Prelude.Assoc.{Assoc, lookup, insert, delete}
use nats_replicator.Result.{Error, Result, ok, err, stan_requires_nats}
use nats_replicator.Conf.{NatsConfig, NatsStreamingConfig}
use nats_replicator.Client.{
  Client, NatsOption, StanOptions, max_reconnects, reconnect_wait, timeout, dont_randomize, no_echo,
  root_cas, client_cert, user_credentials, client_name,
}

-- The maps `nats` and `stan` of NATSReplicator; a value may be nil.
pub record Connections : Type 0 where
  pub nats : Assoc (Option ℕ)
  pub stan : Assoc (Option ℕ)

-- An entry of a map, nil where there is none.
abbrev pub pointer : Option (Option ℕ) → Option ℕ
pointer none = none
pointer (some p) = p

-- NATS
unfoldable pub nats_conn : Connections → String → Option ℕ
nats_conn cs name = pointer (lookup name cs.nats)

-- Stan
unfoldable pub stan_conn : Connections → String → Option ℕ
stan_conn cs name = pointer (lookup name cs.stan)

-- CheckNATS
unfoldable pub check_nats : Client → Connections → String → Bool
unfolding nats_conn
check_nats client cs name = elim (nats_conn cs name) [
  | none ↦ false
  | some nc ↦ not (client.connected_url nc == "")
]

-- CheckStan
unfoldable pub check_stan : Connections → String → Bool
unfolding stan_conn
check_stan cs name = elim (stan_conn cs name) [ none ↦ false | some sc ↦ true ]

abbrev when {ℓ} : {A : Type ℓ} → Bool → A → List A
when true a = a ∷ []
when false a = []

-- The options of `nats.Connect` in connectToNATS, without the handlers.
unfoldable pub nats_options : Client → NatsConfig → List NatsOption
unfolding milliseconds
nats_options client config =
    max_reconnects (
      if is_positive config.max_reconnects
      then config.max_reconnects
      else client.default_max_reconnect)
    ∷ reconnect_wait (
        if is_positive config.reconnect_wait
        then milliseconds config.reconnect_wait
        else client.default_reconnect_wait)
    ∷ timeout (
        if is_positive config.connect_timeout
        then milliseconds config.connect_timeout
        else client.default_timeout)
    ∷ (when config.no_random dont_randomize
        ++ (when config.no_echo no_echo
            ++ (when (not (config.tls.root == "")) (root_cas config.tls.root)
                ++ (when (not (config.tls.cert == "")) (client_cert config.tls.cert config.tls.key)
                    ++ (when (not (config.user_credentials == ""))
                          (user_credentials config.user_credentials)
                        ++ when (not (config.client_name == ""))
                            (client_name config.client_name))))))

-- connectToNATS: the loop over the configurations. A failure ends it, and what was connected
-- before stays in the map.
unfoldable pub connect_to_nats : Client → List NatsConfig → Connections → Connections × Option Error
connect_to_nats client [] cs = (cs, none)
connect_to_nats client (config ∷ rest) cs =
    elim (client.nats_connect config.servers (nats_options client config)) [
      | err e ↦ (cs, some e)
      | ok nc ↦
          connect_to_nats client rest (record cs { nats = insert config.name (some nc) cs.nats })
    ]

-- The options of `stan.Connect` in connectToSTAN.
unfoldable pub stan_options : Client → NatsStreamingConfig → ℕ → StanOptions
unfolding milliseconds
stan_options client config nc = record {
  nats_conn = nc;
  pub_ack_wait =
      if is_zero config.pub_ack_wait
      then client.default_ack_wait
      else milliseconds config.pub_ack_wait;
  max_pub_acks_inflight =
      if is_positive config.max_pub_acks_inflight
      then config.max_pub_acks_inflight
      else client.default_max_pub_acks_inflight;
  connect_wait =
      if is_positive config.connect_wait
      then milliseconds config.connect_wait
      else client.default_connect_wait;
  ping_interval =
      if is_positive config.ping_interval
      then config.ping_interval
      else client.default_ping_interval;
  ping_max_out =
      if is_positive config.max_pings then config.max_pings else client.default_ping_max_out;
  discover_prefix =
      if config.discover_prefix == "" then "_STAN.discover" else config.discover_prefix;
}

-- The body of the loop of connectToSTAN: the streaming connection that is to be added, if any.
unfoldable pub connect_stan : Client → NatsStreamingConfig → Connections → Result (Option ℕ)
unfolding stan_conn nats_conn stan_options
connect_stan client config cs = elim (stan_conn cs config.name) [
  | some sc ↦ ok none
  | none ↦ if config.cluster_id == "" then ok none else elim (nats_conn cs config.nats_connection) [
    | none ↦ err (stan_requires_nats config.name config.nats_connection)
    | some nc ↦
        elim (client.stan_connect config.cluster_id config.client_id
          (stan_options client config nc)) [ err e ↦ err e | ok sc ↦ ok (some sc) ]
  ]
]

abbrev add_stan : String → Option ℕ → Connections → Connections
add_stan name none cs = cs
add_stan name (some sc) cs = record cs { stan = insert name (some sc) cs.stan }

-- connectToSTAN
unfoldable pub connect_to_stan :
    Client → List NatsStreamingConfig → Connections → Connections × Option Error
connect_to_stan client [] cs = (cs, none)
connect_to_stan client (config ∷ rest) cs = elim (connect_stan client config cs) [
  | err e ↦ (cs, some e)
  | ok sc ↦ connect_to_stan client rest (add_stan config.name sc cs)
]

-- The part under `natsLock` of the handler for a lost streaming connection.
unfoldable pub forget_stan : String → Connections → Connections
forget_stan name cs = record cs { stan = delete name cs.stan }
