-- ===== src/Connector.antt =====
-- server/core/connector.go: what the connectors share. The four kinds differ in their methods, in
-- the children of this module; a connector is one record with its kind.
pub mod Options
pub mod NatsToNats
pub mod NatsToStan
pub mod StanToNats
pub mod StanToStan
pub mod Lifecycle
pub mod Methods
use nats_replicator.Prelude.{
  ℕ, String, ◌==◌, Bool, true, false, not, ◌&&◌, Option, none, some, List, [], ◌∷◌, ◌++◌,
  if◌then◌else◌,
}
use Prim.Native.String.{◌++◌ as concat}
use nats_replicator.Prelude.Int.{ℤ, is_positive, is_zero, is_minus_one, milliseconds, as_uint64}
use nats_replicator.Prelude.Text.{to_lower}
use nats_replicator.Float.{Float}
use nats_replicator.Result.{Error, Result, ok, err, unknown_connector_type}
use nats_replicator.Conf.{ConnectorConfig, nats_to_nats, nats_to_stan, stan_to_nats, stan_to_stan}
use nats_replicator.Client.{
  Client, Effect, SubscriptionOption, durable_name, start_at_time, start_with_last_received,
  start_at_sequence, deliver_all_available, max_inflight, ack_wait, set_manual_ack_mode,
}
use nats_replicator.Stats.{ConnectorStatsHolder, new_connector_stats_holder}

pub data Kind : Type 0 where
  nats2nats nats2stan stan2nats stan2stan : Kind

-- A subscription of a client library, with the outgoing connection that its callback has captured.
pub record Subscription : Type 0 where
  pub handle : ℕ
  pub target : ℕ

module _ ⦃fl : Float⦄ where
  -- ReplicatorConnector with the field `subscription` or `sub` of the four types.
  pub record Connector : Type 0 where
    pub kind : Kind
    pub config : ConnectorConfig
    pub stats : ConnectorStatsHolder
    pub subscription : Option Subscription

  -- ID, String
  abbrev pub connector_id : Connector → String
  connector_id conn = conn.stats.stats.id

  abbrev pub connector_name : Connector → String
  connector_name conn = conn.stats.stats.name

  -- What a callback did: the connector after it, the calls that it made, and the error with which
  -- it called ConnectorError, if it did.
  pub record Handled : Type 0 where
    pub connector : Connector
    pub effects : List Effect
    pub failure : Option Error

  -- init, on the new connector of a kind; `n` says which call of nuid.Next it would make.
  unfoldable pub init : Client → ℕ → Kind → ConnectorConfig → String → Connector
  unfolding new_connector_stats_holder
  init client n kind config name =
      let id = if config.id == "" then client.next_id n else config.id in
      record {
        kind = kind;
        config = config;
        stats = new_connector_stats_holder name id;
        subscription = none;
      }

  -- fmt.Sprintf("%s%s to %s%s", …)
  abbrev describe : String → String → String → String → String
  describe from incoming to outgoing = concat from (concat incoming (concat to outgoing))

  -- NewNATS2NATSConnector
  unfoldable pub new_nats2nats : Client → ℕ → ConnectorConfig → Connector
  unfolding init
  new_nats2nats client n c =
      init client n nats2nats c (describe "NATS:" c.incoming_subject " to NATS:" c.outgoing_subject)

  -- NewNATS2StanConnector
  unfoldable pub new_nats2stan : Client → ℕ → ConnectorConfig → Connector
  unfolding init
  new_nats2stan client n c =
      init client n nats2stan c (describe "NATS:" c.incoming_subject " to Stan:" c.outgoing_channel)

  -- NewStan2NATSConnector
  unfoldable pub new_stan2nats : Client → ℕ → ConnectorConfig → Connector
  unfolding init
  new_stan2nats client n c =
      init client n stan2nats c (describe "Stan:" c.incoming_channel " to NATS:" c.outgoing_subject)

  -- NewStan2StanConnector
  unfoldable pub new_stan2stan : Client → ℕ → ConnectorConfig → Connector
  unfolding init
  new_stan2stan client n c =
      init client n stan2stan c (describe "Stan:" c.incoming_channel " to Stan:" c.outgoing_channel)

  -- CreateConnector
  unfoldable pub create_connector : Client → ℕ → ConnectorConfig → Result Connector
  create_connector client n config =
      let lower = to_lower client.wide_lower in
      let type = lower config.type in
      if type == lower nats_to_nats
      then ok (new_nats2nats client n config)
      else if type == lower stan_to_nats
      then ok (new_stan2nats client n config)
      else if type == lower nats_to_stan
      then ok (new_nats2stan client n config)
      else if type == lower stan_to_stan
      then ok (new_stan2stan client n config)
      else err (unknown_connector_type config.type)

-- The start position that createSubscriberOptions asks for.
unfoldable pub start_option : ConnectorConfig → SubscriptionOption
unfolding as_uint64
start_option config =
    if not (is_zero config.incoming_start_at_time)
    then start_at_time config.incoming_start_at_time
    else if is_minus_one config.incoming_start_at_sequence
    then start_with_last_received
    else if is_positive config.incoming_start_at_sequence
    then start_at_sequence (as_uint64 config.incoming_start_at_sequence)
    else deliver_all_available

abbrev option_if : Bool → SubscriptionOption → List SubscriptionOption
option_if true o = o ∷ []
option_if false o = []

-- createSubscriberOptions
unfoldable pub create_subscriber_options : ConnectorConfig → List SubscriptionOption
unfolding start_option milliseconds
create_subscriber_options config =
    option_if (not (config.incoming_durable_name == "")) (durable_name config.incoming_durable_name)
    ++ (start_option config
        ∷ (option_if (not (is_zero config.incoming_max_inflight))
              (max_inflight config.incoming_max_inflight)
            ++ (option_if (not (is_zero config.incoming_ack_wait))
                  (ack_wait (milliseconds config.incoming_ack_wait))
                ++ set_manual_ack_mode ∷ [])))
