-- ===== src/Connector/Options.antt =====
-- createSubscriberOptions and CreateConnector of server/core/connector.go.
use Prim.Native.Char.{Char}
use nats_replicator.Prelude.{
  ℕ, String, ◌≡◌, refl, ◌∙◌, none, List, [], ◌∷◌, arith, ◌==◌, eq_iff, if◌then◌else◌,
}
use nats_replicator.Prelude.Int.{is_zero}
use nats_replicator.Prelude.Text.{to_lower}
use nats_replicator.Float.{Float}
use nats_replicator.Result.{ok}
use nats_replicator.Conf.{ConnectorConfig, nats_to_nats, nats_to_stan, stan_to_nats, stan_to_stan}
use nats_replicator.Client.{
  Client, SubscriptionOption, start_at_time, start_with_last_received, start_at_sequence,
  deliver_all_available, set_manual_ack_mode,
}
use nats_replicator.Connector.{
  Kind, nats2nats, nats2stan, stan2nats, stan2stan, Connector, connector_id, create_connector,
  create_subscriber_options, start_option, new_nats2nats, new_nats2stan, new_stan2nats,
  new_stan2stan,
}

-- The options of the list that set a start position, and those that set the way of acks.
abbrev pub start_positions : List SubscriptionOption → List SubscriptionOption
start_positions [] = []
start_positions (start_at_time t ∷ os) = start_at_time t ∷ start_positions os
start_positions (start_with_last_received ∷ os) = start_with_last_received ∷ start_positions os
start_positions (start_at_sequence n ∷ os) = start_at_sequence n ∷ start_positions os
start_positions (deliver_all_available ∷ os) = deliver_all_available ∷ start_positions os
start_positions (_ ∷ os) = start_positions os

abbrev pub manual_acks : List SubscriptionOption → List SubscriptionOption
manual_acks [] = []
manual_acks (set_manual_ack_mode ∷ os) = set_manual_ack_mode ∷ manual_acks os
manual_acks (_ ∷ os) = manual_acks os

-- Every streaming subscription has exactly one start position, which is the configured time if
-- there is one, whatever the sequence says; and its acks are manual.
pub create_subscriber_options_lem :
    (config : ConnectorConfig)
    → (start_positions (create_subscriber_options config)
        ≡ (if is_zero config.incoming_start_at_time
            then start_option config
            else start_at_time config.incoming_start_at_time)
          ∷ [])
      × (manual_acks (create_subscriber_options config) ≡ set_manual_ack_mode ∷ [])
unfolding create_subscriber_options
create_subscriber_options_lem config = (ground arith, ground arith)

module _ ⦃fl : Float⦄ where
  -- The constant of the configuration that names the kind.
  abbrev pub type_name : Kind → String
  type_name nats2nats = nats_to_nats
  type_name nats2stan = nats_to_stan
  type_name stan2nats = stan_to_nats
  type_name stan2stan = stan_to_stan

  -- A connector that was created is of the kind that its type names, up to the case of letters; it
  -- has its configuration, the id in it or else a new one, and no subscription yet.
  pub record Created (client : Client) (n : ℕ) (config : ConnectorConfig) (conn : Connector)
      : Type 0 where
    pub named :
        to_lower client.wide_lower config.type ≡ to_lower client.wide_lower (type_name conn.kind)
    pub configured : conn.config ≡ config
    pub id : connector_id conn ≡ (if config.id == "" then client.next_id n else config.id)
    pub unsubscribed : conn.subscription ≡ none

  -- A connector that CreateConnector made is of the kind that its type names, up to the case of
  -- letters; it has its configuration, the id in it or else a new one, and no subscription yet.
  pub create_connector-Created :
      (client : Client) (n : ℕ) (config : ConnectorConfig) (conn : Connector)
      → create_connector client n config ≡ ok conn
      → Created client n config conn
  unfolding create_connector new_nats2nats new_nats2stan new_stan2nats new_stan2stan
  create_connector-Created client n config conn h =
      let lower = to_lower client.wide_lower in
      ground (
        arith,
        eq_iff (lower config.type) (lower nats_to_nats),
        eq_iff (lower config.type) (lower stan_to_nats),
        eq_iff (lower config.type) (lower nats_to_stan),
        eq_iff (lower config.type) (lower stan_to_stan),
      )

  -- The constants in lower case, whatever the table says of other letters.
  abbrev lower_name : Kind → String
  lower_name nats2nats = "natstonats"
  lower_name nats2stan = "natstostan"
  lower_name stan2nats = "stantonats"
  lower_name stan2stan = "stantostan"

  lower_type_name :
      (wide : Char → Char) (kind : Kind) → to_lower wide (type_name kind) ≡ lower_name kind
  unfolding to_lower
  lower_type_name wide nats2nats = refl
  lower_type_name wide nats2stan = refl
  lower_type_name wide stan2nats = refl
  lower_type_name wide stan2stan = refl

  abbrev new_of : Kind → Client → ℕ → ConnectorConfig → Connector
  new_of nats2nats = new_nats2nats
  new_of nats2stan = new_nats2stan
  new_of stan2nats = new_stan2nats
  new_of stan2stan = new_stan2stan

  create_connector-new_of :
      (client : Client) (n : ℕ) (config : ConnectorConfig) (kind : Kind)
      → to_lower client.wide_lower config.type ≡ lower_name kind
      → create_connector client n config ≡ ok (new_of kind client n config)
  unfolding create_connector
  create_connector-new_of client n config nats2nats h =
      rw (h, lower_type_name client.wide_lower nats2nats) refl
  create_connector-new_of client n config stan2nats h =
      rw
        (
          h,
          lower_type_name client.wide_lower nats2nats,
          lower_type_name client.wide_lower stan2nats,
        )
        refl
  create_connector-new_of client n config nats2stan h =
      rw
        (
          h,
          lower_type_name client.wide_lower nats2nats,
          lower_type_name client.wide_lower stan2nats,
          lower_type_name client.wide_lower nats2stan,
        )
        refl
  create_connector-new_of client n config stan2stan h =
      rw
        (
          h,
          lower_type_name client.wide_lower nats2nats,
          lower_type_name client.wide_lower stan2nats,
          lower_type_name client.wide_lower nats2stan,
          lower_type_name client.wide_lower stan2stan,
        )
        refl

  kind-new_of :
      (kind : Kind) (client : Client) (n : ℕ) (config : ConnectorConfig)
      → (new_of kind client n config).kind ≡ kind
  unfolding new_nats2nats new_nats2stan new_stan2nats new_stan2stan
  kind-new_of nats2nats client n config = refl
  kind-new_of nats2stan client n config = refl
  kind-new_of stan2nats client n config = refl
  kind-new_of stan2stan client n config = refl

  -- A configured type that spells one of the four constants, in any case of letters, gives a
  -- connector of that kind.
  pub create_connector_any_case :
      (client : Client) (n : ℕ) (config : ConnectorConfig) (kind : Kind)
      → to_lower client.wide_lower config.type ≡ to_lower client.wide_lower (type_name kind)
      → (conn : Connector) × (create_connector client n config ≡ ok conn) × (conn.kind ≡ kind)
  create_connector_any_case client n config kind h = (
    new_of kind client n config,
    create_connector-new_of client n config kind (h ∙ lower_type_name client.wide_lower kind),
    kind-new_of kind client n config,
  )
