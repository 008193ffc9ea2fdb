-- ===== src/Client.antt =====
-- The boundary to the client libraries nats.go, stan.go and nuid, which the program calls and does
-- not implement. A connection or a subscription of theirs is a handle; what a call answers is a
-- field of `Client`, and each step of the model takes a `Client` of its own, since the servers may
-- answer the same call otherwise the next time.
use Prim.Native.Char.{Char}
use nats_replicator.Prelude.{ℕ, String, List}
use nats_replicator.Prelude.Int.{ℤ}
use nats_replicator.Result.{Result}

-- stan.SubscriptionOption
pub data SubscriptionOption : Type 0 where
  durable_name : String → SubscriptionOption
  start_at_time : ℤ → SubscriptionOption  -- seconds
  start_with_last_received : SubscriptionOption
  start_at_sequence : ℕ → SubscriptionOption
  deliver_all_available : SubscriptionOption
  max_inflight : ℤ → SubscriptionOption
  ack_wait : ℤ → SubscriptionOption  -- nanoseconds
  set_manual_ack_mode : SubscriptionOption

-- nats.Option, but for the handlers, which the server fixes
pub data NatsOption : Type 0 where
  max_reconnects : ℤ → NatsOption
  reconnect_wait : ℤ → NatsOption
  timeout : ℤ → NatsOption
  dont_randomize : NatsOption
  no_echo : NatsOption
  root_cas : String → NatsOption
  client_cert : String → String → NatsOption
  user_credentials : String → NatsOption
  client_name : String → NatsOption

-- stan.Options, as far as the program sets them
pub record StanOptions : Type 0 where
  pub nats_conn : ℕ
  pub pub_ack_wait : ℤ
  pub max_pub_acks_inflight : ℤ
  pub connect_wait : ℤ
  pub ping_interval : ℤ
  pub ping_max_out : ℤ
  pub discover_prefix : String

-- nats.Msg, stan.Msg: the payload, and which message it is.
pub record Message : Type 0 where
  pub number : ℕ
  pub payload : List ℕ

-- What the program asks of a client library, besides the calls that answer.
pub data Effect : Type 0 where
  publish : ℕ → String → List ℕ → Effect  -- nc.Publish
  publish_async : ℕ → String → List ℕ → Effect  -- sc.PublishAsync
  ack : Message → Effect  -- msg.Ack
  unsubscribe : ℕ → Effect  -- (*nats.Subscription).Unsubscribe
  close_subscription : ℕ → Effect  -- stan.Subscription.Close
  close_nats : ℕ → Effect
  close_stan : ℕ → Effect

pub record Client : Type 0 where
  -- nats.Connect, *nats.Conn
  pub nats_connect : List String → List NatsOption → Result ℕ
  pub connected_url : ℕ → String
  pub subscribe : ℕ → String → Result ℕ
  pub queue_subscribe : ℕ → String → String → Result ℕ
  -- stan.Connect, stan.Conn
  pub stan_connect : String → String → StanOptions → Result ℕ
  pub stan_subscribe : ℕ → String → List SubscriptionOption → Result ℕ
  -- nuid.Next, for each connector that it names
  pub next_id : ℕ → String
  -- the defaults of the libraries
  pub default_max_reconnect : ℤ
  pub default_reconnect_wait : ℤ
  pub default_timeout : ℤ
  pub default_ack_wait : ℤ
  pub default_max_pub_acks_inflight : ℤ
  pub default_connect_wait : ℤ
  pub default_ping_max_out : ℤ
  pub default_ping_interval : ℤ
  -- unicode.ToLower above ASCII
  pub wide_lower : Char → Char
