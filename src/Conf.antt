-- ===== src/Conf.antt =====
-- server/conf/conf.go: the configuration of the replicator. A Go `int` or `int64` is an integer.
pub mod Values
pub mod Parse
pub mod Kept
pub mod Printed
pub mod AnyCase
pub mod Order
pub mod Structs
pub mod Load
pub mod Loaded
pub mod Paths
pub mod Tls
use nats_replicator.Prelude.{String, Bool, true, false, List, []}
use nats_replicator.Prelude.Int.{ℤ, pos}

-- NATSToNATS, NATSToStan, StanToNATS, StanToStan
abbrev pub nats_to_nats : String
nats_to_nats = "NATSToNATS"

abbrev pub nats_to_stan : String
nats_to_stan = "NATSToStan"

abbrev pub stan_to_nats : String
stan_to_nats = "StanToNATS"

abbrev pub stan_to_stan : String
stan_to_stan = "StanToStan"

-- Config of server/logging/logging.go
pub record LoggingConfig : Type 0 where
  pub hide : Bool
  pub time : Bool
  pub debug : Bool
  pub trace : Bool
  pub colors : Bool
  pub pid : Bool

pub record TlsConf : Type 0 where
  pub key : String
  pub cert : String
  pub root : String

pub record HttpConfig : Type 0 where
  pub http_host : String
  pub http_port : ℤ
  pub https_port : ℤ
  pub tls : TlsConf
  pub read_timeout : ℤ
  pub write_timeout : ℤ

pub record NatsConfig : Type 0 where
  pub name : String
  pub servers : List String
  pub connect_timeout : ℤ
  pub reconnect_wait : ℤ
  pub max_reconnects : ℤ
  pub no_random : Bool
  pub no_echo : Bool
  pub tls : TlsConf
  pub user_credentials : String
  pub client_name : String

pub record NatsStreamingConfig : Type 0 where
  pub name : String
  pub cluster_id : String
  pub client_id : String
  pub pub_ack_wait : ℤ
  pub discover_prefix : String
  pub max_pub_acks_inflight : ℤ
  pub connect_wait : ℤ
  pub ping_interval : ℤ
  pub max_pings : ℤ
  pub nats_connection : String

pub record ConnectorConfig : Type 0 where
  pub id : String
  pub type : String
  pub incoming_connection : String
  pub outgoing_connection : String
  pub incoming_channel : String
  pub incoming_durable_name : String
  pub incoming_start_at_sequence : ℤ
  pub incoming_start_at_time : ℤ
  pub incoming_max_inflight : ℤ
  pub incoming_ack_wait : ℤ
  pub incoming_subject : String
  pub incoming_queue_name : String
  pub outgoing_channel : String
  pub outgoing_subject : String

pub record NatsReplicatorConfig : Type 0 where
  pub reconnect_interval : ℤ
  pub logging : LoggingConfig
  pub nats : List NatsConfig
  pub stan : List NatsStreamingConfig
  pub monitoring : HttpConfig
  pub connect : List ConnectorConfig

-- DefaultConfig; what the literal leaves out has its zero value.
unfoldable pub default_config : NatsReplicatorConfig
default_config = record {
  reconnect_interval = pos 5000;
  logging = record {
    hide = false;
    time = true;
    debug = false;
    trace = false;
    colors = true;
    pid = false;
  };
  nats = [];
  stan = [];
  monitoring = record {
    http_host = "";
    http_port = pos 0;
    https_port = pos 0;
    tls = record { key = ""; cert = ""; root = "" };
    read_timeout = pos 5000;
    write_timeout = pos 5000;
  };
  connect = [];
}
