-- ===== src/Tests/Samples.antt =====
-- A small installation: a NATS connection, a streaming connection over it, and two connectors.
use nats_replicator.Prelude.{eqb, if◌then◌else◌, String, true, false, none, some, [], ◌∷◌}
use nats_replicator.Prelude.Int.{pos}
use nats_replicator.Result.{ok}
use nats_replicator.Conf.{
  NatsConfig, NatsStreamingConfig, ConnectorConfig, NatsReplicatorConfig, TlsConf, nats_to_nats,
}
use nats_replicator.Client.{Client}
use nats_replicator.Nats.{Connections}
use nats_replicator.Connector.{Connector, stan2stan, nats2nats}
use nats_replicator.Stats.{ConnectorStatsHolder}
use nats_replicator.Monitoring.{Network}
use nats_replicator.State.{Server}
use nats_replicator.Tests.Numbers.{nat_float}

abbrev pub client : Client
client = record {
  nats_connect = λ servers options. ok 1;
  connected_url = λ nc. "nats://localhost:4222";
  subscribe = λ nc subject. ok 7;
  queue_subscribe = λ nc subject queue. ok 8;
  stan_connect = λ cluster id options. ok 2;
  stan_subscribe = λ sc channel options. ok 9;
  next_id = λ n. if eqb n 0 then "N0" else if eqb n 1 then "N1" else "N2";
  default_max_reconnect = pos 60;
  default_reconnect_wait = pos 2000000000;
  default_timeout = pos 2000000000;
  default_ack_wait = pos 30000000000;
  default_max_pub_acks_inflight = pos 16384;
  default_connect_wait = pos 2000000000;
  default_ping_max_out = pos 3;
  default_ping_interval = pos 5;
  wide_lower = λ c. c;
}

abbrev pub network : Network
network = record {
  load_key_pair = λ cert key. none;
  listen_tls = λ host_port. ok (5, 443);
  listen = λ host_port. ok (5, 59744);
}

abbrev no_tls : TlsConf
no_tls = record { key = ""; cert = ""; root = "" }

abbrev pub nats_one : NatsConfig
nats_one = record {
  name = "nats";
  servers = "localhost:4222" ∷ [];
  connect_timeout = pos 5000;
  reconnect_wait = pos 5000;
  max_reconnects = pos 5;
  no_random = false;
  no_echo = true;
  tls = no_tls;
  user_credentials = "";
  client_name = "";
}

abbrev pub stan_one : NatsStreamingConfig
stan_one = record {
  name = "stan";
  cluster_id = "test-cluster";
  client_id = "replicator_one";
  pub_ack_wait = pos 0;
  discover_prefix = "";
  max_pub_acks_inflight = pos 0;
  connect_wait = pos 0;
  ping_interval = pos 0;
  max_pings = pos 0;
  nats_connection = "nats";
}

abbrev pub stan_config : ConnectorConfig
stan_config = record {
  id = "alpha";
  type = "stanToSTAN";
  incoming_connection = "stan";
  outgoing_connection = "stan";
  incoming_channel = "in";
  incoming_durable_name = "durable";
  incoming_start_at_sequence = pos 4;
  incoming_start_at_time = pos 1553090000;
  incoming_max_inflight = pos 10;
  incoming_ack_wait = pos 5000;
  incoming_subject = "";
  incoming_queue_name = "";
  outgoing_channel = "out";
  outgoing_subject = "";
}

abbrev pub nats_config : ConnectorConfig
nats_config = record stan_config {
  id = "";
  type = nats_to_nats;
  incoming_connection = "nats";
  outgoing_connection = "nats";
  incoming_subject = "in";
  outgoing_subject = "out";
}

abbrev pub replicator_config : NatsReplicatorConfig
replicator_config = record {
  reconnect_interval = pos 5000;
  logging = record {
    hide = false;
    time = true;
    debug = false;
    trace = false;
    colors = true;
    pid = false;
  };
  nats = nats_one ∷ [];
  stan = stan_one ∷ [];
  monitoring = record {
    http_host = "";
    http_port = pos 9090;
    https_port = pos 0;
    tls = no_tls;
    read_timeout = pos 5000;
    write_timeout = pos 5000;
  };
  connect = stan_config ∷ nats_config ∷ [];
}

abbrev pub connections : Connections
connections = record { nats = ("nats", some 1) ∷ []; stan = ("stan", some 2) ∷ [] }

-- A holder with the given id, before any message.
abbrev pub holder : String → ConnectorStatsHolder
holder id = record {
  stats = record {
    name = "Stan:in to Stan:out";
    id = id;
    connected = false;
    connects = 0;
    disconnects = 0;
    bytes_in = 0;
    bytes_out = 0;
    messages_in = 0;
    messages_out = 0;
    request_count = 0;
    moving_average = 0;
    quintile50 = 0;
    quintile75 = 0;
    quintile90 = 0;
    quintile95 = 0;
  };
  histogram = record { bins = []; max_bins = 60; total = 0 };
}

abbrev pub stan_connector : Connector
stan_connector = record {
  kind = stan2stan;
  config = stan_config;
  stats = holder "alpha";
  subscription = none;
}

abbrev pub nats_connector : Connector
nats_connector = record {
  kind = nats2nats;
  config = nats_config;
  stats = holder "N1";
  subscription = some (record { handle = 7; target = 1 });
}

-- Before Start, and at work with a stopped streaming connector that waits for its restart.
abbrev pub fresh : Server
fresh = record {
  running = false;
  start_time = 0;
  config = replicator_config;
  connections = record { nats = []; stan = [] };
  connectors = [];
  need_reconnect = [];
  connector_locked = false;
  cancel = 0;
  monitor = record { http_req_stats = none; listener = none; http = none; monitoring_url = "" };
  effects = [];
}

abbrev pub working : Server
working = record fresh {
  running = true;
  connections = connections;
  connectors = stan_connector ∷ nats_connector ∷ [];
  need_reconnect = ("alpha", 0) ∷ [];
  monitor = record {
    http_req_stats = some (("/", 0) ∷ ("/varz", 3) ∷ ("/healthz", 0) ∷ []);
    listener = some 5;
    http = some 5;
    monitoring_url = "";
  };
}
