-- ===== src/Conf/Structs.antt =====
-- The structs of server/conf/conf.go as reflection shows them: their fields in order, with the names
-- and the tags of the source; and the struct whose fields they are.
use nats_replicator.Prelude.{String, ◌==◌, Bool, true, false, List, [], ◌∷◌, if◌then◌else◌}
use nats_replicator.Prelude.Int.{ℤ, pos}
use nats_replicator.Conf.{
  LoggingConfig, TlsConf, HttpConfig, NatsConfig, NatsStreamingConfig, ConnectorConfig,
  NatsReplicatorConfig,
}
use nats_replicator.Conf.Values.{
  Fields, end, field, Content, bool_field, int_field, string_field, strings_field, struct_field,
  structs_field, other_field, Structs, no_structs, struct,
}

-- The content of a field of that name.
abbrev content_of : String → Fields → Content
content_of name end = other_field
content_of name (field n t c content rest) = if n == name then content else content_of name rest

abbrev as_bool : Content → Bool
as_bool (bool_field b) = b
as_bool _ = false

abbrev as_int : Content → ℤ
as_int (int_field z) = z
as_int _ = pos 0

abbrev as_string : Content → String
as_string (string_field s) = s
as_string _ = ""

abbrev as_strings : Content → List String
as_strings (strings_field ss) = ss
as_strings _ = []

abbrev as_struct : Content → Fields
as_struct (struct_field fields) = fields
as_struct _ = end

abbrev pub read_all : {A : Type 0} → (Fields → A) → Structs → List A
read_all read no_structs = []
read_all read (struct fields more) = read fields ∷ read_all read more

abbrev as_structs : {A : Type 0} → (Fields → A) → Content → List A
as_structs read (structs_field zero_value ss) = read_all read ss
as_structs read _ = []

abbrev pub structs_of : {A : Type 0} → (A → Fields) → List A → Structs
structs_of show [] = no_structs
structs_of show (c ∷ cs) = struct (show c) (structs_of show cs)

abbrev pub logging_fields : LoggingConfig → Fields
logging_fields c = field "Hide" "" true (bool_field c.hide) (
    field "Time" "" true (bool_field c.time) (
      field "Debug" "" true (bool_field c.debug) (
        field "Trace" "" true (bool_field c.trace) (
          field "Colors" "" true (bool_field c.colors)
            (field "PID" "" true (bool_field c.pid) (end))))))

abbrev pub logging_of : Fields → LoggingConfig
logging_of fields = record {
  hide = as_bool (content_of "Hide" fields);
  time = as_bool (content_of "Time" fields);
  debug = as_bool (content_of "Debug" fields);
  trace = as_bool (content_of "Trace" fields);
  colors = as_bool (content_of "Colors" fields);
  pid = as_bool (content_of "PID" fields);
}

abbrev pub tls_fields : TlsConf → Fields
tls_fields c =
    field "Key" "" true (string_field c.key) (
      field "Cert" "" true (string_field c.cert) (field "Root" "" true (string_field c.root) (end)))

abbrev pub tls_of : Fields → TlsConf
tls_of fields = record {
  key = as_string (content_of "Key" fields);
  cert = as_string (content_of "Cert" fields);
  root = as_string (content_of "Root" fields);
}

abbrev pub http_fields : HttpConfig → Fields
http_fields c = field "HTTPHost" "http_host" true (string_field c.http_host) (
    field "HTTPPort" "http_port" true (int_field c.http_port) (
      field "HTTPSPort" "https_port" true (int_field c.https_port) (
        field "TLS" "" true (struct_field (tls_fields c.tls)) (
          field "ReadTimeout" "read_timeout" true (int_field c.read_timeout)
            (field "WriteTimeout" "write_timeout" true (int_field c.write_timeout) (end))))))

abbrev pub http_of : Fields → HttpConfig
http_of fields = record {
  http_host = as_string (content_of "HTTPHost" fields);
  http_port = as_int (content_of "HTTPPort" fields);
  https_port = as_int (content_of "HTTPSPort" fields);
  tls = tls_of (as_struct (content_of "TLS" fields));
  read_timeout = as_int (content_of "ReadTimeout" fields);
  write_timeout = as_int (content_of "WriteTimeout" fields);
}

abbrev pub zero_nats : NatsConfig
zero_nats = record {
  name = "";
  servers = [];
  connect_timeout = pos 0;
  reconnect_wait = pos 0;
  max_reconnects = pos 0;
  no_random = false;
  no_echo = false;
  tls = record { key = ""; cert = ""; root = "" };
  user_credentials = "";
  client_name = "";
}

abbrev pub nats_fields : NatsConfig → Fields
nats_fields c = field "Name" "" true (string_field c.name) (
    field "Servers" "" true (strings_field c.servers) (
      field "ConnectTimeout" "connect_timeout" true (int_field c.connect_timeout) (
        field "ReconnectWait" "reconnect_wait" true (int_field c.reconnect_wait) (
          field "MaxReconnects" "max_reconnects" true (int_field c.max_reconnects) (
            field "NoRandom" "no_random" true (bool_field c.no_random) (
              field "NoEcho" "no_echo" true (bool_field c.no_echo) (
                field "TLS" "" true (struct_field (tls_fields c.tls)) (
                  field "UserCredentials" "user_credentials" true (string_field c.user_credentials)
                    (field "ClientName" "client_name" true (string_field c.client_name)
                      (end))))))))))

abbrev pub nats_of : Fields → NatsConfig
nats_of fields = record {
  name = as_string (content_of "Name" fields);
  servers = as_strings (content_of "Servers" fields);
  connect_timeout = as_int (content_of "ConnectTimeout" fields);
  reconnect_wait = as_int (content_of "ReconnectWait" fields);
  max_reconnects = as_int (content_of "MaxReconnects" fields);
  no_random = as_bool (content_of "NoRandom" fields);
  no_echo = as_bool (content_of "NoEcho" fields);
  tls = tls_of (as_struct (content_of "TLS" fields));
  user_credentials = as_string (content_of "UserCredentials" fields);
  client_name = as_string (content_of "ClientName" fields);
}

abbrev pub zero_streaming : NatsStreamingConfig
zero_streaming = record {
  name = "";
  cluster_id = "";
  client_id = "";
  pub_ack_wait = pos 0;
  discover_prefix = "";
  max_pub_acks_inflight = pos 0;
  connect_wait = pos 0;
  ping_interval = pos 0;
  max_pings = pos 0;
  nats_connection = "";
}

abbrev pub streaming_fields : NatsStreamingConfig → Fields
streaming_fields c = field "Name" "" true (string_field c.name) (
    field "ClusterID" "cluster_id" true (string_field c.cluster_id) (
      field "ClientID" "client_id" true (string_field c.client_id) (
        field "PubAckWait" "pub_ack_wait" true (int_field c.pub_ack_wait) (
          field "DiscoverPrefix" "discovery_prefix" true (string_field c.discover_prefix) (
            field "MaxPubAcksInflight" "max_pubacks_inflight" true
              (int_field c.max_pub_acks_inflight)
              (field "ConnectWait" "connect_wait" true (int_field c.connect_wait) (
                field "PingInterval" "ping_interval" true (int_field c.ping_interval) (
                  field "MaxPings" "max_pings" true (int_field c.max_pings) (
                    field "NATSConnection" "nats_connection" true (string_field c.nats_connection)
                      (end))))))))))

abbrev pub streaming_of : Fields → NatsStreamingConfig
streaming_of fields = record {
  name = as_string (content_of "Name" fields);
  cluster_id = as_string (content_of "ClusterID" fields);
  client_id = as_string (content_of "ClientID" fields);
  pub_ack_wait = as_int (content_of "PubAckWait" fields);
  discover_prefix = as_string (content_of "DiscoverPrefix" fields);
  max_pub_acks_inflight = as_int (content_of "MaxPubAcksInflight" fields);
  connect_wait = as_int (content_of "ConnectWait" fields);
  ping_interval = as_int (content_of "PingInterval" fields);
  max_pings = as_int (content_of "MaxPings" fields);
  nats_connection = as_string (content_of "NATSConnection" fields);
}

abbrev pub zero_connector : ConnectorConfig
zero_connector = record {
  id = "";
  type = "";
  incoming_connection = "";
  outgoing_connection = "";
  incoming_channel = "";
  incoming_durable_name = "";
  incoming_start_at_sequence = pos 0;
  incoming_start_at_time = pos 0;
  incoming_max_inflight = pos 0;
  incoming_ack_wait = pos 0;
  incoming_subject = "";
  incoming_queue_name = "";
  outgoing_channel = "";
  outgoing_subject = "";
}

abbrev pub connector_fields : ConnectorConfig → Fields
connector_fields c = field "ID" "" true (string_field c.id) (
    field "Type" "" true (string_field c.type) (
      field "IncomingConnection" "incoming_connection" true (string_field c.incoming_connection) (
        field "OutgoingConnection" "outgoing_connection" true (string_field c.outgoing_connection) (
          field "IncomingChannel" "incoming_channel" true (string_field c.incoming_channel) (
            field "IncomingDurableName" "incoming_durable_name" true
              (string_field c.incoming_durable_name)
              (field "IncomingStartAtSequence" "incoming_startat_sequence" true
                (int_field c.incoming_start_at_sequence)
                (field "IncomingStartAtTime" "incoming_startat_time" true
                  (int_field c.incoming_start_at_time)
                  (field "IncomingMaxInflight" "incoming_max_in_flight" true
                    (int_field c.incoming_max_inflight)
                    (field "IncomingAckWait" "incoming_ack_wait" true
                      (int_field c.incoming_ack_wait)
                      (field "IncomingSubject" "incoming_subject" true
                        (string_field c.incoming_subject)
                        (field "IncomingQueueName" "incoming_queue_name" true
                          (string_field c.incoming_queue_name)
                          (field "OutgoingChannel" "outgoing_channel" true
                            (string_field c.outgoing_channel)
                            (field "OutgoingSubject" "outgoing_subject" true
                              (string_field c.outgoing_subject) (end))))))))))))))

abbrev pub connector_of : Fields → ConnectorConfig
connector_of fields = record {
  id = as_string (content_of "ID" fields);
  type = as_string (content_of "Type" fields);
  incoming_connection = as_string (content_of "IncomingConnection" fields);
  outgoing_connection = as_string (content_of "OutgoingConnection" fields);
  incoming_channel = as_string (content_of "IncomingChannel" fields);
  incoming_durable_name = as_string (content_of "IncomingDurableName" fields);
  incoming_start_at_sequence = as_int (content_of "IncomingStartAtSequence" fields);
  incoming_start_at_time = as_int (content_of "IncomingStartAtTime" fields);
  incoming_max_inflight = as_int (content_of "IncomingMaxInflight" fields);
  incoming_ack_wait = as_int (content_of "IncomingAckWait" fields);
  incoming_subject = as_string (content_of "IncomingSubject" fields);
  incoming_queue_name = as_string (content_of "IncomingQueueName" fields);
  outgoing_channel = as_string (content_of "OutgoingChannel" fields);
  outgoing_subject = as_string (content_of "OutgoingSubject" fields);
}

abbrev pub replicator_fields : NatsReplicatorConfig → Fields
replicator_fields c =
    field "ReconnectInterval" "reconnect_interval" true (int_field c.reconnect_interval) (
      field "Logging" "" true (struct_field (logging_fields c.logging)) (
        field "NATS" "" true (structs_field (nats_fields zero_nats) (structs_of nats_fields c.nats))
          (field "STAN" "" true
            (structs_field (streaming_fields zero_streaming) (structs_of streaming_fields c.stan))
            (field "Monitoring" "" true (struct_field (http_fields c.monitoring)) (
              field "Connect" "" true
                (structs_field (connector_fields zero_connector)
                  (structs_of connector_fields c.connect))
                (end))))))

abbrev pub replicator_of : Fields → NatsReplicatorConfig
replicator_of fields = record {
  reconnect_interval = as_int (content_of "ReconnectInterval" fields);
  logging = logging_of (as_struct (content_of "Logging" fields));
  nats = as_structs nats_of (content_of "NATS" fields);
  stan = as_structs streaming_of (content_of "STAN" fields);
  monitoring = http_of (as_struct (content_of "Monitoring" fields));
  connect = as_structs connector_of (content_of "Connect" fields);
}
