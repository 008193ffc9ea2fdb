-- ===== src/Conf/Loaded.antt =====
-- The configuration of the replicator, printed to entries, for load.go of server/conf.
use nats_replicator.Prelude.{String, ◌≡◌, refl, ap, ◌∙◌, Bool, none, List, [], ◌∷◌, arith}
use nats_replicator.Result.{ok}
use nats_replicator.Conf.{
  LoggingConfig, TlsConf, HttpConfig, NatsConfig, NatsStreamingConfig, ConnectorConfig,
  NatsReplicatorConfig,
}
use nats_replicator.Conf.Values.{Fields, Entries, find}
use nats_replicator.Conf.Parse.{Chars}
use nats_replicator.Conf.Structs.{
  logging_fields, tls_fields, http_fields, nats_fields, streaming_fields, connector_fields,
  replicator_fields, replicator_of, structs_of, read_all, nats_of, streaming_of, connector_of,
  zero_nats, zero_streaming, zero_connector,
}
use nats_replicator.Conf.Printed.{
  print_struct, Fits, FitsAll, end_fits, field_fits, bool_fits, int_fits, string_fits, strings_fits,
  struct_fits, structs_fits, none_fits, more_fits, parse_struct-print_struct,
}
use nats_replicator.Conf.Load.{Files, load_config_from_map, load_config_from_file}

fits_all :
    {A : Type 0} (show : A → Fields) (zero_value : A)
    → ((c : A) → Fits (show zero_value) (show c))
    → (cs : List A) → FitsAll (show zero_value) (structs_of show cs)
fits_all show zero_value fits [] = none_fits
fits_all show zero_value fits (c ∷ cs) = more_fits (fits c) (fits_all show zero_value fits cs)

logging-Fits : (a b : LoggingConfig) → Fits (logging_fields a) (logging_fields b)
unfolding print_struct find
logging-Fits a b = field_fits "Hide" "" refl refl (bool_fits a.hide b.hide) (
    field_fits "Time" "" refl refl (bool_fits a.time b.time) (
      field_fits "Debug" "" refl refl (bool_fits a.debug b.debug) (
        field_fits "Trace" "" refl refl (bool_fits a.trace b.trace) (
          field_fits "Colors" "" refl refl (bool_fits a.colors b.colors)
            (field_fits "PID" "" refl refl (bool_fits a.pid b.pid) (end_fits))))))

tls-Fits : (a b : TlsConf) → Fits (tls_fields a) (tls_fields b)
unfolding print_struct find
tls-Fits a b = field_fits "Key" "" refl refl (string_fits a.key b.key) (
    field_fits "Cert" "" refl refl (string_fits a.cert b.cert)
      (field_fits "Root" "" refl refl (string_fits a.root b.root) (end_fits)))

http-Fits : (a b : HttpConfig) → Fits (http_fields a) (http_fields b)
unfolding print_struct find
http-Fits a b = field_fits "HTTPHost" "http_host" refl refl (string_fits a.http_host b.http_host) (
    field_fits "HTTPPort" "http_port" refl refl (int_fits a.http_port b.http_port) (
      field_fits "HTTPSPort" "https_port" refl refl (int_fits a.https_port b.https_port) (
        field_fits "TLS" "" refl refl (struct_fits (tls-Fits a.tls b.tls)) (
          field_fits "ReadTimeout" "read_timeout" refl refl (int_fits a.read_timeout b.read_timeout)
            (field_fits "WriteTimeout" "write_timeout" refl refl
              (int_fits a.write_timeout b.write_timeout) (end_fits))))))

nats-Fits : (a b : NatsConfig) → Fits (nats_fields a) (nats_fields b)
unfolding print_struct find
nats-Fits a b = field_fits "Name" "" refl refl (string_fits a.name b.name) (
    field_fits "Servers" "" refl refl (strings_fits a.servers b.servers) (
      field_fits "ConnectTimeout" "connect_timeout" refl refl
        (int_fits a.connect_timeout b.connect_timeout)
        (field_fits "ReconnectWait" "reconnect_wait" refl refl
          (int_fits a.reconnect_wait b.reconnect_wait)
          (field_fits "MaxReconnects" "max_reconnects" refl refl
            (int_fits a.max_reconnects b.max_reconnects)
            (field_fits "NoRandom" "no_random" refl refl (bool_fits a.no_random b.no_random) (
              field_fits "NoEcho" "no_echo" refl refl (bool_fits a.no_echo b.no_echo) (
                field_fits "TLS" "" refl refl (struct_fits (tls-Fits a.tls b.tls)) (
                  field_fits "UserCredentials" "user_credentials" refl refl
                    (string_fits a.user_credentials b.user_credentials)
                    (field_fits "ClientName" "client_name" refl refl
                      (string_fits a.client_name b.client_name) (end_fits))))))))))

streaming-Fits : (a b : NatsStreamingConfig) → Fits (streaming_fields a) (streaming_fields b)
unfolding print_struct find
streaming-Fits a b = field_fits "Name" "" refl refl (string_fits a.name b.name) (
    field_fits "ClusterID" "cluster_id" refl refl (string_fits a.cluster_id b.cluster_id) (
      field_fits "ClientID" "client_id" refl refl (string_fits a.client_id b.client_id) (
        field_fits "PubAckWait" "pub_ack_wait" refl refl (int_fits a.pub_ack_wait b.pub_ack_wait) (
          field_fits "DiscoverPrefix" "discovery_prefix" refl refl
            (string_fits a.discover_prefix b.discover_prefix)
            (field_fits "MaxPubAcksInflight" "max_pubacks_inflight" refl refl
              (int_fits a.max_pub_acks_inflight b.max_pub_acks_inflight)
              (field_fits "ConnectWait" "connect_wait" refl refl
                (int_fits a.connect_wait b.connect_wait)
                (field_fits "PingInterval" "ping_interval" refl refl
                  (int_fits a.ping_interval b.ping_interval)
                  (field_fits "MaxPings" "max_pings" refl refl (int_fits a.max_pings b.max_pings) (
                    field_fits "NATSConnection" "nats_connection" refl refl
                      (string_fits a.nats_connection b.nats_connection) (end_fits))))))))))

connector-Fits : (a b : ConnectorConfig) → Fits (connector_fields a) (connector_fields b)
unfolding print_struct find
connector-Fits a b = field_fits "ID" "" refl refl (string_fits a.id b.id) (
    field_fits "Type" "" refl refl (string_fits a.type b.type) (
      field_fits "IncomingConnection" "incoming_connection" refl refl
        (string_fits a.incoming_connection b.incoming_connection)
        (field_fits "OutgoingConnection" "outgoing_connection" refl refl
          (string_fits a.outgoing_connection b.outgoing_connection)
          (field_fits "IncomingChannel" "incoming_channel" refl refl
            (string_fits a.incoming_channel b.incoming_channel)
            (field_fits "IncomingDurableName" "incoming_durable_name" refl refl
              (string_fits a.incoming_durable_name b.incoming_durable_name)
              (field_fits "IncomingStartAtSequence" "incoming_startat_sequence" refl refl
                (int_fits a.incoming_start_at_sequence b.incoming_start_at_sequence)
                (field_fits "IncomingStartAtTime" "incoming_startat_time" refl refl
                  (int_fits a.incoming_start_at_time b.incoming_start_at_time)
                  (field_fits "IncomingMaxInflight" "incoming_max_in_flight" refl refl
                    (int_fits a.incoming_max_inflight b.incoming_max_inflight)
                    (field_fits "IncomingAckWait" "incoming_ack_wait" refl refl
                      (int_fits a.incoming_ack_wait b.incoming_ack_wait)
                      (field_fits "IncomingSubject" "incoming_subject" refl refl
                        (string_fits a.incoming_subject b.incoming_subject)
                        (field_fits "IncomingQueueName" "incoming_queue_name" refl refl
                          (string_fits a.incoming_queue_name b.incoming_queue_name)
                          (field_fits "OutgoingChannel" "outgoing_channel" refl refl
                            (string_fits a.outgoing_channel b.outgoing_channel)
                            (field_fits "OutgoingSubject" "outgoing_subject" refl refl
                              (string_fits a.outgoing_subject b.outgoing_subject)
                              (end_fits))))))))))))))

pub replicator-Fits :
    (a b : NatsReplicatorConfig) → Fits (replicator_fields a) (replicator_fields b)
unfolding print_struct find
replicator-Fits a b =
    field_fits "ReconnectInterval" "reconnect_interval" refl refl
      (int_fits a.reconnect_interval b.reconnect_interval)
      (field_fits "Logging" "" refl refl (struct_fits (logging-Fits a.logging b.logging)) (
        field_fits "NATS" "" refl refl
          (structs_fits (structs_of nats_fields a.nats)
            (fits_all nats_fields zero_nats (nats-Fits zero_nats) b.nats))
          (field_fits "STAN" "" refl refl
            (structs_fits (structs_of streaming_fields a.stan)
              (fits_all streaming_fields zero_streaming (streaming-Fits zero_streaming) b.stan))
            (field_fits "Monitoring" "" refl refl
              (struct_fits (http-Fits a.monitoring b.monitoring))
              (field_fits "Connect" "" refl refl
                (structs_fits (structs_of connector_fields a.connect) (
                  fits_all connector_fields zero_connector (connector-Fits zero_connector)
                    b.connect))
                (end_fits))))))

read_all-structs_of :
    {A : Type 0} (show : A → Fields) (read : Fields → A)
    → ((c : A) → read (show c) ≡ c)
    → (cs : List A) → read_all read (structs_of show cs) ≡ cs
read_all-structs_of show read h [] = refl
read_all-structs_of show read h (c ∷ cs) = cc (h c, read_all-structs_of show read h cs)

replicator_of-replicator_fields :
    (c : NatsReplicatorConfig) → replicator_of (replicator_fields c) ≡ c
replicator_of-replicator_fields c =
    rw
      (
        read_all-structs_of nats_fields nats_of (λ d. refl) c.nats,
        read_all-structs_of streaming_fields streaming_of (λ d. refl) c.stan,
        read_all-structs_of connector_fields connector_of (λ d. refl) c.connect,
      )
      refl

load_config_from_map-print_struct :
    (chars : Chars) (old config : NatsReplicatorConfig) (strict : Bool)
    → load_config_from_map chars (print_struct (replicator_fields config)) old strict
      ≡ (config, none)
unfolding load_config_from_map
load_config_from_map-print_struct chars old config strict =
    rw
      (parse_struct-print_struct chars strict (replicator_fields old) (replicator_fields config)
        (replicator-Fits old config))
      (ap (λ c. (c, none)) (replicator_of-replicator_fields config))

of_file :
    (files : Files) (chars : Chars) (name text : String) (m : Entries) (old : NatsReplicatorConfig)
    (strict : Bool)
    → files.read_file name ≡ ok text
    → files.parse text ≡ ok m
    → load_config_from_file files chars name old strict ≡ load_config_from_map chars m old strict
unfolding load_config_from_file
of_file files chars name text m old strict r p = ground arith

-- A configuration of the replicator that is printed under the names and tags of its fields is
-- what LoadConfigFromFile reads back, without an error, in strict mode or not, and whatever the
-- values were before; the file is read and parsed without an error.
pub load_config_from_file-print_struct :
    (files : Files) (chars : Chars) (name text : String) (old config : NatsReplicatorConfig)
    (strict : Bool)
    → files.read_file name ≡ ok text
    → files.parse text ≡ ok (print_struct (replicator_fields config))
    → load_config_from_file files chars name old strict ≡ (config, none)
load_config_from_file-print_struct files chars name text old config strict r p =
    of_file files chars name text (print_struct (replicator_fields config)) old strict r p
    ∙ load_config_from_map-print_struct chars old config strict
