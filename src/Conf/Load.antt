-- ===== src/Conf/Load.antt =====
-- server/conf/load.go, for the configuration of the replicator. The parser of the configuration
-- language is a vendored library, so an argument here.
use nats_replicator.Prelude.{String, Bool, Option, some}
use nats_replicator.Result.{Error, Result, ok, err, unreadable_config}
use nats_replicator.Conf.{NatsReplicatorConfig}
use nats_replicator.Conf.Values.{Entries}
use nats_replicator.Conf.Parse.{Chars, parse_struct}
use nats_replicator.Conf.Structs.{replicator_fields, replicator_of}

-- ioutil.ReadFile, conf.Parse, and the variable NATS_REPLICATOR_CONFIG of the environment.
pub record Files : Type 0 where
  pub read_file : String → Result String
  pub parse : String → Result Entries
  pub env_config : String

-- LoadConfigFromMap
unfoldable pub load_config_from_map :
    Chars → Entries → NatsReplicatorConfig → Bool → NatsReplicatorConfig × Option Error
load_config_from_map chars m config strict =
    let (fields, e) = parse_struct chars strict m (replicator_fields config) in
    (replicator_of fields, e)

-- LoadConfigFromString
unfoldable pub load_config_from_string :
    Files → Chars → String → NatsReplicatorConfig → Bool → NatsReplicatorConfig × Option Error
unfolding load_config_from_map
load_config_from_string files chars text config strict = elim (files.parse text) [
  | err e ↦ (config, some e)
  | ok m ↦ load_config_from_map chars m config strict
]

-- LoadConfigFromFile
unfoldable pub load_config_from_file :
    Files → Chars → String → NatsReplicatorConfig → Bool → NatsReplicatorConfig × Option Error
unfolding load_config_from_string
load_config_from_file files chars name config strict = elim (files.read_file name) [
  | err e ↦ (config, some (unreadable_config e))
  | ok text ↦ load_config_from_string files chars text config strict
]
