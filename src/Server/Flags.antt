-- ===== src/Server/Flags.antt =====
-- InitializeFromFlags of server/core/server.go, with server/core/flags.go.
use nats_replicator.Prelude.{
  String, ◌==◌, ◌≡◌, refl, ap, ◌∙◌, Bool, true, false, ◌||◌, Option, none, some, if◌then◌else◌,
  arith,
}
use nats_replicator.Float.{Float}
use nats_replicator.Result.{Error, ok, no_config_file}
use nats_replicator.Conf.{NatsReplicatorConfig, default_config}
use nats_replicator.Conf.Parse.{Chars}
use nats_replicator.Conf.Structs.{replicator_fields}
use nats_replicator.Conf.Printed.{print_struct}
use nats_replicator.Conf.Load.{Files, load_config_from_file}
use nats_replicator.Conf.Loaded.{load_config_from_file-print_struct}
use nats_replicator.State.{Server}

pub record Flags : Type 0 where
  pub config_file : String
  pub debug : Bool
  pub verbose : Bool
  pub debug_and_verbose : Bool

-- ApplyConfigFile, on the configuration of the server.
unfoldable pub apply_config_file :
    Files → Chars → String → NatsReplicatorConfig → NatsReplicatorConfig × Option Error
apply_config_file files chars config_file config =
    let name = if config_file == "" then files.env_config else config_file in
    if name == ""
    then (config, some no_config_file)
    else load_config_from_file files chars name config false

-- The end of InitializeFromFlags: the flags on top of the configuration.
abbrev pub set_flags : Flags → NatsReplicatorConfig → NatsReplicatorConfig
set_flags flags config =
    let debugged =
      if flags.debug || flags.debug_and_verbose
      then record config { logging = record config.logging { debug = true } }
      else config in
    if flags.verbose || flags.debug_and_verbose
    then record debugged { logging = record debugged.logging { trace = true } }
    else debugged

module _ ⦃fl : Float⦄ where
  -- After ApplyConfigFile: an error ends it.
  abbrev after_file : Flags → Server → NatsReplicatorConfig × Option Error → Server × Option Error
  after_file flags s (config, some e) = (record s { config = config }, some e)
  after_file flags s (config, none) = (record s { config = set_flags flags config }, none)

  -- InitializeFromFlags
  unfoldable pub initialize_from_flags : Files → Chars → Flags → Server → Server × Option Error
  initialize_from_flags files chars flags s =
      after_file flags s (apply_config_file files chars flags.config_file default_config)

  -- InitializeFromConfig
  unfoldable pub initialize_from_config : NatsReplicatorConfig → Server → Server
  initialize_from_config config s = record s { config = config }

  -- The file that is read: the one that the flags name, or else the one of the environment.
  abbrev pub chosen_file : Files → Flags → String
  chosen_file files flags = if flags.config_file == "" then files.env_config else flags.config_file

  -- The configuration of the file, with the two log levels switched on by the flags.
  abbrev pub with_levels : Flags → NatsReplicatorConfig → NatsReplicatorConfig
  with_levels flags config = record config {
    logging = record config.logging {
      debug = flags.debug || (flags.debug_and_verbose || config.logging.debug);
      trace = flags.verbose || (flags.debug_and_verbose || config.logging.trace);
    };
  }

  set_flags-with_levels :
      (flags : Flags) (config : NatsReplicatorConfig)
      → set_flags flags config ≡ with_levels flags config
  set_flags-with_levels flags config = ground arith

  apply_config_file_ok :
      (files : Files) (chars : Chars) (flags : Flags) (config old : NatsReplicatorConfig)
      → (chosen_file files flags == "") ≡ false
      → load_config_from_file files chars (chosen_file files flags) old false ≡ (config, none)
      → apply_config_file files chars flags.config_file old ≡ (config, none)
  unfolding apply_config_file
  apply_config_file_ok files chars flags config old h e = rw h e

  apply_config_file_none :
      (files : Files) (chars : Chars) (flags : Flags) (old : NatsReplicatorConfig)
      → (chosen_file files flags == "") ≡ true
      → apply_config_file files chars flags.config_file old ≡ (old, some no_config_file)
  unfolding apply_config_file
  apply_config_file_none files chars flags old h = rw h refl

  -- Without a file the default configuration is left, and an error.
  pub initialize_without_file :
      (files : Files) (chars : Chars) (flags : Flags) (s : Server)
      → (chosen_file files flags == "") ≡ true
      → initialize_from_flags files chars flags s
        ≡ (record s { config = default_config }, some no_config_file)
  unfolding initialize_from_flags
  initialize_without_file files chars flags s h =
      ap (after_file flags s) (apply_config_file_none files chars flags default_config h)

  initialize_ok :
      (files : Files) (chars : Chars) (flags : Flags) (s : Server) (config : NatsReplicatorConfig)
      → apply_config_file files chars flags.config_file default_config ≡ (config, none)
      → initialize_from_flags files chars flags s
        ≡ (record s { config = set_flags flags config }, none)
  unfolding initialize_from_flags
  initialize_ok files chars flags s config e = ap (after_file flags s) e

  -- InitializeFromFlags, when a file is named in the flags or in the environment, is read, and
  -- parses to a printed configuration: the server has that configuration, with debug and trace
  -- logs switched on where the flags or the file say so, and there is no error.
  pub initialize_from_flags_lem :
      (files : Files) (chars : Chars) (flags : Flags) (s : Server) (text : String)
      (config : NatsReplicatorConfig)
      → (chosen_file files flags == "") ≡ false
      → files.read_file (chosen_file files flags) ≡ ok text
      → files.parse text ≡ ok (print_struct (replicator_fields config))
      → initialize_from_flags files chars flags s
        ≡ (record s { config = with_levels flags config }, none)
  initialize_from_flags_lem files chars flags s text config h r p =
      let loaded =
        load_config_from_file-print_struct files chars (chosen_file files flags) text default_config
          config false r p in
      initialize_ok files chars flags s config
        (apply_config_file_ok files chars flags config default_config h loaded)
      ∙ ap (λ c. (record s { config = c }, none)) (set_flags-with_levels flags config)
