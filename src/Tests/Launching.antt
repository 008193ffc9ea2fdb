-- ===== src/Tests/Launching.antt =====
-- The theorems on main.go and on the flags, at the installation.
use nats_replicator.Prelude.{◌≡◌, refl, true, false, none, [], ◌∷◌}
use nats_replicator.Prelude.Outcome.{done, ◌>>=◌}
use nats_replicator.State.{Server}
use nats_replicator.Server.Flags.{
  Flags, with_levels, initialize_from_flags, initialize_from_flags_lem,
}
use nats_replicator.Main.{
  World, Process, new_nats_replicator, launch, on_signal, interrupt, hangup, hangup_interrupt,
  launch_without_file,
}
use nats_replicator.Tests.Numbers.{nat_float}
use nats_replicator.Tests.Samples.{client, network, replicator_config, working}
use nats_replicator.Tests.Configuration.{chars, files}

abbrev flags : Flags
flags = record {
  config_file = "replicator.conf";
  debug = true;
  verbose = false;
  debug_and_verbose = false;
}

abbrev world : World
world = record { flags = flags; files = files; chars = chars; client = client; network = network }

initialize_from_flags_lem_example :
    initialize_from_flags files chars flags new_nats_replicator
    ≡ (record new_nats_replicator { config = with_levels flags replicator_config }, none)
initialize_from_flags_lem_example =
    initialize_from_flags_lem files chars flags new_nats_replicator "text" replicator_config refl
      refl refl

-- No file is named, in the flags or in the environment.
abbrev bare : World
bare = record world { flags = record flags { config_file = "" } }

launch_without_file_example :
    (s : Server) × (launch bare 9 ≡ done (s, none)) × (s.running ≡ true) × (s.connectors ≡ [])
launch_without_file_example = launch_without_file bare 9 refl

abbrev process : Process
process = record { server = working; restarted = []; exited = false }

-- The server that a SIGHUP starts.
abbrev relaunched : Server
relaunched = (launch_without_file bare 9 refl).0

hangup_interrupt_example :
    (p' : Process) × ((on_signal bare 9 none hangup process >>= on_signal bare 9 none interrupt)
      ≡ done p')
    × (p'.exited ≡ true)
    × (p'.restarted ≡ relaunched ∷ [])
    × (relaunched.running ≡ true)
hangup_interrupt_example =
    hangup_interrupt bare 9 none process relaunched refl refl refl
      (launch_without_file bare 9 refl).1
