-- ===== src/Tests/Configuration.antt =====
-- The theorems on the configuration parser, on paths, on the logger and on the monitor.
use nats_replicator.Prelude.{
  eq_iff, ◌≡◌, refl, ◌⊎◌, inl, inr, true, false, none, some, List, [], ◌∷◌,
}
use nats_replicator.Prelude.Int.{pos, is_zero}
use nats_replicator.Prelude.Text.{to_lower}
use nats_replicator.Result.{ok}
use nats_replicator.Conf.{default_config}
use nats_replicator.Conf.Values.{
  string, Entries, empty, entry, find, Fields, end, field, int_field, string_field,
}
use nats_replicator.Conf.Parse.{Chars, get, find_lower, parse_struct}
use nats_replicator.Conf.Kept.{Kept, parse_struct-Kept}
use nats_replicator.Conf.Printed.{print_struct, parse_struct-print_struct}
use nats_replicator.Conf.AnyCase.{get_any_case}
use nats_replicator.Conf.Order.{swap, parse_struct-Shuffle}
use nats_replicator.Conf.Structs.{replicator_fields}
use nats_replicator.Conf.Load.{Files, load_config_from_file}
use nats_replicator.Conf.Loaded.{replicator-Fits, load_config_from_file-print_struct}
use nats_replicator.Conf.Paths.{
  FileSystem, Stat, IsFileLike, validate_file_path, validate_file_path_lem,
}
use nats_replicator.Conf.Paths
use nats_replicator.Logging.{
  Line, notice_level, trace_level, new_nats_logger, log_all, shown, new_nats_logger-shown,
}
use nats_replicator.State.{Monitor}
use nats_replicator.Monitoring.{start_monitoring}
use nats_replicator.Monitoring.Listening.{is_served, Listening, start_monitoring_lem}
use nats_replicator.Tests.Samples.{replicator_config, network}

abbrev pub chars : Chars
chars = record {
  wide_lower = λ c. c;
  rune_text = λ z. "?";
  parse_float64 = λ s. none;
  truncate = λ x. pos 0;
  to_float64 = λ z. "0";
}

-- A struct with a tag on its first field, and a file that spells the second in its own way.
abbrev ports : Fields
ports =
    field "HTTPPort" "http_port" true (int_field (pos 0))
      (field "HTTPHost" "" true (string_field "nowhere") end)

abbrev port_file : Entries
port_file = entry "HttpHost" (string "localhost") (entry "http_port" (string "9090") empty)

parse_struct-Kept_example : Kept chars port_file ports (parse_struct chars false port_file ports).0
parse_struct-Kept_example = parse_struct-Kept chars false port_file ports

-- The file with its entries in the other order.
abbrev port_file_again : Entries
port_file_again = entry "http_port" (string "9090") (entry "HttpHost" (string "localhost") empty)

parse_struct-Shuffle_example :
    parse_struct chars false port_file ports ≡ parse_struct chars false port_file_again ports
unfolding to_lower find_lower
parse_struct-Shuffle_example =
    parse_struct-Shuffle chars false port_file port_file_again ports (refl, (refl, tt))
      (swap "HttpHost" (string "localhost") "http_port" (string "9090"))

get_any_case_example : get chars port_file "HTTPHost" "" ≡ some (string "localhost")
unfolding to_lower find
get_any_case_example =
    get_any_case chars "HTTPHost" "HttpHost" port_file "" (string "localhost") refl (inl refl) refl
      (
        inr refl,
        (
          inl (
            λ e. cc (
                (eq_iff (to_lower chars.wide_lower "http_port")
                    (to_lower chars.wide_lower "HTTPHost")).1
                  e),
            λ e. cc ((eq_iff "http_port" (to_lower chars.wide_lower "HTTPHost")).1 e),
          ),
          tt,
        ),
      )
      refl

parse_struct-print_struct_example :
    parse_struct chars true
      (print_struct (replicator_fields replicator_config))
      (replicator_fields default_config)
    ≡ (replicator_fields replicator_config, none)
parse_struct-print_struct_example =
    parse_struct-print_struct chars true (replicator_fields default_config)
      (replicator_fields replicator_config) (replicator-Fits default_config replicator_config)

-- One file, whose text stands for the configuration of the samples.
abbrev pub files : Files
files = record {
  read_file = λ name. ok "text";
  parse = λ text. ok (print_struct (replicator_fields replicator_config));
  env_config = "";
}

load_config_from_file-print_struct_example :
    load_config_from_file files chars "replicator.conf" default_config true
    ≡ (replicator_config, none)
load_config_from_file-print_struct_example =
    load_config_from_file-print_struct files chars "replicator.conf" "text" default_config
      replicator_config true refl refl

abbrev file_system : FileSystem
file_system = record { abs = λ path. ok "/etc/replicator.conf"; stat = λ path. Paths.regular }

validate_file_path_lem_example :
    (file_system.abs "replicator.conf" ≡ ok "/etc/replicator.conf")
    × IsFileLike (file_system.stat "/etc/replicator.conf")
unfolding validate_file_path
validate_file_path_lem_example =
    validate_file_path_lem file_system "replicator.conf" "/etc/replicator.conf" refl

abbrev calls : List Line
calls =
    record { level = notice_level; text = "up" }
    ∷ record { level = trace_level; text = "read" }
    ∷ []

new_nats_logger-shown_example :
    (log_all (new_nats_logger replicator_config.logging) calls).lines
    ≡ shown replicator_config.logging calls
new_nats_logger-shown_example = new_nats_logger-shown replicator_config.logging calls

abbrev monitor : Monitor
monitor = record { http_req_stats = none; listener = none; http = none; monitoring_url = "" }

start_monitoring_lem_example :
    ((is_zero replicator_config.monitoring.http_port ≡ true)
      × (is_zero replicator_config.monitoring.https_port ≡ true)
      × ((start_monitoring network replicator_config.monitoring monitor).0 ≡ monitor))
    ⊎ ((is_served replicator_config.monitoring ≡ true)
        × Listening (start_monitoring network replicator_config.monitoring monitor).0)
unfolding start_monitoring
start_monitoring_lem_example =
    start_monitoring_lem network replicator_config.monitoring monitor refl
