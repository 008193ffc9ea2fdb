-- ===== src/Result.antt =====
-- Go's `error` results. An error is named for the message that the source formats, with the values
-- in it.
use nats_replicator.Prelude.{String, ◌≡◌, refl, ◌⊎◌, inl, inr}

pub data Error : Type 0 where
  unknown_connector_type : String → Error
  improperly_configured : String → Error
  -- "%s connector requires nats (stan) connection named %s to be available"
  requires_nats : String → String → Error
  requires_stan : String → String → Error
  -- "stan connection %s requires NATS connection %s"
  stan_requires_nats : String → String → Error
  both_ports : Error
  tls_required : Error
  no_config_file : Error
  -- "can't listen to the monitor port: %v"
  listen_failed : Error → Error
  -- the errors of the configuration parser, with the name of the field
  parse_option : String → Error
  parse_integer : String → Error
  not_convertible : String → Error
  unsettable_field : String → Error
  missing_field : String → Error
  no_matching_map : String → Error
  parse_floating : String → Error
  only_generic_maps : Error
  invalid_struct : Error
  unknown_field_type : String → Error
  -- "error reading configuration file: %s"
  unreadable_config : Error → Error
  -- the errors of validatePathExists
  path_not_specified : Error
  bad_path : Error → Error
  path_not_found : String → Error
  not_a_directory : String → Error
  not_a_file : String → Error
  -- the errors of MakeTLSConfig
  bad_key_pair : Error → Error
  bad_certificate : Error → Error
  -- an error of a client library, with its text
  client : String → Error

pub data Result {ℓ} (A : Type ℓ) : Type ℓ where
  ok : A → Result A
  err : Error → Result A

pub Result-cases {ℓ} :
    {A : Type ℓ} (r : Result A) → ((a : A) × (r ≡ ok a)) ⊎ ((e : Error) × (r ≡ err e))
Result-cases (ok a) = inl (a, refl)
Result-cases (err e) = inr (e, refl)
