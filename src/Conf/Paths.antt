-- ===== src/Conf/Paths.antt =====
-- server/conf/utils.go: validatePathExists, over the file system as an argument.
use nats_replicator.Prelude.{
  String, ◌==◌, ◌≡◌, ◌≢◌, Bool, true, false, not, ◌&&◌, if◌then◌else◌, arith,
}
use nats_replicator.Prelude.Outcome.{Outcome, done, panics}
use nats_replicator.Result.{
  Result, ok, err, path_not_specified, bad_path, path_not_found, not_a_directory, not_a_file,
}

-- What `os.Stat` answers: the mode of the file, or an error, in which case there is no mode.
pub data Stat : Type 0 where
  not_exist : Stat
  stat_failed : Stat
  regular directory other_mode : Stat

-- filepath.Abs and os.Stat
pub record FileSystem : Type 0 where
  pub abs : String → Result String
  pub stat : String → Stat

-- mode.IsRegular() and mode.IsDir()
abbrev is_regular : Stat → Bool
is_regular regular = true
is_regular _ = false

abbrev is_dir : Stat → Bool
is_dir directory = true
is_dir _ = false

-- The checks on the mode.
abbrev check_mode : Stat → String → Bool → Result String
check_mode mode path dir =
    if dir && is_regular mode
    then err (not_a_directory path)
    else if not dir && is_dir mode
    then err (not_a_file path)
    else ok path

-- validatePathExists: an error of `os.Stat` other than that the path does not exist leaves no
-- FileInfo, and `finfo.Mode()` panics.
unfoldable pub validate_path_exists : FileSystem → String → Bool → Outcome (Result String)
validate_path_exists fs path dir =
    if path == "" then done (err path_not_specified) else elim (fs.abs path) [
      | err e ↦ done (err (bad_path e))
      | ok abs ↦ elim (fs.stat abs) [
        | not_exist ↦ done (err (path_not_found abs))
        | stat_failed ↦ panics
        | regular ↦ done (check_mode regular abs dir)
        | directory ↦ done (check_mode directory abs dir)
        | other_mode ↦ done (check_mode other_mode abs dir)
      ]
    ]

-- ValidateDirPath
unfoldable pub validate_dir_path : FileSystem → String → Outcome (Result String)
unfolding validate_path_exists
validate_dir_path fs path = validate_path_exists fs path true

-- ValidateFilePath
unfoldable pub validate_file_path : FileSystem → String → Outcome (Result String)
unfolding validate_path_exists
validate_file_path fs path = validate_path_exists fs path false

-- Something stands at the path that is neither missing nor of the wrong kind.
abbrev pub IsDirLike : Stat → Type 0
IsDirLike mode = (mode ≢ not_exist) × (mode ≢ stat_failed) × (mode ≢ regular)

abbrev pub IsFileLike : Stat → Type 0
IsFileLike mode = (mode ≢ not_exist) × (mode ≢ stat_failed) × (mode ≢ directory)

-- A path that ValidateFilePath returns is the absolute form of its argument, and what stands
-- there is neither missing nor a directory.
pub validate_file_path_lem :
    (fs : FileSystem) (path abs : String)
    → validate_file_path fs path ≡ done (ok abs)
    → (fs.abs path ≡ ok abs) × IsFileLike (fs.stat abs)
unfolding validate_file_path
validate_file_path_lem fs path abs h = ground arith
