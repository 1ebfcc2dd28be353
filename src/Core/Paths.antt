-- ===== src/Core/Paths.antt =====
-- crates/clippo-core/src/paths.rs: where the configuration and the history are. A path is its bytes;
-- `PathBuf::is_absolute` and `PathBuf::join` are those of the standard library on Unix.
pub mod Absolute
use clippo.Prelude.{
  ℕ, Bool, true, false, List, [], ◌∷◌, ◌++◌, Option, none, some, Result, ok, err, if◌then◌else◌,
  ◌==◌,
}
use clippo.Prelude.Text.{Text, codes}

abbrev app_dir : Text
app_dir = codes "clippo"

abbrev config_file_name : Text
config_file_name = codes "config.toml"

abbrev db_file_name : Text
db_file_name = codes "history.db"

abbrev pub is_absolute : Text → Bool
is_absolute [] = false
is_absolute (c ∷ path) = c == b'/'

-- a slash, unless the path is empty or ends with one
abbrev pub separator : Text → Text
separator [] = []
separator (c ∷ []) = if c == b'/' then [] else b'/' ∷ []
separator (c ∷ d ∷ path) = separator (d ∷ path)

unfoldable pub join : Text → Text → Text
join path other = if is_absolute other then other else path ++ (separator path ++ other)

pub record PathError : Type 0 where
  pub xdg_var : Text
  pub what : Text

-- `map(PathBuf::from).filter(is_absolute)`
abbrev pub absolute : Option Text → Option Text
absolute none = none
absolute (some path) = if is_absolute path then some path else none

abbrev pub from_home : Option Text → Text → Option Text
from_home none home_relative = none
from_home (some home) home_relative = some (join home home_relative)

abbrev pub or_home : Option Text → Option Text → Option Text
or_home none home = home
or_home (some path) home = some path

abbrev pub in_app_dir : Option Text → Option Text
in_app_dir none = none
in_app_dir (some base) = some (join base app_dir)

unfoldable pub resolve_from : Option Text → Option Text → Text → Option Text
resolve_from xdg home home_relative =
    in_app_dir (or_home (absolute xdg) (from_home (absolute home) home_relative))

abbrev pub or_error : Text → Text → Option Text → Result Text PathError
or_error xdg_var what none = err (record { xdg_var = xdg_var; what = what })
or_error xdg_var what (some path) = ok path

-- `var`: the environment
module _ (var : Text → Option Text) where
  unfoldable pub resolve : Text → Text → Text → Result Text PathError
  resolve xdg_var home_relative what =
      or_error xdg_var what (resolve_from (var xdg_var) (var (codes "HOME")) home_relative)

  abbrev pub in_dir : Text → Result Text PathError → Result Text PathError
  in_dir name (ok dir) = ok (join dir name)
  in_dir name (err e) = err e

  unfoldable pub config_dir : Result Text PathError
  config_dir = resolve (codes "XDG_CONFIG_HOME") (codes ".config") (codes "configuration")

  unfoldable pub config_file : Result Text PathError
  config_file = in_dir config_file_name config_dir

  unfoldable pub data_dir : Result Text PathError
  data_dir = resolve (codes "XDG_DATA_HOME") (codes ".local/share") (codes "history")

  unfoldable pub db_path : Result Text PathError
  db_path = in_dir db_file_name data_dir
