-- ===== src/Core/Config.antt =====
-- crates/clippo-core/src/config.rs: the configuration, and what a file may say. The TOML syntax is
-- the `toml` crate's.
pub mod Ranges
use clippo.Prelude.{
  ℕ, ◌+◌, ◌*◌, ◌≡◌, refl, Bool, true, false, Option, none, some, Result, ok, err, ◌>>=◌, ltb, ◌==◌,
  ◌||◌, if◌then◌else◌,
}
use clippo.Prelude.Int.{ℤ, pos, pos_part, ltb_ℤ}
use clippo.Prelude.Text.{
  Text, codes, split, split_go, trim, trim_start, trim_end, text_eq, is_whitespace,
  to_ascii_lowercase,
}
use clippo.Core.Entry.{Duration}
use clippo.Core.Chord.{
  Chord, ParseChordError, parse, parts_of, split_last, add_modifiers, add_modifier, modifier_of,
  is_modifier_word, set_key,
}
use clippo.Core.Secrets.Masking.{SecretsConfig}

abbrev pub max_entries_limit : ℕ
max_entries_limit = 100_000

abbrev pub max_age_days_limit : ℕ
max_age_days_limit = 36_500

abbrev pub max_image_bytes_limit : ℕ
max_image_bytes_limit = 1024 * 1024 * 1024

abbrev pub max_mask_context : ℕ
max_mask_context = 16

abbrev pub default_max_image_bytes : ℕ
default_max_image_bytes = 8 * 1024 * 1024

-- `DEFAULT_PASTE_SHORTCUT.parse()`
abbrev pub default_paste_shortcut : Chord
default_paste_shortcut = record {
  ctrl = true;
  shift = false;
  alt = false;
  logo = false;
  key = 47;
  name = codes "v";
}

-- The `expect` on the default shortcut is met.
pub default_paste_shortcut_parses : parse (codes "Ctrl+V") ≡ ok default_paste_shortcut
unfolding parse parts_of split_last add_modifiers add_modifier modifier_of is_modifier_word set_key
    split split_go trim trim_start trim_end text_eq is_whitespace to_ascii_lowercase
default_paste_shortcut_parses = refl

pub record Config : Type 0 where
  pub max_entries : ℕ
  pub max_age_days : ℕ
  pub max_image_bytes : ℕ
  pub capture_primary : Bool
  pub auto_paste : Bool
  pub paste_shortcut : Chord
  pub allow_privileged_members : Bool
  pub secrets : SecretsConfig

abbrev pub default_secrets : SecretsConfig
default_secrets = record { entropy_rule = true; mask_prefix = 2; mask_suffix = 2 }

abbrev pub default_config : Config
default_config = record {
  max_entries = 500;
  max_age_days = 30;
  max_image_bytes = default_max_image_bytes;
  capture_primary = false;
  auto_paste = true;
  paste_shortcut = default_paste_shortcut;
  allow_privileged_members = true;
  secrets = default_secrets;
}

-- `Config::max_age`, in milliseconds
unfoldable pub max_age : Config → Option Duration
max_age config =
    if config.max_age_days == 0 then none else some (config.max_age_days * 24 * 60 * 60 * 1000)

-- `RawConfig` and `Secrets`: the keys of the file that are there
pub record RawSecrets : Type 0 where
  pub entropy_rule : Option Bool
  pub mask_prefix : Option ℤ
  pub mask_suffix : Option ℤ

pub record RawConfig : Type 0 where
  pub max_entries : Option ℤ
  pub max_age_days : Option ℤ
  pub max_image_bytes : Option ℤ
  pub capture_primary : Option Bool
  pub auto_paste : Option Bool
  pub paste_shortcut : Option Text
  pub allow_privileged_members : Option Bool
  pub secrets : Option RawSecrets

-- the keys with a range, and what `resolve` refuses
pub data Key : Type 0 where
  max_entries max_age_days max_image_bytes mask_prefix mask_suffix : Key

pub data Invalid : Type 0 where
  out_of_range : Key → ℤ → Invalid
  bad_shortcut : ParseChordError → Invalid
  mask_too_wide : ℕ → Invalid

unfoldable pub checked : Key → ℤ → ℕ → ℕ → Result ℕ Invalid
checked key value lo hi =
    if ltb_ℤ value (pos lo) || ltb_ℤ (pos hi) value
    then err (out_of_range key value)
    else ok (pos_part value)

-- a key with a range, or its default
unfoldable pub number_or : ℕ → Key → Option ℤ → ℕ → ℕ → Result ℕ Invalid
number_or default key none lo hi = ok default
number_or default key (some value) lo hi = checked key value lo hi

abbrev flag_or : Bool → Option Bool → Bool
flag_or default none = default
flag_or default (some value) = value

unfoldable pub shortcut_or : Option Text → Result Chord Invalid
shortcut_or none = ok default_paste_shortcut
shortcut_or (some text) = elim (parse text) [ ok c ↦ ok c | err e ↦ err (bad_shortcut e) ]

abbrev secrets_or : Option RawSecrets → RawSecrets
secrets_or none = record { entropy_rule = none; mask_prefix = none; mask_suffix = none }
secrets_or (some s) = s

-- the last check of `resolve`
abbrev mask_fits : ℕ → ℕ → Config → Result Config Invalid
mask_fits prefix suffix config =
    if ltb max_mask_context (prefix + suffix)
    then err (mask_too_wide (prefix + suffix))
    else ok config

-- `RawConfig::resolve`
unfoldable pub resolve : RawConfig → Result Config Invalid
resolve raw = do
  let secrets = secrets_or raw.secrets
  entries ← number_or 500 max_entries raw.max_entries 1 max_entries_limit
  days ← number_or 30 max_age_days raw.max_age_days 0 max_age_days_limit
  bytes ←
      number_or default_max_image_bytes max_image_bytes raw.max_image_bytes 0 max_image_bytes_limit
  shortcut ← shortcut_or raw.paste_shortcut
  prefix ← number_or 2 mask_prefix secrets.mask_prefix 0 max_mask_context
  suffix ← number_or 2 mask_suffix secrets.mask_suffix 0 max_mask_context
  mask_fits prefix suffix (record {
    max_entries = entries;
    max_age_days = days;
    max_image_bytes = bytes;
    capture_primary = flag_or false raw.capture_primary;
    auto_paste = flag_or true raw.auto_paste;
    paste_shortcut = shortcut;
    allow_privileged_members = flag_or true raw.allow_privileged_members;
    secrets = record {
      entropy_rule = flag_or true secrets.entropy_rule;
      mask_prefix = prefix;
      mask_suffix = suffix;
    };
  })

-- what reading the file gave
data FileRead : Type 0 where
  contents : Text → FileRead
  not_found unreadable : FileRead

data ConfigError : Type 0 where
  read : ConfigError
  syntax : Text → ConfigError
  invalid : Invalid → ConfigError

module _ (from_str : Text → Result RawConfig Text) where
  unfoldable from_toml : Text → Result Config ConfigError
  from_toml text = elim (from_str text) [
    | err problem ↦ err (syntax problem)
    | ok raw ↦ elim (resolve raw) [ ok config ↦ ok config | err message ↦ err (invalid message) ]
  ]

  unfoldable load_from : FileRead → Result Config ConfigError
  load_from (contents text) = from_toml text
  load_from not_found = ok default_config
  load_from unreadable = err read
