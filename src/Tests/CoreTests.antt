-- ===== src/Tests/CoreTests.antt =====
-- crates/clippo-core at concrete inputs.
use mathlib.Core.List.{flatten}
use clippo.Prelude.{
  Option, some, err, ◌+◌, ◌-◌, ◌≡◌, refl, true, [], ◌∷◌, ◌++◌, none, ok, all, length, leb,
  if◌then◌else◌, take, drop, arith,
}
use clippo.Prelude.Text.{Text, codes, text_eq, is_whitespace}
use clippo.Core.Secrets.Masking.{mask_with, bullets}
use clippo.Core.Secrets.Masking.Blind.{mask_with_lem}
use clippo.Core.Paths.{
  PathError, is_absolute, absolute, join, resolve_from, config_file, data_dir, db_path,
}
use clippo.Core.Paths.Absolute.{IsAbsolute-db_path}
use clippo.Core.Chord.{parse, display}
use clippo.Core.Chord.RoundTrip.{parse-display, parse-IsChord}
use clippo.Core.Config.{
  RawConfig, resolve, default_config, default_paste_shortcut, default_paste_shortcut_parses,
  number_or, shortcut_or,
}
use clippo.Core.Config.Ranges.{IsValid, resolve-IsValid}
use clippo.Tests.Samples.{sample_host}

abbrev two_lines : Text
two_lines = codes "one\n\ttwo three"

mask_with_lem_example : mask_with sample_host (codes "hunter2!") 2 1 ≡ (
    let clusters = sample_host.graphemes (codes "hunter2!") in
    if leb (length clusters) (2 + 1)
    then bullets
    else flatten (take 2 clusters) ++ bullets ++ flatten (drop (length clusters - 1) clusters))
mask_with_lem_example = mask_with_lem sample_host (codes "hunter2!") 2 1 (omega arith)

one_space-all : all is_whitespace (0x20 ∷ []) ≡ true
unfolding is_whitespace
one_space-all = refl

parse-display_example : parse (display default_paste_shortcut) ≡ ok default_paste_shortcut
parse-display_example =
    parse-display (codes "Ctrl+V") default_paste_shortcut default_paste_shortcut_parses

abbrev no_keys : RawConfig
no_keys = record {
  max_entries = none;
  max_age_days = none;
  max_image_bytes = none;
  capture_primary = none;
  auto_paste = none;
  paste_shortcut = none;
  allow_privileged_members = none;
  secrets = none;
}

resolve-no_keys : resolve no_keys ≡ ok default_config
unfolding resolve number_or shortcut_or
resolve-no_keys = refl

resolve-IsValid_example : IsValid default_config
resolve-IsValid_example = resolve-IsValid no_keys default_config resolve-no_keys

default_config-IsValid : IsValid default_config
default_config-IsValid = record {
  entries = (omega arith, omega arith);
  days = omega arith;
  bytes = omega arith;
  mask = omega arith;
  shortcut = parse-IsChord (codes "Ctrl+V") default_paste_shortcut default_paste_shortcut_parses;
}

-- `XDG_DATA_HOME` is relative, so it is ignored
abbrev an_environment : Text → Option Text
an_environment name =
    if text_eq name (codes "HOME") then some (codes "/home/u/") else some (codes "here")

IsAbsolute-db_path_example :
    (db_path an_environment ≡ ok (codes "/home/u/.local/share/clippo/history.db")
      → is_absolute (codes "/home/u/.local/share/clippo/history.db") ≡ true)
    × (config_file an_environment ≡ ok (codes "/home/u/.local/share/clippo/history.db")
        → is_absolute (codes "/home/u/.local/share/clippo/history.db") ≡ true)
    × ((e : PathError)
        → data_dir an_environment ≡ err e
        → (absolute (an_environment (codes "XDG_DATA_HOME")) ≡ none)
          × (absolute (an_environment (codes "HOME")) ≡ none))
IsAbsolute-db_path_example =
    IsAbsolute-db_path an_environment (codes "/home/u/.local/share/clippo/history.db")

its_history : db_path an_environment ≡ ok (codes "/home/u/.local/share/clippo/history.db")
unfolding db_path data_dir clippo.Core.Paths.resolve resolve_from join text_eq
its_history = refl
