-- ===== src/Core/Config/Ranges.antt =====
-- config.rs: exactly the settings in range are accepted.
use clippo.Prelude.{ℕ, ◌+◌, ◌≤◌, ◌≡◌, Option, none, some, ok, arith, ◌∙◌, ap}
use clippo.Prelude.Int.{ℤ, pos}
use clippo.Prelude.Text.{Text, codes}
use clippo.Core.Chord.{Chord, display}
use clippo.Core.Chord.RoundTrip.{IsChord, parse-IsChord, parse-display_of_IsChord}
use clippo.Core.Config.{
  Config, RawConfig, Key, max_entries, max_age_days, max_image_bytes, default_max_image_bytes,
  max_entries_limit, max_age_days_limit, max_image_bytes_limit, max_mask_context, checked,
  number_or, shortcut_or, resolve, default_paste_shortcut, default_paste_shortcut_parses,
}

pub record IsValid (c : Config) : Type 0 where
  pub entries : (1 ≤ c.max_entries) × (c.max_entries ≤ max_entries_limit)
  pub days : c.max_age_days ≤ max_age_days_limit
  pub bytes : c.max_image_bytes ≤ max_image_bytes_limit
  pub mask : c.secrets.mask_prefix + c.secrets.mask_suffix ≤ max_mask_context
  pub shortcut : IsChord c.paste_shortcut

checked_bounds :
    (default : ℕ) (key : Key) (value : Option ℤ) (lo hi n : ℕ)
    → lo ≤ default
    → default ≤ hi
    → number_or default key value lo hi ≡ ok n
    → (lo ≤ n) × (n ≤ hi)
unfolding number_or checked
checked_bounds default key value lo hi n a b h = ground arith

shortcut_or-IsChord : (text : Option Text) (c : Chord) → shortcut_or text ≡ ok c → IsChord c
unfolding shortcut_or
shortcut_or-IsChord none c h =
    let e : default_paste_shortcut ≡ c = cc in
    parse-IsChord (codes "Ctrl+V") c (default_paste_shortcut_parses ∙ ap ok e)
shortcut_or-IsChord (some text) c h = parse-IsChord text c (ground arith)

-- Whatever the file says, a configuration that is accepted is in range.
pub resolve-IsValid : (raw : RawConfig) (c : Config) → resolve raw ≡ ok c → IsValid c
unfolding resolve
resolve-IsValid raw c h = record {
  entries =
      ground
        (arith, checked_bounds 500 max_entries raw.max_entries 1 max_entries_limit c.max_entries);
  days =
      ground (
        arith,
        checked_bounds 30 max_age_days raw.max_age_days 0 max_age_days_limit c.max_age_days,
      );
  bytes = ground (
    arith,
    checked_bounds default_max_image_bytes max_image_bytes raw.max_image_bytes 0
        max_image_bytes_limit c.max_image_bytes,
  );
  mask = ground arith;
  shortcut = shortcut_or-IsChord raw.paste_shortcut c.paste_shortcut (ground arith);
}

-- every key of a configuration, written out
unfoldable pub raw_of : Config → RawConfig
raw_of c = record {
  max_entries = some (pos c.max_entries);
  max_age_days = some (pos c.max_age_days);
  max_image_bytes = some (pos c.max_image_bytes);
  capture_primary = some c.capture_primary;
  auto_paste = some c.auto_paste;
  paste_shortcut = some (display c.paste_shortcut);
  allow_privileged_members = some c.allow_privileged_members;
  secrets = some (record {
    entropy_rule = some c.secrets.entropy_rule;
    mask_prefix = some (pos c.secrets.mask_prefix);
    mask_suffix = some (pos c.secrets.mask_suffix);
  });
}

-- Every configuration in range can be written: the file that says it key by key is read as it.
resolve-raw_of : (c : Config) → IsValid c → resolve (raw_of c) ≡ ok c
unfolding resolve raw_of number_or checked shortcut_or
resolve-raw_of c v = ground (arith, parse-display_of_IsChord c.paste_shortcut v.shortcut)
