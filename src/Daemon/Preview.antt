-- ===== src/Daemon/Preview.antt =====
-- crates/clippod/src/preview.rs: what the history shows of a copy, and whether it is a secret.
pub mod Words
pub mod Sensitive
use clippo.Prelude.{
  ℕ, zero, suc, ◌*◌, ◌/◌, Bool, true, false, not, ◌&&◌, ◌||◌, List, [], ◌∷◌, ◌++◌, Option, none,
  some, leb, ltb, if◌then◌else◌, filter, find?, length, take, get_elem?, is_some,
}
use clippo.Prelude.Text.{
  Text, codes, text_eq, is_empty, is_whitespace, is_control, lower, trim, before, starts_with,
  decimal,
}
use clippo.Core.Host.{Host}
use clippo.Core.Entry.{EntryKind, image, kind_eq, Flavor}
use clippo.Core.Secrets.Masking.{SecretsConfig, mask}
use clippo.Core.Secrets.Detect.{Signal, password_manager_hint, shape, entropy, detect}
use clippo.Store.Dedup.{canonical_flavor}
use clippo.Daemon.Cache.{preview_max_chars}

abbrev pub ellipsis : ℕ
ellipsis = 0x2026

abbrev pub is_blank : ℕ → Bool
is_blank c = is_whitespace c || is_control c

-- the loop of `flatten`: what is written so far, and whether a space is pending
unfoldable pub flatten_from : Text → Bool → Text → Text
flatten_from flattened pending_space [] = flattened
flatten_from flattened pending_space (c ∷ text) =
    if is_blank c
    then flatten_from flattened (not (is_empty flattened)) text
    else flatten_from (flattened ++ (if pending_space then 0x20 ∷ c ∷ [] else c ∷ [])) false text

unfoldable pub flatten : Text → Text
flatten text = flatten_from [] false text

unfoldable pub truncate : Text → Text
truncate text =
    if is_some (get_elem? text preview_max_chars)
    then take preview_max_chars text ++ ellipsis ∷ []
    else take preview_max_chars text

unfoldable pub essence : Text → Text
essence mime = lower (trim (before b';' mime))

unfoldable pub is_text_bearing : Text → Bool
is_text_bearing mime = starts_with (essence mime) (codes "text/")

abbrev first_plain : List Flavor → Option Flavor
first_plain flavors = find? (λ f. text_eq (essence f.mime) (codes "text/plain")) flavors

unfoldable pub preview_source : EntryKind → List Flavor → Option Flavor
preview_source kind flavors =
    if kind_eq kind image then canonical_flavor kind flavors else elim (first_plain flavors) [
      | some plain ↦ some plain
      | none ↦ canonical_flavor kind flavors
    ]

-- `position`: the canonical flavor is the first with its MIME type, since a rank is that of the type
unfoldable pub position : Text → List Flavor → Option ℕ
position mime [] = none
position mime (f ∷ fs) =
    if text_eq f.mime mime
    then some 0
    else elim (position mime fs) [ none ↦ none | some i ↦ some (suc i) ]

abbrev pub bearing_at : List Flavor → ℕ → Bool
bearing_at flavors i = elim (get_elem? flavors i) [ none ↦ false | some f ↦ is_text_bearing f.mime ]

abbrev pub filter_index : List Flavor → Option ℕ → Option ℕ
filter_index flavors none = none
filter_index flavors (some i) = if bearing_at flavors i then some i else none

abbrev pub index_of : List Flavor → Option Flavor → Option ℕ
index_of flavors none = none
index_of flavors (some canonical) = filter_index flavors (position canonical.mime flavors)

-- the text-bearing flavors other than the one at the index
abbrev pub others : Option ℕ → List Flavor → List Flavor
others canonical [] = []
others none (f ∷ fs) = if is_text_bearing f.mime then f ∷ others none fs else others none fs
others (some zero) (f ∷ fs) = others none fs
others (some (suc i)) (f ∷ fs) =
    if is_text_bearing f.mime then f ∷ others (some i) fs else others (some i) fs

abbrev pub front : Option Flavor → List Flavor → List Flavor
front none rest = rest
front (some f) rest = f ∷ rest

abbrev pub ordered : List Flavor → Option ℕ → List Flavor
ordered flavors none = others none flavors
ordered flavors (some i) = front (get_elem? flavors i) (others (some i) flavors)

-- the canonical flavor first, if it bears text
unfoldable pub detection_flavors : EntryKind → List Flavor → List Flavor
detection_flavors kind flavors = ordered flavors (index_of flavors (canonical_flavor kind flavors))

pub record Description : Type 0 where
  pub preview : Text
  pub sensitive : Bool
  pub signal : Option Signal

abbrev kib : ℕ
kib = 1024

abbrev mib : ℕ
mib = 1024 * kib

-- `tenths a b` is `{:.1}` of the floating-point quotient of `a` by `b`
unfoldable pub human_bytes : (ℕ → ℕ → Text) → ℕ → Text
human_bytes tenths bytes =
    if leb mib bytes
    then tenths bytes mib ++ codes " MB"
    else if leb kib bytes
    then tenths bytes kib ++ codes " KB"
    else decimal bytes ++ codes " B"

module _ (host : Host) (tenths : ℕ → ℕ → Text) where
  unfoldable pub build : EntryKind → List Flavor → Text
  build kind flavors = elim (preview_source kind flavors) [
    | none ↦ []
    | some source ↦
        if kind_eq kind image
        then source.mime ++ codes ", " ++ human_bytes tenths (length source.content)
        else truncate (flatten (host.from_utf8_lossy source.content))
  ]

abbrev pub or_first : Option Signal → Signal → Option Signal
or_first none other = some other
or_first (some first) other = some first

module _ (host : Host) where
  unfoldable pub whole_value : EntryKind → List Flavor → Option Text
  whole_value kind flavors =
      if kind_eq kind image then none else elim (preview_source kind flavors) [
        | none ↦ none
        | some f ↦ some (host.from_utf8_lossy f.content)
      ]

  unfoldable pub reveal : EntryKind → List Flavor → Option Text
  reveal kind flavors = whole_value kind flavors

  abbrev pub signal_of : SecretsConfig → Flavor → Option Signal
  signal_of config f = detect host (host.from_utf8_lossy f.content) false config

  -- the loop: a shape ends it, and the first other signal is what it falls back to
  unfoldable pub detect_from : SecretsConfig → Option Signal → List Flavor → Option Signal
  detect_from config fallback [] = fallback
  detect_from config fallback (f ∷ fs) = elim (signal_of config f) [
    | none ↦ detect_from config fallback fs
    | some (shape s) ↦ some (shape s)
    | some entropy ↦ detect_from config (or_first fallback entropy) fs
    | some password_manager_hint ↦ detect_from config (or_first fallback password_manager_hint) fs
  ]

  unfoldable pub detect_over_flavors :
      EntryKind → List Flavor → Bool → SecretsConfig → Option Signal
  detect_over_flavors kind flavors hinted config =
      if hinted
      then some password_manager_hint
      else detect_from config none (detection_flavors kind flavors)

  abbrev or_default : Option Text → Text
  or_default none = []
  or_default (some text) = text

  unfoldable pub describe :
      (ℕ → ℕ → Text) → EntryKind → List Flavor → Bool → SecretsConfig → Description
  describe tenths kind flavors hinted config =
      let signal = detect_over_flavors kind flavors hinted config in
      record {
        preview =
            if is_some signal && not (kind_eq kind image)
            then mask host (flatten (or_default (whole_value kind flavors))) config
            else build host tenths kind flavors;
        sensitive = is_some signal;
        signal = signal;
      }
