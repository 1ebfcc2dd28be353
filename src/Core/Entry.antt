-- ===== src/Core/Entry.antt =====
-- crates/clippo-core/src/entry.rs: ids, times, kinds, flavors and entries.
pub mod Kinds
pub mod Times
use clippo.Prelude.{
  ℕ, ◌-◌, ◌^◌, Bool, true, false, List, [], ◌∷◌, ◌++◌, Option, none, some, Result, ok, err, ltb,
  leb, min, if◌then◌else◌, find?,
}
use clippo.Prelude.Int.{ℤ, pos, pos_part, ◌+ℤ◌, ◌-ℤ◌, clamp_i64}
use clippo.Prelude.Text.{Text, codes, text_eq, trim, lower, before, starts_with}

-- `EntryId(i64)` and `Timestamp(i64)`; a `Duration` is its whole milliseconds
abbrev pub EntryId : Type 0
EntryId = ℤ

abbrev pub Timestamp : Type 0
Timestamp = ℤ

abbrev pub Duration : Type 0
Duration = ℕ

unfoldable pub millis_of : Duration → ℕ
millis_of age = min age (2 ^ 63 - 1)

unfoldable pub since : Timestamp → Timestamp → Duration
since later earlier = pos_part (clamp_i64 (later -ℤ earlier))

unfoldable saturating_add : Timestamp → Duration → Timestamp
saturating_add t age = clamp_i64 (t +ℤ pos (millis_of age))

unfoldable pub saturating_sub : Timestamp → Duration → Timestamp
saturating_sub t age = clamp_i64 (t -ℤ pos (millis_of age))

-- `EntryKind`, in the order that `Ord` is derived from
pub data EntryKind : Type 0 where
  text html uris image : EntryKind

abbrev discriminant : EntryKind → ℕ
discriminant text = 0
discriminant html = 1
discriminant uris = 2
discriminant image = 3

abbrev pub kind_eq : EntryKind → EntryKind → Bool
kind_eq text text = true
kind_eq html html = true
kind_eq uris uris = true
kind_eq image image = true
kind_eq _ _ = false

-- `EntryKind::ALL`
abbrev all_kinds : List EntryKind
all_kinds = image ∷ uris ∷ html ∷ text ∷ []

abbrev pub as_str : EntryKind → Text
as_str text = codes "text"
as_str html = codes "html"
as_str uris = codes "uris"
as_str image = codes "image"

-- `EntryKind::from_str`; the error holds the value that is no kind
unfoldable pub parse_kind : Text → Result EntryKind Text
parse_kind s =
    if text_eq s (codes "text")
    then ok text
    else if text_eq s (codes "html")
    then ok html
    else if text_eq s (codes "uris")
    then ok uris
    else if text_eq s (codes "image")
    then ok image
    else err s

-- the MIME type without its parameters, trimmed, in lower case
unfoldable essence_of : Text → Text
essence_of mime = lower (trim (before b';' mime))

unfoldable kind_of_essence : Text → Option EntryKind
kind_of_essence mime =
    if text_eq mime (codes "text/html")
    then some html
    else if text_eq mime (codes "text/uri-list")
    then some uris
    else if starts_with mime (codes "image/")
    then some image
    else if starts_with mime (codes "text/")
    then some text
    else none

unfoldable pub from_mime : Text → Option EntryKind
unfolding essence_of kind_of_essence
from_mime mime = kind_of_essence (essence_of mime)

pub record Flavor : Type 0 where
  pub mime : Text
  pub content : List ℕ

-- `Iterator::max` over the kinds found so far
abbrev pub max_kind : Option EntryKind → Option EntryKind → Option EntryKind
max_kind none k = k
max_kind (some j) none = some j
max_kind (some j) (some k) = if ltb (discriminant k) (discriminant j) then some j else some k

unfoldable pub for_flavors : List Flavor → Option EntryKind
for_flavors [] = none
for_flavors (f ∷ fs) = max_kind (from_mime f.mime) (for_flavors fs)

pub record Entry : Type 0 where
  pub id : EntryId
  pub created_at : Timestamp
  pub last_used_at : Timestamp
  pub kind : EntryKind
  pub preview : Text
  pub hash : Text
  pub pinned : Bool
  pub sensitive : Bool

pub record NewEntry : Type 0 where
  pub created_at : Timestamp
  pub kind : EntryKind
  pub preview : Text
  pub hash : Text
  pub sensitive : Bool
  pub flavors : List Flavor

-- `NewEntry::flavor`
unfoldable flavor : NewEntry → Text → Option Flavor
flavor new mime = find? (λ f. text_eq f.mime mime) new.flavors
