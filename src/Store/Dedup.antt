-- ===== src/Store/Dedup.antt =====
-- crates/clippo-store/src/dedup.rs: the flavor that stands for a copy, and its hash.
pub mod Canonical
use clippo.Prelude.{
  ℕ, Bool, true, false, ◌&&◌, List, [], ◌∷◌, ◌++◌, Option, none, some, ltb, if◌then◌else◌,
}
use mathlib.Core.Option
use clippo.Prelude.Text.{Text, codes, text_eq, lower, trim, before, contains, squeeze, as_bytes}
use clippo.Core.Host.{Host}
use clippo.Core.Entry.{EntryKind, text, html, uris, image, kind_eq, Flavor, from_mime}
use clippo.Store.Images.{is_thumbnail}

unfoldable pub essence : Text → Text
essence mime = lower (trim (before b';' mime))

abbrev utf8_text : Text → Bool
utf8_text mime = contains (lower (squeeze mime)) (codes "charset=utf-8")

abbrev rank_in_kind : EntryKind → Text → ℕ
rank_in_kind text mime =
    if text_eq (essence mime) (codes "text/plain") then (if utf8_text mime then 3 else 2) else 1
rank_in_kind html mime = 1
rank_in_kind uris mime = 1
rank_in_kind image mime =
    if text_eq (essence mime) (codes "image/png")
    then 3
    else if text_eq (essence mime) (codes "image/jpeg")
    then 2
    else 1

abbrev rank_of_kind : EntryKind → Text → Option EntryKind → Option ℕ
rank_of_kind kind mime none = none
rank_of_kind kind mime (some k) = if kind_eq k kind then some (rank_in_kind kind mime) else none

unfoldable pub rank : EntryKind → Text → Option ℕ
rank kind mime = if is_thumbnail mime then none else rank_of_kind kind mime (from_mime mime)

-- one round of the loop of `canonical_flavor`; `best` is the best rank and its flavor
unfoldable pub consider : EntryKind → Option (ℕ × Flavor) → Flavor → Option (ℕ × Flavor)
consider kind best f = elim (rank kind f.mime) [
  | none ↦ best
  | some r ↦ elim best [
    | none ↦ some (r, f)
    | some (best_rank, g) ↦ if ltb best_rank r then some (r, f) else some (best_rank, g)
  ]
]

unfoldable pub canonical_from : EntryKind → Option (ℕ × Flavor) → List Flavor → Option (ℕ × Flavor)
canonical_from kind best [] = best
canonical_from kind best (f ∷ fs) = canonical_from kind (consider kind best f) fs

unfoldable pub canonical_flavor : EntryKind → List Flavor → Option Flavor
canonical_flavor kind flavors =
    Option.map (λ (b : ℕ × Flavor). b.1) (canonical_from kind none flavors)

-- `b"clippo/entry/v1\0"`
abbrev hash_domain : List ℕ
hash_domain = codes "clippo/entry/v1" ++ 0 ∷ []

module _ (host : Host) where
  -- the hasher is fed the domain, the MIME type, a zero byte and the content, in this order
  unfoldable pub hash_flavor : Flavor → Text
  hash_flavor f = host.blake3 (hash_domain ++ (as_bytes (essence f.mime) ++ 0 ∷ f.content))

  unfoldable pub hash : EntryKind → List Flavor → Option Text
  hash kind flavors = Option.map hash_flavor (canonical_flavor kind flavors)
