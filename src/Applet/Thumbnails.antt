-- ===== src/Applet/Thumbnails.antt =====
-- crates/clippo-applet/src/thumbs.rs: the thumbnails asked for, and those that came.
use clippo.Prelude.{
  ℕ, Bool, not, ◌&&◌, List, [], ◌∷◌, map, Option, none, some, if◌then◌else◌, filter, any, length,
  leb,
}
use clippo.Prelude.Int.{eqb_ℤ}
use clippo.Prelude.Text.{Text, codes, text_eq}
use clippo.Daemon.Cache.{EntrySummary}
use clippo.Applet.Model.{EntryKey, key_of}

abbrev capacity : ℕ
capacity = 256

abbrev image_kind : Text
image_kind = codes "image"

abbrev eqb_key : EntryKey → EntryKey → Bool
eqb_key a b = eqb_ℤ a.id b.id && eqb_ℤ a.created_at b.created_at

-- a set of keys, and a map from them, as lists
abbrev pub has : EntryKey → List EntryKey → Bool
has key keys = any (eqb_key key) keys

pub record Thumbnails : Type 0 where
  pub decoded : List (EntryKey × List ℕ)
  pub asked : List EntryKey

abbrev pub no_thumbnails : Thumbnails
no_thumbnails = record { decoded = []; asked = [] }

unfoldable pub wanted : List EntrySummary → Thumbnails → List EntryKey
wanted entries t =
    filter (λ key. not (has key t.asked))
      (map key_of (filter (λ (e : EntrySummary). text_eq e.kind image_kind) entries))

abbrev pub mark_asked : EntryKey → Thumbnails → Thumbnails
mark_asked key t = if has key t.asked then t else record t { asked = key ∷ t.asked }

abbrev without : EntryKey → List (EntryKey × List ℕ) → List (EntryKey × List ℕ)
without key m = filter (λ (e : EntryKey × List ℕ). not (eqb_key key e.0)) m

abbrev pub store : EntryKey → Option (List ℕ) → Thumbnails → Thumbnails
store key none t = t
store key (some bytes) t = record t { decoded = (key, bytes) ∷ without key t.decoded }

abbrev find_key : EntryKey → List (EntryKey × List ℕ) → Option (List ℕ)
find_key key [] = none
find_key key (e ∷ m) = if eqb_key key e.0 then some e.1 else find_key key m

unfoldable get : EntrySummary → Thumbnails → Option (List ℕ)
get e t = if not (text_eq e.kind image_kind) then none else find_key (key_of e) t.decoded

unfoldable pub prune : List EntrySummary → Thumbnails → Thumbnails
prune entries t =
    if leb (length t.decoded) capacity && leb (length t.asked) capacity then t else record {
      decoded = filter (λ (e : EntryKey × List ℕ). has e.0 (map key_of entries)) t.decoded;
      asked = filter (λ key. has key (map key_of entries)) t.asked;
    }

abbrev pub clear : Thumbnails → Thumbnails
clear t = no_thumbnails
