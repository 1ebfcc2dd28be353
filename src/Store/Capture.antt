-- ===== src/Store/Capture.antt =====
-- crates/clippo-store/src/store.rs: what `insert` stores of a copy, before the sweep.
use mathlib.Core.Option
use clippo.Prelude.{
  ℕ, Bool, true, false, not, ◌&&◌, ◌||◌, List, [], ◌∷◌, ◌++◌, map, Option, none, some, Result, ok,
  err, ltb, if◌then◌else◌, filter, any, find?, length,
}
use clippo.Prelude.Int.{eqb_ℤ}
use clippo.Prelude.Text.{Text, text_eq}
use clippo.Core.Entry.{EntryId, EntryKind, image, kind_eq, Flavor, Entry, NewEntry, from_mime}
use clippo.Core.Config.{Config}
use clippo.Store.Images.{is_thumbnail, thumbnail_mime}
use clippo.Store.Dedup.{canonical_flavor}
use clippo.Store.Tables.{update_id}
use clippo.Store.Sql.{
  StoreError, sqlite, constraint, no_rows, image_too_large, Backend, Sql, pure, raise, ◌>>=◌, ◌>>◌,
  exec, insert_entry, insert_flavor, select_id_by_hash, bump_entry,
}
use clippo.Store.Retention.{Retention, from_config}

pub data Insertion : Type 0 where
  created bumped : EntryId → Insertion

-- `Insertion::id`, `Insertion::was_deduplicated`
abbrev insertion_id : Insertion → EntryId
insertion_id (created id) = id
insertion_id (bumped id) = id

abbrev was_deduplicated : Insertion → Bool
was_deduplicated (created id) = false
was_deduplicated (bumped id) = true

pub record StoredEntry : Type 0 where
  pub entry : Entry
  pub flavors : List Flavor

-- the limits that `set_config` sets
pub record Limits : Type 0 where
  pub retention : Retention
  pub max_image_bytes : ℕ

unfoldable pub set_config : Config → Limits
set_config config = record {
  retention = from_config config;
  max_image_bytes = config.max_image_bytes;
}

-- `distinct_flavors`: the first of each MIME type
unfoldable pub distinct_from : List Flavor → List Flavor → List Flavor
distinct_from kept [] = kept
distinct_from kept (f ∷ fs) =
    distinct_from (if any (λ seen. text_eq seen.mime f.mime) kept then kept else kept ++ f ∷ []) fs

unfoldable pub distinct_flavors : List Flavor → List Flavor
distinct_flavors flavors = distinct_from [] flavors

unfoldable pub is_over_image_cap : ℕ → Flavor → Bool
is_over_image_cap cap f =
    (elim (from_mime f.mime) [ none ↦ false | some k ↦ kind_eq k image ])
    && ltb cap (length f.content)

abbrev storable_if : ℕ → List Flavor → Option Flavor → Result (List Flavor) StoreError
storable_if cap distinct none = ok (filter (λ f. not (is_over_image_cap cap f)) distinct)
storable_if cap distinct (some canonical) =
    if is_over_image_cap cap canonical
    then err (image_too_large canonical.mime (length canonical.content) cap)
    else ok (filter (λ f. not (is_over_image_cap cap f)) distinct)

unfoldable pub storable_flavors : ℕ → NewEntry → Result (List Flavor) StoreError
storable_flavors cap new =
    storable_if cap (distinct_flavors new.flavors)
      (canonical_flavor new.kind (distinct_flavors new.flavors))

abbrev pub or_none : Option Flavor → List Flavor
or_none none = []
or_none (some f) = f ∷ []

abbrev pub new_row : EntryId → NewEntry → Entry
new_row id new = record {
  id = id;
  created_at = new.created_at;
  last_used_at = new.created_at;
  kind = new.kind;
  preview = new.preview;
  hash = new.hash;
  pinned = false;
  sensitive = new.sensitive;
}

-- `sensitive = sensitive | ?2`, and the preview of a copy found to be sensitive
abbrev pub bumped_row : NewEntry → Entry → Entry
bumped_row new e = record e {
  last_used_at = new.created_at;
  preview = if new.sensitive then new.preview else e.preview;
  sensitive = e.sensitive || new.sensitive;
}

abbrev pub has_hash : Text → Entry → Bool
has_hash hash e = text_eq e.hash hash

module _ (b : Backend) where
  abbrev thumbnail_of : Option Flavor → Option Flavor
  thumbnail_of none = none
  thumbnail_of (some source) =
      Option.map (λ (png : List ℕ). record { mime = thumbnail_mime; content = png })
        (b.thumbnail source.content)

  unfoldable pub thumbnail_for : EntryKind → List Flavor → Option Flavor
  thumbnail_for kind flavors =
      if not (kind_eq kind image) || any (λ f. is_thumbnail f.mime) flavors
      then none
      else thumbnail_of (canonical_flavor image flavors)

  -- `INSERT INTO flavors`; the primary key is the entry and the MIME type
  unfoldable pub add_flavor : EntryId → Flavor → Sql (Unit {0})
  add_flavor id f db =
      if any (λ row. eqb_ℤ row.entry_id id && text_eq row.mime f.mime) db.flavors
      then (db, err constraint)
      else exec b insert_flavor
          (λ d. (
            record d {
              flavors =
                  d.flavors ++ record { entry_id = id; mime = f.mime; content = f.content } ∷ [];
            },
            tt,
          ))
          db

  unfoldable pub add_flavors : EntryId → List Flavor → Sql (Unit {0})
  add_flavors id [] = pure tt
  add_flavors id (f ∷ fs) = do add_flavor id f; add_flavors id fs

  -- the row is in, and `last_insert_rowid` is its id
  unfoldable pub create : NewEntry → List Flavor → Sql Insertion
  create new flavors db =
      let id = b.new_rowid (map (λ e. e.id) db.entries) in
      (do add_flavors id flavors; pure (created id))
        (record db { entries = db.entries ++ new_row id new ∷ [] })

  unfoldable pub bump_found : NewEntry → Option Entry → Sql Insertion
  bump_found new none = raise no_rows
  bump_found new (some e) = do
    exec b bump_entry
        (λ db. (record db { entries = update_id e.id (bumped_row new) db.entries }, tt))
    pure (bumped e.id)

  unfoldable pub bump : NewEntry → Sql Insertion
  bump new = do
    found ← exec b select_id_by_hash (λ db. (db, find? (has_hash new.hash) db.entries))
    bump_found new found

  -- `INSERT INTO entries`, which a row with the same hash makes a unique violation
  unfoldable pub create_or_bump : NewEntry → List Flavor → Sql Insertion
  create_or_bump new flavors db =
      if b.fault insert_entry db
      then (db, err (sqlite insert_entry))
      else if any (has_hash new.hash) db.entries
      then bump new db
      else create new flavors db
