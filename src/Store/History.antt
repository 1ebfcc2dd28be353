-- ===== src/Store/History.antt =====
-- crates/clippo-store/src/store.rs: the store's operations. Reclaiming the space of deleted rows
-- changes no row, its failure is only logged, and it is left out.
pub mod Valid
pub mod Atomic
pub mod Pinned
pub mod ReadBack
use mathlib.Core.Option
use clippo.Prelude.{
  ℕ, ◌-◌, ◌^◌, Bool, true, false, not, ◌&&◌, List, [], ◌∷◌, ◌++◌, map, Option, none, some, Result,
  ok, err, ltb, ◌==◌, if◌then◌else◌, find?, length, take, drop, min, any,
}
use clippo.Prelude.Int.{eqb_ℤ}
use clippo.Prelude.Text.{Text, text_eq}
use clippo.Core.Entry.{EntryId, Timestamp, Flavor, Entry, NewEntry}
use clippo.Store.Images.{is_thumbnail}
use clippo.Store.Tables.{Db, FlavorRow, has_id, delete_where, update_id, by_recency, flavors_of}
use clippo.Store.Sql.{
  StoreError, Statement, Backend, Sql, pure, raise, ◌>>=◌, exec, transaction, delete_entry,
  clear_all, clear_unpinned, update_pinned, update_last_used, select_list, select_count,
  select_entry, select_flavors, select_mimes, select_thumbnail,
}
use clippo.Store.Retention.{Retention, Sweep, sweep}
use clippo.Store.Capture.{
  Insertion, StoredEntry, Limits, storable_flavors, thumbnail_for, or_none, create_or_bump,
}

-- `as_i64`
abbrev pub as_i64 : ℕ → ℕ
as_i64 n = min n (2 ^ 63 - 1)

-- `UPDATE … WHERE id = ?`: whether a row was updated
abbrev pub update_one : EntryId → (Entry → Entry) → Db → Db × Bool
update_one id change db =
    (record db { entries = update_id id change db.entries }, any (has_id id) db.entries)

module _ (b : Backend) where
  -- the transaction of `insert`
  unfoldable pub insert_body : Retention → NewEntry → List Flavor → Sql Insertion
  insert_body retention new flavors = do
    insertion ← create_or_bump b new flavors
    swept ← sweep b retention new.created_at
    pure insertion

  -- the flavors that are stored, and the thumbnail behind them
  abbrev pub with_thumbnail : NewEntry → List Flavor → List Flavor
  with_thumbnail new flavors = flavors ++ or_none (thumbnail_for b new.kind flavors)

  unfoldable pub insert_flavors :
      Retention → NewEntry → Result (List Flavor) StoreError → Sql Insertion
  insert_flavors retention new (err e) = raise e
  insert_flavors retention new (ok flavors) =
      transaction b (insert_body retention new (with_thumbnail new flavors))

  unfoldable pub insert : Limits → NewEntry → Sql Insertion
  insert limits new =
      insert_flavors limits.retention new (storable_flavors limits.max_image_bytes new)

  -- `ORDER BY last_used_at DESC, id DESC LIMIT ?1 OFFSET ?2`
  unfoldable pub list : ℕ → ℕ → Sql (List Entry)
  list limit offset =
      exec b select_list
        (λ db. (db, take (as_i64 limit) (drop (as_i64 offset) (by_recency db.entries))))

  unfoldable pub count : Sql ℕ
  count = exec b select_count (λ db. (db, length db.entries))

  unfoldable pub entry : EntryId → Sql (Option Entry)
  entry id = exec b select_entry (λ db. (db, find? (has_id id) db.entries))

  unfoldable pub flavors_if : Option Entry → Sql (Option StoredEntry)
  flavors_if none = pure none
  flavors_if (some e) =
      exec b select_flavors
        (λ db. (db, some (record { entry = e; flavors = flavors_of e.id db.flavors })))

  unfoldable pub get : EntryId → Sql (Option StoredEntry)
  get id = do found ← entry id; flavors_if found

  abbrev row_of : EntryId → Text → FlavorRow → Bool
  row_of id mime row = eqb_ℤ row.entry_id id && text_eq row.mime mime

  unfoldable pub thumbnail_row : EntryId → Option Text → Sql (Option (List ℕ))
  thumbnail_row id none = pure none
  thumbnail_row id (some mime) = exec b select_thumbnail (λ db.
      (db, Option.map (λ (row : FlavorRow). row.content) (find? (row_of id mime) db.flavors)))

  unfoldable pub thumbnail : EntryId → Sql (Option (List ℕ))
  thumbnail id = do
    mimes ← exec b select_mimes (λ db. (db, map (λ f. f.mime) (flavors_of id db.flavors)))
    thumbnail_row id (find? is_thumbnail mimes)

  -- whether there was anything to delete
  unfoldable pub delete : EntryId → Sql Bool
  delete id = do deleted ← exec b delete_entry (delete_where (has_id id)); pure (ltb 0 deleted)

  unfoldable pub clear : Bool → Sql ℕ
  clear true = exec b clear_all (delete_where (λ e. true))
  clear false = exec b clear_unpinned (delete_where (λ e. not e.pinned))

  -- outside a transaction: what the first statement deleted stays deleted if the second fails
  unfoldable pub enforce_retention : Retention → Timestamp → Sql Sweep
  enforce_retention retention now = sweep b retention now

  unfoldable pub set_pinned : EntryId → Bool → Sql Bool
  set_pinned id pinned = exec b update_pinned (update_one id (λ e. record e { pinned = pinned }))

  unfoldable pub touch : EntryId → Timestamp → Sql Bool
  touch id at = exec b update_last_used (update_one id (λ e. record e { last_used_at = at }))
