-- ===== src/Store/History/ReadBack.antt =====
-- store.rs: what `get` reads back of a new entry.
pub mod NewRows
use clippo.Prelude.{◌≡◌, false, ◌&&◌, List, Option, none, some, ok, all, arith, append_assoc}
use clippo.Prelude.Int.{eqb_ℤ}
use clippo.Prelude.Text.{text_eq}
use clippo.Core.Entry.{EntryId, Entry, Flavor, NewEntry}
use clippo.Store.Tables.{Db, FlavorRow, flavors_of}
use clippo.Store.Tables.Valid.{owned_in}
use clippo.Store.Sql.{Backend, insert_flavor, select_entry, select_flavors}
use clippo.Store.Capture.{StoredEntry, new_row, add_flavor}
use clippo.Store.History.{entry, get}
use clippo.Store.History.ReadBack.NewRows.{those_nil}

module _ (b : Backend) where
  abbrev stored : Option Entry → List FlavorRow → Option StoredEntry
  stored none rows = none
  stored (some e) rows = some (record { entry = e; flavors = flavors_of e.id rows })

  -- the statements that read do not fail
  module _ (reads_entry : (db : Db) → b.fault select_entry db ≡ false)
      (reads_flavors : (db : Db) → b.fault select_flavors db ≡ false) where
    -- the new entry is read with its flavors, it was not there, and all others are read as before
    abbrev pub ReadsBack : NewEntry → List Flavor → Db → Db → EntryId → Type 0
    ReadsBack new flavors db db' id =
        ((get b id db').1 ≡ ok (some (record { entry = new_row id new; flavors = flavors })))
        × ((get b id db).1 ≡ ok none)
        × ((other : EntryId) → eqb_ℤ id other ≡ false → (get b other db').1 ≡ (get b other db).1)
