-- ===== src/Store/Sql.antt =====
-- Statements that may fail, and transactions: what `rusqlite` gives the crate. A statement that fails
-- changes nothing; a transaction that is dropped without a commit is rolled back.
pub mod Keeps
use clippo.Prelude.{
  ℕ, ◌≡◌, Bool, true, false, List, [], ◌∷◌, map, Option, none, some, Result, ok, err, if◌then◌else◌,
  any,
}
use clippo.Prelude.Int.{eqb_ℤ}
use clippo.Prelude.Text.{Text}
use clippo.Core.Entry.{EntryId}
use clippo.Store.Tables.{Db}

-- each statement of the crate that runs after the database is open
pub data Statement : Type 0 where
  begin commit insert_entry insert_flavor select_id_by_hash bump_entry : Statement
  delete_expired delete_over_capacity delete_entry clear_all clear_unpinned : Statement
  update_pinned update_last_used : Statement
  select_list select_count select_entry select_flavors select_mimes select_thumbnail : Statement

pub data StoreError : Type 0 where
  sqlite : Statement → StoreError
  constraint : StoreError
  no_rows : StoreError
  image_too_large : Text → ℕ → ℕ → StoreError

pub record Backend : Type 0 where
  -- whether a statement fails on these tables
  pub fault : Statement → Db → Bool
  -- the row id of a new row, given those in use: SQLite never picks one of them
  pub new_rowid : List EntryId → EntryId
  pub new_rowid_fresh : (ids : List EntryId) → any (eqb_ℤ (new_rowid ids)) ids ≡ false
  -- `images::thumbnail`; `none` is an image that cannot be decoded
  pub thumbnail : List ℕ → Option (List ℕ)

abbrev pub Sql : Type 0 → Type 0
Sql A = Db → Db × Result A StoreError

abbrev pub pure : {A : Type 0} → A → Sql A
pure a db = (db, ok a)

abbrev pub raise : {A : Type 0} → StoreError → Sql A
raise e db = (db, err e)

abbrev pub proceed :
    {A B : Type 0} → (A → Sql B) → Db × Result A StoreError → Db × Result B StoreError
proceed f (db, ok a) = f a db
proceed f (db, err e) = (db, err e)

infixl 5 ◌>>=◌
abbrev pub ◌>>=◌ : {A B : Type 0} → Sql A → (A → Sql B) → Sql B
◌>>=◌ m f db = proceed f (m db)

-- `transaction()`, the body, `commit()`
abbrev pub settle :
    {A : Type 0} → Backend → Db → Db × Result A StoreError → Db × Result A StoreError
settle b before (after, err e) = (before, err e)
settle b before (after, ok a) =
    if b.fault commit after then (before, err (sqlite commit)) else (after, ok a)

-- `conn.execute(…)?`, or a query
abbrev pub exec : {A : Type 0} → Backend → Statement → (Db → Db × A) → Sql A
exec b statement run db =
    if b.fault statement db
    then (db, err (sqlite statement))
    else let (db', a) = run db in (db', ok a)

abbrev pub transaction : {A : Type 0} → Backend → Sql A → Sql A
transaction b body db = if b.fault begin db then (db, err (sqlite begin)) else settle b db (body db)

infixl 5 ◌>>◌
abbrev pub ◌>>◌ : {B : Type 0} → Sql (Unit {0}) → Sql B → Sql B
m >> k = m >>= λ _. k
