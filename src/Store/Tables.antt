-- ===== src/Store/Tables.antt =====
-- The two tables of crates/clippo-store/src/schema.rs, and what the SQL statements of the crate do to
-- them. A list of rows is in the order of row ids for `flavors`; that of `entries` is not observed,
-- since every query on it sorts or selects by a key.
pub mod Order
pub mod Valid
pub mod Rows
use clippo.Prelude.{
  ℕ, suc, Bool, true, false, not, ◌&&◌, ◌||◌, List, [], ◌∷◌, ◌++◌, map, Option, none, some,
  if◌then◌else◌, filter, any, find?, length,
}
use clippo.Prelude.Int.{ℤ, ltb_ℤ, eqb_ℤ}
use clippo.Prelude.Text.{Text, text_eq}
use clippo.Core.Entry.{EntryId, Timestamp, Entry, Flavor}

-- a row of `flavors`
pub record FlavorRow : Type 0 where
  pub entry_id : EntryId
  pub mime : Text
  pub content : List ℕ

pub record Db : Type 0 where
  pub entries : List Entry
  pub flavors : List FlavorRow

abbrev pub has_id : EntryId → Entry → Bool
has_id id e = eqb_ℤ e.id id

-- `ON DELETE CASCADE`
abbrev pub orphaned : (Entry → Bool) → List Entry → FlavorRow → Bool
orphaned p es row = any (λ e. p e && has_id row.entry_id e) es

-- `DELETE FROM entries WHERE p`: the tables after it, and the number of rows deleted
unfoldable pub delete_where : (Entry → Bool) → Db → Db × ℕ
delete_where p db = (
  record {
    entries = filter (λ e. not (p e)) db.entries;
    flavors = filter (λ row. not (orphaned p db.entries row)) db.flavors;
  },
  length (filter p db.entries),
)

-- `UPDATE entries SET … WHERE id = ?`, for a change that keeps the id
unfoldable pub update_id : EntryId → (Entry → Entry) → List Entry → List Entry
update_id id change [] = []
update_id id change (e ∷ es) = (if has_id id e then change e else e) ∷ update_id id change es

-- `ORDER BY last_used_at DESC, id DESC`
unfoldable pub more_recent : Entry → Entry → Bool
more_recent e f =
    ltb_ℤ f.last_used_at e.last_used_at || (eqb_ℤ f.last_used_at e.last_used_at && ltb_ℤ f.id e.id)

unfoldable pub insert_sorted : Entry → List Entry → List Entry
insert_sorted e [] = e ∷ []
insert_sorted e (f ∷ fs) = if more_recent f e then f ∷ insert_sorted e fs else e ∷ f ∷ fs

unfoldable pub by_recency : List Entry → List Entry
by_recency [] = []
by_recency (e ∷ es) = insert_sorted e (by_recency es)

abbrev pub flavors_of : EntryId → List FlavorRow → List Flavor
flavors_of id [] = []
flavors_of id (row ∷ rows) =
    if eqb_ℤ row.entry_id id
    then record { mime = row.mime; content = row.content } ∷ flavors_of id rows
    else flavors_of id rows

abbrev pub count_where {ℓ} : {A : Type ℓ} → (A → Bool) → List A → ℕ
count_where p [] = 0
count_where p (x ∷ xs) = if p x then suc (count_where p xs) else count_where p xs
