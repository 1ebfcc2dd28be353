-- ===== src/Daemon/State/Commit.antt =====
-- daemon.rs: statements that report no change make none.
use clippo.Prelude.{
  ℕ, ◌≡◌, refl, ap, Bool, true, false, not, List, [], ◌∷◌, Result, ok, err, ltb, filter, any,
  length, arith, Bool-cases, inl, inr,
}
use clippo.Core.Entry.{EntryId, Timestamp, Entry}
use clippo.Store.Tables.{Db, FlavorRow, has_id, orphaned, delete_where, update_id}
use clippo.Store.Sql.{StoreError, Backend, Sql, exec}
use clippo.Store.Sql
use clippo.Store.History
use clippo.Store.History.{update_one}

none_deleted : (p : Entry → Bool) (es : List Entry) → length (filter p es) ≡ 0 → any p es ≡ false
none_deleted p [] h = refl
none_deleted p (e ∷ es) h = ground (arith, none_deleted p es)

all_kept : (p : Entry → Bool) (es : List Entry) → any p es ≡ false → filter (λ e. not (p e)) es ≡ es
all_kept p [] h = refl
all_kept p (e ∷ es) h = ground (arith, all_kept p es)

none_orphaned :
    (p : Entry → Bool) (row : FlavorRow) (es : List Entry)
    → any p es ≡ false
    → orphaned p es row ≡ false
none_orphaned p row [] h = refl
none_orphaned p row (e ∷ es) h = ground (arith, none_orphaned p row es)

rows_kept :
    (p : Entry → Bool) (es : List Entry) (rows : List FlavorRow)
    → any p es ≡ false
    → filter (λ row. not (orphaned p es row)) rows ≡ rows
rows_kept p es [] h = refl
rows_kept p es (row ∷ rows) h =
    rw (none_orphaned p row es h) (ap (λ (r : List FlavorRow). row ∷ r) (rows_kept p es rows h))

pub delete_where_none :
    (p : Entry → Bool) (db : Db) → (delete_where p db).1 ≡ 0 → (delete_where p db).0 ≡ db
unfolding delete_where
delete_where_none p db h =
    let free = none_deleted p db.entries h in
    rw (all_kept p db.entries free, rows_kept p db.entries db.flavors free) refl

update_id_none :
    (id : EntryId) (change : Entry → Entry) (es : List Entry)
    → any (has_id id) es ≡ false
    → update_id id change es ≡ es
unfolding update_id
update_id_none id change [] h = refl
update_id_none id change (e ∷ es) h = ground (arith, update_id_none id change es)

update_one_none :
    (id : EntryId) (change : Entry → Entry) (db : Db)
    → (update_one id change db).1 ≡ false
    → (update_one id change db).0 ≡ db
update_one_none id change db h = rw (update_id_none id change db.entries h) refl

-- a result that failed, or that reports no change, comes with the tables as they were
abbrev pub Honest : {A : Type 0} → (A → Bool) → Db → Db × Result A StoreError → Type 0
Honest changed db (after, ok a) = changed a ≡ false → after ≡ db
Honest changed db (after, err e) = after ≡ db

module _ (b : Backend) where
  pub Honest-exec :
      {A : Type 0} (changed : A → Bool) (s : Sql.Statement) (run : Db → Db × A) (db : Db)
      → (changed (run db).1 ≡ false → (run db).0 ≡ db)
      → Honest changed db (exec b s run db)
  Honest-exec changed s run db h = elim (Bool-cases (b.fault s db)) [
    | inl e ↦ rw e refl
    | inr e ↦ rw e h
  ]

  pub delete-Honest :
      (id : EntryId) (db : Db) → Honest (λ deleted. deleted) db (History.delete b id db)
  unfolding History.delete
  delete-Honest id db = elim (Bool-cases (b.fault Sql.delete_entry db)) [
    | inl e ↦ rw e refl
    | inr e ↦ rw e (λ h. delete_where_none (has_id id) db (none_of h))
  ]
    where
      none_of : {n : ℕ} → ltb 0 n ≡ false → n ≡ 0
      none_of h = ground arith

  pub clear-Honest :
      (include_pinned : Bool) (db : Db) → Honest (ltb 0) db (History.clear b include_pinned db)
  unfolding History.clear
  clear-Honest true db =
      Honest-exec (ltb 0) Sql.clear_all (delete_where (λ e. true)) db
        (λ h. delete_where_none (λ e. true) db (ground arith))
  clear-Honest false db =
      Honest-exec (ltb 0) Sql.clear_unpinned (delete_where (λ e. not e.pinned)) db
        (λ h. delete_where_none (λ e. not e.pinned) db (ground arith))

  pub set_pinned-Honest :
      (id : EntryId) (pinned : Bool) (db : Db)
      → Honest (λ updated. updated) db (History.set_pinned b id pinned db)
  unfolding History.set_pinned
  set_pinned-Honest id pinned db =
      Honest-exec (λ updated. updated) Sql.update_pinned
        (update_one id (λ e. record e { pinned = pinned })) db
        (update_one_none id (λ e. record e { pinned = pinned }) db)

  pub touch-Honest :
      (id : EntryId) (at : Timestamp) (db : Db)
      → Honest (λ touched. touched) db (History.touch b id at db)
  unfolding History.touch
  touch-Honest id at db =
      Honest-exec (λ touched. touched) Sql.update_last_used
        (update_one id (λ e. record e { last_used_at = at })) db
        (update_one_none id (λ e. record e { last_used_at = at }) db)
