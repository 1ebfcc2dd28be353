-- ===== src/Store/History/Valid.antt =====
-- store.rs: every operation keeps the constraints of the schema, whatever statement fails.
use clippo.Prelude.{
  ℕ, ◌≡◌, refl, Bool, true, false, not, ◌&&◌, List, [], ◌∷◌, ◌++◌, map, Option, none, some, Result,
  ok, err, any, arith, all-append, any-append, Bool-cases, inl, inr,
}
use clippo.Prelude.Int.{eqb_ℤ}
use clippo.Prelude.Text.{text_eq}
use clippo.Core.Entry.{EntryId, Timestamp, Duration, Entry, Flavor, NewEntry}
use clippo.Store.Tables.{Db, FlavorRow, has_id, delete_where}
use clippo.Store.Tables.Valid.{
  IsValid, owned_in, same_key, delete_where-IsValid, KeepsKeys, update_id-IsValid,
}
use clippo.Store.Sql.Keeps.{
  Keeps, Keeps-pure, Keeps-raise, Keeps-bind, Keeps-exec, Keeps-transaction,
}
use clippo.Store.Tables.Rows.{
  distinct_ids-append, distinct_hashes-append, distinct_keys-append, all-owned-append,
}
use clippo.Store.Sql.{
  StoreError, Backend, pure, ◌>>◌, exec, insert_flavor, insert_entry, select_id_by_hash, bump_entry,
  no_rows, delete_expired, delete_over_capacity, delete_entry, clear_all, clear_unpinned,
  update_pinned, update_last_used,
}
use clippo.Store.Retention.{
  Retention, is_over_capacity, limit_of, sweep_expired, sweep_over_capacity, sweep_rest, sweep,
}
use clippo.Store.Capture.{
  new_row, bumped_row, bump_found, bump, add_flavor, add_flavors, create, create_or_bump, has_hash,
  created, bumped,
}
use clippo.Store.History.{
  Limits, insert_body, insert_flavors, insert, delete, clear, enforce_retention, set_pinned, touch,
  update_one,
}

-- valid tables in which an id is in use
abbrev ValidWith : EntryId → Db → Type 0
ValidWith id db = IsValid db × (any (has_id id) db.entries ≡ true)

abbrev row_for : EntryId → Flavor → FlavorRow
row_for id f = record { entry_id = id; mime = f.mime; content = f.content }

with_row :
    (id : EntryId) (f : Flavor) (db : Db)
    → ValidWith id db
    → any (same_key (row_for id f)) db.flavors ≡ false
    → ValidWith id (record db { flavors = db.flavors ++ row_for id f ∷ [] })
with_row id f db (v, h) free = (
  record {
    ids = v.ids;
    hashes = v.hashes;
    owned =
        ground (arith, v.owned, all-append (owned_in db.entries) db.flavors (row_for id f ∷ []));
    keys = distinct_keys-append (row_for id f) db.flavors free v.keys;
  },
  h,
)

module _ (b : Backend) where
  add_flavor-Keeps : (id : EntryId) (f : Flavor) → Keeps (ValidWith id) (add_flavor b id f)
  unfolding add_flavor
  add_flavor-Keeps id f = record {
    at = λ db v.
        elim (Bool-cases
          (any (λ row. eqb_ℤ row.entry_id id && text_eq row.mime f.mime) db.flavors)) [
            | inl taken ↦ rw taken v
            | inr free ↦ rw free (elim (Bool-cases (b.fault insert_flavor db)) [
              | inl e ↦ rw e v
              | inr e ↦ rw e (with_row id f db v free)
            ])
          ];
  }

  add_flavors-Keeps : (id : EntryId) (fs : List Flavor) → Keeps (ValidWith id) (add_flavors b id fs)
  unfolding add_flavors
  add_flavors-Keeps id [] = Keeps-pure tt
  add_flavors-Keeps id (f ∷ fs) =
      Keeps-bind (add_flavor b id f) _ (add_flavor-Keeps id f) (λ u. add_flavors-Keeps id fs)

  created-Keeps :
      (id : EntryId) (fs : List Flavor)
      → Keeps (ValidWith id) (do add_flavors b id fs; pure (created id))
  created-Keeps id fs =
      Keeps-bind (add_flavors b id fs) _ (add_flavors-Keeps id fs) (λ u. Keeps-pure (created id))

  pub any-map_id :
      (i : EntryId) (es : List Entry) → any (eqb_ℤ i) (map (λ e. e.id) es) ≡ any (has_id i) es
  any-map_id i [] = refl
  any-map_id i (e ∷ es) = ground (arith, any-map_id i es)

  with_entry :
      (new : NewEntry) (db : Db)
      → IsValid db
      → any (has_hash new.hash) db.entries ≡ false
      → (let id = b.new_rowid (map (λ e. e.id) db.entries) in
          ValidWith id (record db { entries = db.entries ++ new_row id new ∷ [] }))
  with_entry new db v free =
      let id = b.new_rowid (map (λ e. e.id) db.entries) in
      let fresh : any (has_id id) db.entries ≡ false =
        rw any-map_id at (b.new_rowid_fresh (map (λ e. e.id) db.entries)) in
      (
        record {
          ids = distinct_ids-append (new_row id new) db.entries fresh v.ids;
          hashes = distinct_hashes-append (new_row id new) db.entries free v.hashes;
          owned = all-owned-append db.entries (new_row id new) db.flavors v.owned;
          keys = v.keys;
        },
        ground (arith, any-append (has_id id) db.entries (new_row id new ∷ [])),
      )

  create_at :
      (new : NewEntry) (fs : List Flavor) (db : Db)
      → IsValid db
      → any (has_hash new.hash) db.entries ≡ false
      → IsValid (create b new fs db).0
  unfolding create
  create_at new fs db v free =
      let id = b.new_rowid (map (λ e. e.id) db.entries) in
      ((created-Keeps id fs).at _ (with_entry new db v free)).0

  bumped_row-KeepsKeys : (id : EntryId) (new : NewEntry) → KeepsKeys id (bumped_row new)
  bumped_row-KeepsKeys id new = record { same_id = λ e. refl; same_hash = λ e. refl }

  bump_found-Keeps : (new : NewEntry) (o : Option Entry) → Keeps IsValid (bump_found b new o)
  unfolding bump_found
  bump_found-Keeps new none = Keeps-raise no_rows
  bump_found-Keeps new (some e) =
      Keeps-bind _ _
        (Keeps-exec b bump_entry _
          (update_id-IsValid e.id (bumped_row new) (bumped_row-KeepsKeys e.id new)))
        (λ u. Keeps-pure (bumped e.id))

  bump-Keeps : (new : NewEntry) → Keeps IsValid (bump b new)
  unfolding bump
  bump-Keeps new =
      Keeps-bind _ _ (Keeps-exec b select_id_by_hash _ (λ db v. v)) (bump_found-Keeps new)

  create_or_bump-Keeps :
      (new : NewEntry) (fs : List Flavor) → Keeps IsValid (create_or_bump b new fs)
  unfolding create_or_bump
  create_or_bump-Keeps new fs = record {
    at = λ db v. elim (Bool-cases (b.fault insert_entry db)) [
      | inl e ↦ rw e v
      | inr e ↦ rw e (elim (Bool-cases (any (has_hash new.hash) db.entries)) [
        | inl old ↦ rw old ((bump-Keeps new).at db v)
        | inr free ↦ rw free (create_at new fs db v free)
      ])
    ];
  }

  sweep_expired-Keeps :
      (age : Option Duration) (now : Timestamp) → Keeps IsValid (sweep_expired b age now)
  unfolding sweep_expired
  sweep_expired-Keeps none now = Keeps-pure 0
  sweep_expired-Keeps (some age) now = Keeps-exec b delete_expired _ (delete_where-IsValid _)

  sweep_over_capacity-Keeps : (limit : ℕ) → Keeps IsValid (sweep_over_capacity b limit)
  unfolding sweep_over_capacity
  sweep_over_capacity-Keeps limit =
      Keeps-exec b delete_over_capacity _
        (λ db. delete_where-IsValid (is_over_capacity limit db.entries) db)

  sweep_rest-Keeps : (policy : Retention) (n : ℕ) → Keeps IsValid (sweep_rest b policy n)
  unfolding sweep_rest
  sweep_rest-Keeps policy n =
      Keeps-bind (sweep_over_capacity b (limit_of policy)) _
        (sweep_over_capacity-Keeps (limit_of policy))
        (λ k. Keeps-pure (record { expired = n; over_capacity = k }))

  sweep-Keeps : (policy : Retention) (now : Timestamp) → Keeps IsValid (sweep b policy now)
  unfolding sweep
  sweep-Keeps policy now =
      Keeps-bind (sweep_expired b policy.max_age now) (sweep_rest b policy)
        (sweep_expired-Keeps policy.max_age now) (sweep_rest-Keeps policy)

  insert_flavors-Keeps :
      (retention : Retention) (new : NewEntry) (r : Result (List Flavor) StoreError)
      → Keeps IsValid (insert_flavors b retention new r)
  unfolding insert_flavors insert_body
  insert_flavors-Keeps retention new (err e) = Keeps-raise e
  insert_flavors-Keeps retention new (ok fs) = Keeps-transaction b _ (
      Keeps-bind _ _ (create_or_bump-Keeps new _) (λ insertion.
        Keeps-bind _ _ (sweep-Keeps retention new.created_at) (λ swept. Keeps-pure insertion)))

-- one call of each operation that writes
pub data Write : Type 0 where
  insert_call : Limits → NewEntry → Write
  delete_call : EntryId → Write
  clear_call : Bool → Write
  sweep_call : Retention → Timestamp → Write
  pin_call : EntryId → Bool → Write
  touch_call : EntryId → Timestamp → Write

unfoldable pub write : Backend → Write → Db → Db
write b (insert_call limits new) db = (insert b limits new db).0
write b (delete_call id) db = (delete b id db).0
write b (clear_call include_pinned) db = (clear b include_pinned db).0
write b (sweep_call retention now) db = (enforce_retention b retention now db).0
write b (pin_call id pinned) db = (set_pinned b id pinned db).0
write b (touch_call id at) db = (touch b id at db).0

-- Every operation that writes keeps the constraints of the schema: ids and hashes are distinct, every
-- flavor belongs to an entry, and no entry has a MIME type twice. Any statement may fail.
pub write-IsValid : (b : Backend) (w : Write) (db : Db) → IsValid db → IsValid (write b w db)
unfolding write insert delete clear enforce_retention set_pinned touch
write-IsValid b (insert_call limits new) db v =
    (insert_flavors-Keeps b limits.retention new _).at db v
write-IsValid b (delete_call id) db v =
    (Keeps-bind (exec b delete_entry (delete_where (has_id id))) _
        (Keeps-exec b delete_entry _ (delete_where-IsValid _)) (λ n. Keeps-pure _)).at
      db v
write-IsValid b (clear_call true) db v =
    (Keeps-exec b clear_all (delete_where (λ e. true)) (delete_where-IsValid (λ e. true))).at db v
write-IsValid b (clear_call false) db v =
    (Keeps-exec b clear_unpinned (delete_where (λ e. not e.pinned))
        (delete_where-IsValid (λ e. not e.pinned))).at
      db v
write-IsValid b (sweep_call retention now) db v = (sweep-Keeps b retention now).at db v
write-IsValid b (pin_call id pinned) db v =
    (Keeps-exec b update_pinned (update_one id (λ e. record e { pinned = pinned })) (
        update_id-IsValid id (λ e. record e { pinned = pinned })
          (record { same_id = λ e. refl; same_hash = λ e. refl }))).at
      db v
write-IsValid b (touch_call id at) db v =
    (Keeps-exec b update_last_used (update_one id (λ e. record e { last_used_at = at })) (
        update_id-IsValid id (λ e. record e { last_used_at = at })
          (record { same_id = λ e. refl; same_hash = λ e. refl }))).at
      db v
