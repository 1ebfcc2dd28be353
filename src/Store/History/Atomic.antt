-- ===== src/Store/History/Atomic.antt =====
-- store.rs: what a failed insertion leaves, and what a repeated copy does.
use clippo.Prelude.{
  ◌≡◌, refl, false, List, Option, none, some, Result, ok, err, any, arith, Bool-cases, inl, inr,
  find?,
}
use clippo.Core.Entry.{EntryId, Entry, Flavor, NewEntry}
use clippo.Store.Tables.{Db}
use clippo.Store.Sql.{
  StoreError, Backend, Sql, pure, ◌>>=◌, proceed, settle, transaction, commit, begin, insert_entry,
  select_id_by_hash, bump_entry,
}
use clippo.Store.Retention.{Retention, Sweep, sweep}
use clippo.Store.Capture.{
  Insertion, created, bumped, has_hash, storable_flavors, bump_found, bump, create, create_or_bump,
  add_flavors,
}
use clippo.Store.History.{Limits, insert_body, insert_flavors, with_thumbnail, insert}

settle_failed :
    {A : Type 0} (b : Backend) (before : Db) (r : Db × Result A StoreError) (e : StoreError)
    → (settle b before r).1 ≡ err e
    → (settle b before r).0 ≡ before
settle_failed b before (after, err x) e h = refl
settle_failed b before (after, ok a) e h = elim (Bool-cases (b.fault commit after)) [
  | inl f ↦ rw f refl
  | inr f ↦ absurd (ground arith)
]

transaction_failed :
    {A : Type 0} (b : Backend) (body : Sql A) (db : Db) (e : StoreError)
    → (transaction b body db).1 ≡ err e
    → (transaction b body db).0 ≡ db
transaction_failed b body db e h = elim (Bool-cases (b.fault begin db)) [
  | inl f ↦ rw f refl
  | inr f ↦ rw f (settle_failed b db (body db) e (rw f at h))
]

insert_flavors_failed :
    (b : Backend) (retention : Retention) (new : NewEntry) (r : Result (List Flavor) StoreError)
    (db : Db) (e : StoreError)
    → (insert_flavors b retention new r db).1 ≡ err e
    → (insert_flavors b retention new r db).0 ≡ db
unfolding insert_flavors
insert_flavors_failed b retention new (err x) db e h = refl
insert_flavors_failed b retention new (ok fs) db e h =
    transaction_failed b (insert_body b retention new (with_thumbnail b new fs)) db e h

-- A copy that could not be stored, at whichever statement, leaves the tables as they were.
pub insert_failed :
    (b : Backend) (limits : Limits) (new : NewEntry) (db : Db) (e : StoreError)
    → (insert b limits new db).1 ≡ err e
    → (insert b limits new db).0 ≡ db
unfolding insert
insert_failed b limits new db e h =
    insert_flavors_failed b limits.retention new (storable_flavors limits.max_image_bytes new) db e
      h

-- what an insertion says of the tables before it
abbrev Explains : NewEntry → Db → Result Insertion StoreError → Type 0
Explains new db (ok (created id)) = any (has_hash new.hash) db.entries ≡ false
Explains new db (ok (bumped id)) =
    (e : Entry) × (find? (has_hash new.hash) db.entries ≡ some e) × (e.id ≡ id)
Explains new db (err e) = Unit

proceed_created :
    (new : NewEntry) (db : Db) (id : EntryId) (r : Db × Result (Unit {0}) StoreError)
    → any (has_hash new.hash) db.entries ≡ false
    → Explains new db (proceed (λ u. pure (created id)) r).1
proceed_created new db id (d, ok u) h = h
proceed_created new db id (d, err e) h = tt

module _ (b : Backend) where
  bump_found-Explains :
      (new : NewEntry) (db d : Db) (o : Option Entry)
      → find? (has_hash new.hash) db.entries ≡ o
      → Explains new db (bump_found b new o d).1
  unfolding bump_found
  bump_found-Explains new db d none h = tt
  bump_found-Explains new db d (some e) h = elim (Bool-cases (b.fault bump_entry d)) [
    | inl f ↦ rw f tt
    | inr f ↦ rw f (e, h, refl)
  ]

  create_or_bump-Explains :
      (new : NewEntry) (fs : List Flavor) (db : Db) → Explains new db (create_or_bump b new fs db).1
  unfolding create_or_bump bump create
  create_or_bump-Explains new fs db = elim (Bool-cases (b.fault insert_entry db)) [
    | inl f ↦ rw f tt
    | inr f ↦ rw f (elim (Bool-cases (any (has_hash new.hash) db.entries)) [
      | inr free ↦ rw free (proceed_created new db _ (add_flavors b _ fs _) free)
      | inl old ↦ rw old (elim (Bool-cases (b.fault select_id_by_hash db)) [
        | inl g ↦ rw g tt
        | inr g ↦ rw g (bump_found-Explains new db db _ refl)
      ])
    ])
  ]

  swept-Explains :
      (new : NewEntry) (db : Db) (i : Insertion) (r : Db × Result Sweep StoreError)
      → Explains new db (ok i)
      → Explains new db (proceed (λ swept. pure i) r).1
  swept-Explains new db i (d, ok s) h = h
  swept-Explains new db i (d, err e) h = tt

  rest-Explains :
      (new : NewEntry) (db : Db) (retention : Retention) (r : Db × Result Insertion StoreError)
      → Explains new db r.1
      → Explains new db
          (proceed (λ insertion. sweep b retention new.created_at >>= λ swept. pure insertion) r).1
  rest-Explains new db retention (d, err e) h = tt
  rest-Explains new db retention (d, ok i) h =
      swept-Explains new db i (sweep b retention new.created_at d) h

  settle-Explains :
      (new : NewEntry) (db : Db) (r : Db × Result Insertion StoreError)
      → Explains new db r.1
      → Explains new db (settle b db r).1
  settle-Explains new db (d, err e) h = tt
  settle-Explains new db (d, ok i) h = elim (Bool-cases (b.fault commit d)) [
    | inl f ↦ rw f tt
    | inr f ↦ rw f h
  ]

  insert_flavors-Explains :
      (retention : Retention) (new : NewEntry) (r : Result (List Flavor) StoreError) (db : Db)
      → Explains new db (insert_flavors b retention new r db).1
  unfolding insert_flavors insert_body
  insert_flavors-Explains retention new (err e) db = tt
  insert_flavors-Explains retention new (ok fs) db = elim (Bool-cases (b.fault begin db)) [
    | inl f ↦ rw f tt
    | inr f ↦ rw f (
        settle-Explains new db (insert_body b retention new (with_thumbnail b new fs) db) (
          rest-Explains new db retention (create_or_bump b new (with_thumbnail b new fs) db)
            (create_or_bump-Explains new (with_thumbnail b new fs) db)))
  ]

  -- A copy is stored as a new entry only if no entry has its hash; otherwise the insertion names
  -- the entry that has it.
  insert-Explains :
      (limits : Limits) (new : NewEntry) (db : Db) → Explains new db (insert b limits new db).1
  unfolding insert
  insert-Explains limits new db =
      insert_flavors-Explains limits.retention new (storable_flavors limits.max_image_bytes new) db
