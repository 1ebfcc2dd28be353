-- ===== src/Store/History/Pinned.antt =====
-- store.rs, retention.rs: what is pinned stays, unless it is deleted by its id or everything is.
use clippo.Prelude.{
  ℕ, ◌≡◌, refl, ap, Bool, true, false, not, ◌&&◌, List, [], ◌∷◌, map, Option, none, some, Result,
  ok, err, filter, any, arith, any-append, Bool-cases, inl, inr, find?,
}
use clippo.Prelude.Int.{eqb_ℤ}
use clippo.Prelude.Text.{Text, text_eq}
use clippo.Core.Entry.{EntryId, Timestamp, Duration, Entry, Flavor, NewEntry, saturating_sub}
use clippo.Store.Tables.{Db, has_id, delete_where, update_id}
use clippo.Store.Sql.Keeps.{
  Keeps, Keeps-pure, Keeps-raise, Keeps-bind, Keeps-exec, Keeps-transaction,
}
use clippo.Store.Sql.{
  StoreError, Backend, insert_flavor, insert_entry, select_id_by_hash, bump_entry, no_rows,
  delete_expired, delete_over_capacity, clear_unpinned,
}
use clippo.Store.Retention.{
  Retention, is_expired, is_over_capacity, limit_of, sweep_expired, sweep_over_capacity, sweep_rest,
  sweep,
}
use clippo.Store.Capture.{
  new_row, bumped_row, bump_found, bump, add_flavor, add_flavors, create, create_or_bump, has_hash,
  created, bumped, storable_flavors,
}
use clippo.Store.History.{
  Limits, insert_body, insert_flavors, insert, with_thumbnail, clear, enforce_retention,
}

-- the entry with this id and hash is there, pinned
abbrev pinned_as : EntryId → Text → Entry → Bool
pinned_as id hash e = e.pinned && (has_id id e && text_eq e.hash hash)

abbrev pub HasPinned : EntryId → Text → Db → Type 0
HasPinned id hash db = any (pinned_as id hash) db.entries ≡ true

any-filter :
    (p q : Entry → Bool) (es : List Entry)
    → ((e : Entry) → q e ≡ true → p e ≡ true)
    → any q es ≡ true
    → any q (filter p es) ≡ true
any-filter p q [] k h = h
any-filter p q (e ∷ es) k h = elim (Bool-cases (q e)) [
  | inl here ↦ rw (k e here) (rw here refl)
  | inr later ↦ ground (arith, any-filter p q es k)
]

any-update :
    (q : Entry → Bool) (id : EntryId) (change : Entry → Entry) (es : List Entry)
    → ((e : Entry) → q e ≡ true → q (change e) ≡ true)
    → any q es ≡ true
    → any q (update_id id change es) ≡ true
unfolding update_id
any-update q id change [] k h = h
any-update q id change (e ∷ es) k h = ground (arith, k e, any-update q id change es k)

module _ (b : Backend) (id : EntryId) (hash : Text) where
  delete_where-HasPinned :
      (p : Entry → Bool) (db : Db)
      → ((e : Entry) → e.pinned ≡ true → p e ≡ false)
      → HasPinned id hash db
      → HasPinned id hash (delete_where p db).0
  unfolding delete_where
  delete_where-HasPinned p db k h =
      any-filter (λ e. not (p e)) (pinned_as id hash) db.entries
        (λ e q. ap not (k e (pinned_of e q))) h
    where
      pinned_of : (e : Entry) → pinned_as id hash e ≡ true → e.pinned ≡ true
      pinned_of e q = ground arith

  expired-Keeps :
      (age : Option Duration) (now : Timestamp)
      → Keeps (HasPinned id hash) (sweep_expired b age now)
  unfolding sweep_expired
  expired-Keeps none now = Keeps-pure 0
  expired-Keeps (some age) now =
      let old = is_expired (saturating_sub now age) in
      Keeps-exec b delete_expired (delete_where old)
        (λ db. delete_where-HasPinned old db (λ e k. rw k refl))

  over-Keeps : (limit : ℕ) → Keeps (HasPinned id hash) (sweep_over_capacity b limit)
  unfolding sweep_over_capacity is_over_capacity
  over-Keeps limit =
      Keeps-exec b delete_over_capacity (λ db. delete_where (is_over_capacity limit db.entries) db)
        (λ db. delete_where-HasPinned (is_over_capacity limit db.entries) db (λ e k. rw k refl))

  sweep-HasPinned :
      (policy : Retention) (now : Timestamp) → Keeps (HasPinned id hash) (sweep b policy now)
  unfolding sweep sweep_rest
  sweep-HasPinned policy now =
      Keeps-bind (sweep_expired b policy.max_age now) (sweep_rest b policy)
        (expired-Keeps policy.max_age now)
        (λ n.
          Keeps-bind (sweep_over_capacity b (limit_of policy)) _ (over-Keeps (limit_of policy))
            (λ k. Keeps-pure (record { expired = n; over_capacity = k })))

  add_flavor-Keeps : (i : EntryId) (f : Flavor) → Keeps (HasPinned id hash) (add_flavor b i f)
  unfolding add_flavor
  add_flavor-Keeps i f = record {
    at = λ db v.
        elim (Bool-cases
          (any (λ row. eqb_ℤ row.entry_id i && text_eq row.mime f.mime) db.flavors)) [
            | inl taken ↦ rw taken v
            | inr free ↦
                rw free
                  (elim (Bool-cases (b.fault insert_flavor db)) [ inl e ↦ rw e v | inr e ↦ rw e v ])
          ];
  }

  add_flavors-Keeps :
      (i : EntryId) (fs : List Flavor) → Keeps (HasPinned id hash) (add_flavors b i fs)
  unfolding add_flavors
  add_flavors-Keeps i [] = Keeps-pure tt
  add_flavors-Keeps i (f ∷ fs) =
      Keeps-bind (add_flavor b i f) _ (add_flavor-Keeps i f) (λ u. add_flavors-Keeps i fs)

  bump_found-Keeps :
      (new : NewEntry) (o : Option Entry) → Keeps (HasPinned id hash) (bump_found b new o)
  unfolding bump_found
  bump_found-Keeps new none = Keeps-raise no_rows
  bump_found-Keeps new (some e) =
      Keeps-bind _ _
        (Keeps-exec b bump_entry
          (λ db. (record db { entries = update_id e.id (bumped_row new) db.entries }, tt))
          (λ db. any-update (pinned_as id hash) e.id (bumped_row new) db.entries (λ f q. q)))
        (λ u. Keeps-pure (bumped e.id))

  create-Keeps : (new : NewEntry) (fs : List Flavor) → Keeps (HasPinned id hash) (create b new fs)
  unfolding create
  create-Keeps new fs = record {
    at = λ db v.
        let i = b.new_rowid (map (λ e. e.id) db.entries) in
        (Keeps-bind (add_flavors b i fs) _ (add_flavors-Keeps i fs)
            (λ u. Keeps-pure (created i))).at
          _ (ground (arith, any-append (pinned_as id hash) db.entries (new_row i new ∷ [])));
  }

  create_or_bump-Keeps :
      (new : NewEntry) (fs : List Flavor) → Keeps (HasPinned id hash) (create_or_bump b new fs)
  unfolding create_or_bump bump
  create_or_bump-Keeps new fs = record {
    at = λ db v. elim (Bool-cases (b.fault insert_entry db)) [
      | inl e ↦ rw e v
      | inr e ↦ rw e (elim (Bool-cases (any (has_hash new.hash) db.entries)) [
        | inr free ↦ rw free ((create-Keeps new fs).at db v)
        | inl old ↦ rw old (
            (Keeps-bind _ _
                (Keeps-exec b select_id_by_hash (λ d. (d, find? (has_hash new.hash) d.entries))
                  (λ d w. w))
                (bump_found-Keeps new)).at
              db v)
      ])
    ];
  }

  insert_flavors-Keeps :
      (retention : Retention) (new : NewEntry) (r : Result (List Flavor) StoreError)
      → Keeps (HasPinned id hash) (insert_flavors b retention new r)
  unfolding insert_flavors insert_body
  insert_flavors-Keeps retention new (err e) = Keeps-raise e
  insert_flavors-Keeps retention new (ok fs) =
      Keeps-transaction b (insert_body b retention new (with_thumbnail b new fs)) (
        Keeps-bind _ _ (create_or_bump-Keeps new (with_thumbnail b new fs)) (λ insertion.
          Keeps-bind _ _ (sweep-HasPinned retention new.created_at)
            (λ swept. Keeps-pure insertion)))

  -- A pinned entry is still there, pinned, after any insertion, after a sweep, and after a clearing
  -- that spares pinned entries, whether or not a statement fails on the way.
  pub write-HasPinned :
      (db : Db) (limits : Limits) (new : NewEntry) (retention : Retention) (now : Timestamp)
      → HasPinned id hash db
      → HasPinned id hash (insert b limits new db).0
        × HasPinned id hash (enforce_retention b retention now db).0
        × HasPinned id hash (clear b false db).0
  unfolding insert enforce_retention clear
  write-HasPinned db limits new retention now h = (
    (insert_flavors-Keeps limits.retention new (storable_flavors limits.max_image_bytes new)).at db
        h,
    (sweep-HasPinned retention now).at db h,
    (Keeps-exec b clear_unpinned (delete_where (λ e. not e.pinned))
          (λ d. delete_where-HasPinned (λ e. not e.pinned) d (λ e k. rw k refl))).at
        db h,
  )
