-- ===== src/Daemon/State/Guard.antt =====
-- daemon.rs, echo.rs: clippo's own copy-back is not recorded as a copy.
use clippo.Prelude.{
  ◌≡◌, refl, inl, inr, subst, Bool, true, false, List, Option, none, some, Result, ok, err, filter,
  find?, Bool-cases,
}
use clippo.Prelude.Text.{Text, text_eq, is_empty}
use clippo.Core.Entry.{EntryId, Timestamp, Flavor, Entry, NewEntry}
use clippo.Store.Images.{is_offerable}
use clippo.Store.Tables.{Db, has_id}
use clippo.Store.Sql.{StoreError, Backend, select_entry, select_flavors}
use clippo.Store.Capture.{StoredEntry}
use clippo.Store.History
use clippo.Daemon.Echo.{is_echo}
use clippo.Core.Secrets.Masking.{usize_max}
use clippo.Daemon.State.{
  Daemon, World, FdoError, capture_new, touched_at, offer, offer_found, copy_with, copy_at, commit,
  reload, reloaded, or_no,
}

-- what `get` finds, where it succeeds, is the row with the id
abbrev Finds : Entry → Db × Result (Option StoredEntry) StoreError → Type 0
Finds e (db, ok (some stored)) = stored.entry ≡ e
Finds e (db, ok none) = Unit
Finds e (db, err x) = Unit

get-Finds :
    (b : Backend) (id : EntryId) (db : Db) (e : Entry)
    → find? (has_id id) db.entries ≡ some e
    → Finds e (History.get b id db)
unfolding History.get History.entry History.flavors_if
get-Finds b id db e h = elim (Bool-cases (b.fault select_entry db)) [
  | inl f ↦ rw f tt
  | inr f ↦
      rw (f, h)
        (elim (Bool-cases (b.fault select_flavors db)) [ inl g ↦ rw g tt | inr g ↦ rw g refl ])
]

abbrev Arms : Text → Daemon × Result (Unit {0}) FdoError → Type 0
Arms hash (d, ok u) = d.echo ≡ some hash
Arms hash (d, err e) = Unit

module _ (w : World) where
  reloaded-echo :
      (d : Daemon) (r : Db × Result (List Entry) StoreError) → (reloaded d r).echo ≡ d.echo
  reloaded-echo d (db, ok entries) = refl
  reloaded-echo d (db, err e) = refl

  commit-echo : (changed : Bool) (d : Daemon) → (commit w changed d).echo ≡ d.echo
  unfolding commit reload
  commit-echo true d = reloaded-echo d (History.list w.backend usize_max 0 d.store)
  commit-echo false d = refl

  touched_at-echo :
      (d : Daemon) (r : Db × Result Bool StoreError) → (touched_at w d r).echo ≡ d.echo
  touched_at-echo d (db, t) = commit-echo (or_no t) (record d { store = db })

  offer-Arms :
      (fails : List Flavor → Bool) (id : EntryId) (now : Timestamp) (stored : StoredEntry)
      (d : Daemon)
      → Arms stored.entry.hash (offer w fails id now stored d)
  unfolding offer
  offer-Arms fails id now stored d =
      elim (Bool-cases (is_empty (filter (λ f. is_offerable f.mime) stored.flavors))) [
        | inl e ↦ rw e tt
        | inr e ↦
            rw e (elim (Bool-cases (fails (filter (λ f. is_offerable f.mime) stored.flavors))) [
              | inl f ↦ rw f tt
              | inr f ↦ rw f (
                  touched_at-echo (record d { echo = some stored.entry.hash })
                    (History.touch w.backend id now d.store))
            ])
      ]

  offer_found-Arms :
      (fails : List Flavor → Bool) (id : EntryId) (now : Timestamp) (e : Entry)
      (r : Db × Result (Option StoredEntry) StoreError) (d : Daemon)
      → Finds e r
      → Arms e.hash (offer_found w fails id now r d)
  offer_found-Arms fails id now e (db, err x) d h = tt
  offer_found-Arms fails id now e (db, ok none) d h = tt
  offer_found-Arms fails id now e (db, ok (some stored)) d h =
      subst (λ (f : Entry). Arms f.hash (offer w fails id now stored d)) h
        (offer-Arms fails id now stored d)

  copy_with-Arms :
      (c : Option (List Flavor → Bool)) (id : EntryId) (now : Timestamp) (e : Entry) (d : Daemon)
      → find? (has_id id) d.store.entries ≡ some e
      → Arms e.hash (copy_with w c id now d)
  copy_with-Arms none id now e d h = tt
  copy_with-Arms (some fails) id now e d h =
      offer_found-Arms fails id now e (History.get w.backend id d.store) d
        (get-Finds w.backend id d.store e h)

  Arms-ok :
      (hash : Text) (r : Daemon × Result (Unit {0}) FdoError)
      → Arms hash r
      → r.1 ≡ ok tt
      → r.0.echo ≡ some hash
  Arms-ok hash (d, ok u) h q = h
  Arms-ok hash (d, err e) h q = cc

  capture_new_armed :
      (new : NewEntry) (hash : Text) (d : Daemon)
      → d.echo ≡ some hash
      → text_eq hash new.hash ≡ true
      → capture_new w new d ≡ record d { echo = none }
  unfolding capture_new is_echo
  capture_new_armed new hash d h q = rw h (rw q refl)

  -- After a copy-back of an entry that succeeded, the next copy with the entry's hash leaves the
  -- daemon as it was but for the guard, which is then disarmed.
  pub capture_new-copy_at :
      (id : EntryId) (now : Timestamp) (e : Entry) (new : NewEntry) (d : Daemon)
      → find? (has_id id) d.store.entries ≡ some e
      → text_eq e.hash new.hash ≡ true
      → (copy_at w id now d).1 ≡ ok tt
      → capture_new w new (copy_at w id now d).0 ≡ record ((copy_at w id now d).0) { echo = none }
  unfolding copy_at
  capture_new-copy_at id now e new d found same success =
      capture_new_armed new e.hash (copy_at w id now d).0
        (Arms-ok e.hash (copy_at w id now d) (copy_with-Arms w.clipboard id now e d found) success)
        same
