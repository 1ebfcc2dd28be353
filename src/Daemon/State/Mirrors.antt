-- ===== src/Daemon/State/Mirrors.antt =====
-- daemon.rs: the preview cache shows what is stored, and every change is announced.
use clippo.Prelude.{
  ℕ, suc, ◌≡◌, refl, sym, ap, ◌∙◌, ◌⊎◌, inl, inr, Bool, true, false, ◌||◌, List, [], ◌∷◌, Option,
  none, some, Result, ok, err, ltb, filter, take, drop, Bool-cases,
}
use clippo.Prelude.Text.{Text, is_empty}
use clippo.Core.Entry.{EntryId, Timestamp, Flavor, Entry, NewEntry}
use clippo.Core.Secrets.Masking.{usize_max}
use clippo.Store.Images.{is_offerable}
use clippo.Store.Tables.{Db, by_recency}
use clippo.Store.Sql.{StoreError, select_list}
use clippo.Store.Capture.{Insertion, StoredEntry, set_config}
use clippo.Store.History
use clippo.Store.History.{as_i64}
use clippo.Store.History.Atomic.{insert_failed}
use clippo.Daemon.Echo.{is_echo}
use clippo.Daemon.Cache.{replace}
use clippo.Daemon.State.{
  Daemon, World, FdoError, Command, capture, lost, copy, paste_it, delete_it, pin_it, clear_all,
  pause, reload, commit, recorded, capture_new, capture_some, capture_at, new_entry, selection_lost,
  touched_at, offer, offer_found, copy_with, copy_at, then_press, if_allowed, paste, changed_one,
  delete, pin, cleared, clear, set_paused, perform, perform_all,
}
use clippo.Daemon.State.Commit.{
  Honest, delete-Honest, clear-Honest, set_pinned-Honest, touch-Honest,
}

-- the whole history in the order that `list` gives it
abbrev pub listed : Db → List Entry
listed db = take (as_i64 usize_max) (drop (as_i64 0) (by_recency db.entries))

abbrev pub Mirrors : Daemon → Type 0
Mirrors d = d.cache ≡ replace (listed d.store)

-- the history, its cache and the announcements are as they were
abbrev Unchanged : Daemon → Daemon → Type 0
Unchanged d d' = (d'.store ≡ d.store) × (d'.cache ≡ d.cache) × (d'.emitted ≡ d.emitted)

abbrev pub Outcome : Daemon → Daemon → Type 0
Outcome d d' = Unchanged d d' ⊎ (Mirrors d' × (d'.emitted ≡ suc d.emitted))

module _ (w : World) (lists : (db : Db) → w.backend.fault select_list db ≡ false) where
  reload-Mirrors : (d : Daemon) → Mirrors (reload w d) × ((reload w d).emitted ≡ d.emitted)
  unfolding reload History.list
  reload-Mirrors d = rw (lists d.store) (refl, refl)

  pub commit-Outcome :
      (d d' : Daemon) (changed : Bool)
      → d'.cache ≡ d.cache
      → d'.emitted ≡ d.emitted
      → (changed ≡ false → d'.store ≡ d.store)
      → Outcome d (commit w changed d')
  unfolding commit
  commit-Outcome d d' true c e h = let (m, n) = reload-Mirrors d' in inr (m, ap suc (n ∙ e))
  commit-Outcome d d' false c e h = inl (h refl, c, e)

  recorded-Outcome :
      (d d' : Daemon) (r : Db × Result Insertion StoreError)
      → Unchanged d d'
      → ((e : StoreError) → r.1 ≡ err e → r.0 ≡ d.store)
      → Outcome d (recorded w d' r)
  recorded-Outcome d d' (db, ok i) (s, c, n) h =
      let (m, k) = reload-Mirrors (record d' { store = db }) in inr (m, ap suc (k ∙ n))
  recorded-Outcome d d' (db, err e) (s, c, n) h = inl (h e refl, c, n)

  capture_new-Outcome : (new : NewEntry) (d : Daemon) → Outcome d (capture_new w new d)
  unfolding capture_new
  capture_new-Outcome new d = elim (Bool-cases ((is_echo new.hash d.echo).0 || d.paused)) [
    | inl e ↦ rw e (inl (refl, refl, refl))
    | inr e ↦ rw e (
        recorded-Outcome d (record d { echo = (is_echo new.hash d.echo).1 })
          (History.insert w.backend (set_config w.config) new d.store) (refl, refl, refl)
          (λ x q. insert_failed w.backend (set_config w.config) new d.store x q))
  ]

  capture_some-Outcome : (o : Option NewEntry) (d : Daemon) → Outcome d (capture_some w o d)
  capture_some-Outcome none d = inl (refl, refl, refl)
  capture_some-Outcome (some new) d = capture_new-Outcome new d

  touched_at-Outcome :
      (d d' : Daemon) (r : Db × Result Bool StoreError)
      → Unchanged d d'
      → Honest (λ touched. touched) d.store r
      → Outcome d (touched_at w d' r)
  touched_at-Outcome d d' (db, ok t) (s, c, n) h =
      commit-Outcome d (record d' { store = db }) t c n h
  touched_at-Outcome d d' (db, err e) (s, c, n) h =
      commit-Outcome d (record d' { store = db }) false c n (λ q. h)

  offer-Outcome :
      (fails : List Flavor → Bool) (id : EntryId) (now : Timestamp) (stored : StoredEntry)
      (d : Daemon)
      → Outcome d (offer w fails id now stored d).0
  unfolding offer
  offer-Outcome fails id now stored d =
      let offerable = filter (λ f. is_offerable f.mime) stored.flavors in
      elim (Bool-cases (is_empty offerable)) [
        | inl e ↦ rw e (inl (refl, refl, refl))
        | inr e ↦ rw e (elim (Bool-cases (fails offerable)) [
          | inl f ↦ rw f (inl (refl, refl, refl))
          | inr f ↦ rw f (
              touched_at-Outcome d (record d { echo = some stored.entry.hash })
                (History.touch w.backend id now d.store) (refl, refl, refl)
                (touch-Honest w.backend id now d.store))
        ])
      ]

  offer_found-Outcome :
      (fails : List Flavor → Bool) (id : EntryId) (now : Timestamp)
      (r : Db × Result (Option StoredEntry) StoreError) (d : Daemon)
      → Outcome d (offer_found w fails id now r d).0
  offer_found-Outcome fails id now (db, err e) d = inl (refl, refl, refl)
  offer_found-Outcome fails id now (db, ok none) d = inl (refl, refl, refl)
  offer_found-Outcome fails id now (db, ok (some stored)) d = offer-Outcome fails id now stored d

  copy_with-Outcome :
      (c : Option (List Flavor → Bool)) (id : EntryId) (now : Timestamp) (d : Daemon)
      → Outcome d (copy_with w c id now d).0
  copy_with-Outcome none id now d = inl (refl, refl, refl)
  copy_with-Outcome (some fails) id now d =
      offer_found-Outcome fails id now (History.get w.backend id d.store) d

  then_press-Outcome :
      (d : Daemon) (r : Daemon × Result (Unit {0}) FdoError)
      → Outcome d r.0
      → Outcome d (then_press w r).0
  then_press-Outcome d (d', err e) h = h
  then_press-Outcome d (d', ok u) h = h

  changed_one-Outcome :
      (member : Text) (id : EntryId) (d : Daemon) (r : Db × Result Bool StoreError)
      → Honest (λ changed. changed) d.store r
      → Outcome d (changed_one w member id d r).0
  changed_one-Outcome member id d (db, err e) h = inl (h, refl, refl)
  changed_one-Outcome member id d (db, ok t) h =
      commit-Outcome d (record d { store = db }) t refl refl h

  cleared-Outcome :
      (d : Daemon) (r : Db × Result ℕ StoreError)
      → Honest (ltb 0) d.store r
      → Outcome d (cleared w d r).0
  cleared-Outcome d (db, err e) h = inl (h, refl, refl)
  cleared-Outcome d (db, ok n) h = commit-Outcome d (record d { store = db }) (ltb 0 n) refl refl h

  capture_at-Outcome :
      (selection : _) (now : Timestamp) (d : Daemon) → Outcome d (capture_at w selection now d)
  unfolding capture_at
  capture_at-Outcome selection now d = elim (Bool-cases (is_empty selection.flavors)) [
    | inl e ↦ rw e (inl (refl, refl, refl))
    | inr e ↦ rw e (capture_some-Outcome (new_entry w selection now) d)
  ]

  if_allowed-Outcome :
      (b : Bool) (member : Text) (step : Daemon → Daemon × Result Bool FdoError) (d : Daemon)
      → Outcome d (step d).0
      → Outcome d (if_allowed b member step d).0
  if_allowed-Outcome true member step d h = h
  if_allowed-Outcome false member step d h = inl (refl, refl, refl)

  paste-Outcome : (id : EntryId) (now : Timestamp) (d : Daemon) → Outcome d (paste w id now d).0
  unfolding paste copy_at
  paste-Outcome id now d =
      if_allowed-Outcome w.config.allow_privileged_members _
        (λ d. then_press w (copy_with w w.clipboard id now d)) d
        (then_press-Outcome d (copy_with w w.clipboard id now d)
          (copy_with-Outcome w.clipboard id now d))

  -- Each thing that a client or the clipboard asks of the daemon, where reading the list back does not
  -- fail, either leaves the tables, the preview cache and the count of announcements as they were,
  -- or ends with the cache showing what is stored and exactly one announcement more.
  pub perform-Outcome : (c : Command) (d : Daemon) → Outcome d (perform w c d)
  unfolding perform selection_lost copy_at delete pin clear set_paused
  perform-Outcome (capture selection now) d = capture_at-Outcome selection now d
  perform-Outcome lost d = inl (refl, refl, refl)
  perform-Outcome (copy id now) d = copy_with-Outcome w.clipboard id now d
  perform-Outcome (paste_it id now) d = paste-Outcome id now d
  perform-Outcome (delete_it id) d =
      changed_one-Outcome _ id d (History.delete w.backend id d.store)
        (delete-Honest w.backend id d.store)
  perform-Outcome (pin_it id pinned) d =
      changed_one-Outcome _ id d (History.set_pinned w.backend id pinned d.store)
        (set_pinned-Honest w.backend id pinned d.store)
  perform-Outcome (clear_all include_pinned) d =
      cleared-Outcome d (History.clear w.backend include_pinned d.store)
        (clear-Honest w.backend include_pinned d.store)
  perform-Outcome (pause paused) d = inl (refl, refl, refl)

  Outcome-Mirrors : (d d' : Daemon) → Outcome d d' → Mirrors d → Mirrors d'
  Outcome-Mirrors d d' (inl (s, c, n)) m = c ∙ m ∙ ap (λ (db : Db). replace (listed db)) (sym s)
  Outcome-Mirrors d d' (inr (m', n)) m = m'

  -- If the cache shows what is stored, it still does after any sequence of what clients and the
  -- clipboard ask, where reading the list back does not fail; other statements may fail.
  pub perform_all-Mirrors :
      (cs : List Command) (d : Daemon) → Mirrors d → Mirrors (perform_all w cs d)
  unfolding perform_all
  perform_all-Mirrors [] d m = m
  perform_all-Mirrors (c ∷ cs) d m =
      perform_all-Mirrors cs (perform w c d)
        (Outcome-Mirrors d (perform w c d) (perform-Outcome c d) m)
