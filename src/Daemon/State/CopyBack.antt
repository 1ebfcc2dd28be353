-- ===== src/Daemon/State/CopyBack.antt =====
-- daemon.rs: what is not recorded, and what a copy-back does when it fails.
use clippo.Prelude.{
  ◌≡◌, refl, ◌⊎◌, inl, inr, Bool, true, ◌||◌, List, Option, none, some, Result, ok, err, filter,
  arith, Bool-cases,
}
use clippo.Prelude.Text.{Text, is_empty}
use clippo.Core.Entry.{EntryId, Timestamp, Flavor, NewEntry}
use clippo.Store.Images.{is_offerable}
use clippo.Store.Tables.{Db}
use clippo.Store.Sql.{StoreError}
use clippo.Store.Capture.{StoredEntry}
use clippo.Store.History
use clippo.Daemon.Echo.{EchoGuard, is_echo}
use clippo.Daemon.State.{
  Daemon, World, FdoError, capture_new, capture_some, capture_at, new_entry, offer, offer_found,
  copy_with, copy_at,
}
use clippo.Wayland.Selection.{Selection}

-- the daemon with another guard
abbrev with_echo : EchoGuard → Daemon → Daemon
with_echo guard d = record d { echo = guard }

-- nothing but the guard is other, and it is not armed anew
abbrev pub OnlyDisarmed : Daemon → Daemon → Type 0
OnlyDisarmed d d' = (d' ≡ d) ⊎ (d' ≡ with_echo none d)

is_echo-disarms : (hash : Text) (guard : EchoGuard) → (is_echo hash guard).1 ≡ none
unfolding is_echo
is_echo-disarms hash none = refl
is_echo-disarms hash (some armed) = refl

module _ (w : World) where
  capture_new_paused :
      (new : NewEntry) (d : Daemon) → d.paused ≡ true → OnlyDisarmed d (capture_new w new d)
  unfolding capture_new
  capture_new_paused new d h = elim (Bool-cases ((is_echo new.hash d.echo).0 || d.paused)) [
    | inl e ↦ rw e (rw (is_echo-disarms new.hash d.echo) (inr refl))
    | inr e ↦ absurd (ground arith)
  ]

  capture_some_paused :
      (o : Option NewEntry) (d : Daemon) → d.paused ≡ true → OnlyDisarmed d (capture_some w o d)
  capture_some_paused none d h = inl refl
  capture_some_paused (some new) d h = capture_new_paused new d h

  -- While the daemon is paused, no copy changes anything but the guard, which it may disarm.
  capture_at_paused :
      (selection : Selection) (now : Timestamp) (d : Daemon)
      → d.paused ≡ true
      → OnlyDisarmed d (capture_at w selection now d)
  unfolding capture_at
  capture_at_paused selection now d h = elim (Bool-cases (is_empty selection.flavors)) [
    | inl e ↦ rw e (inl refl)
    | inr e ↦ rw e (capture_some_paused (new_entry w selection now) d h)
  ]

  -- what a call says of the daemon before and after it, if it fails
  abbrev pub Harmless : Daemon → Daemon × Result (Unit {0}) FdoError → Type 0
  Harmless d (d', ok u) = Unit
  Harmless d (d', err e) = OnlyDisarmed d d'

  offer-Harmless :
      (fails : List Flavor → Bool) (id : EntryId) (now : Timestamp) (stored : StoredEntry)
      (d : Daemon)
      → Harmless d (offer w fails id now stored d)
  unfolding offer
  offer-Harmless fails id now stored d =
      elim (Bool-cases (is_empty (filter (λ f. is_offerable f.mime) stored.flavors))) [
        | inl e ↦ rw e (inl refl)
        | inr e ↦
            rw e (elim (Bool-cases (fails (filter (λ f. is_offerable f.mime) stored.flavors))) [
              | inl f ↦ rw f (inr refl)
              | inr f ↦ rw f tt
            ])
      ]

  offer_found-Harmless :
      (fails : List Flavor → Bool) (id : EntryId) (now : Timestamp)
      (r : Db × Result (Option StoredEntry) StoreError) (d : Daemon)
      → Harmless d (offer_found w fails id now r d)
  offer_found-Harmless fails id now (db, err e) d = inl refl
  offer_found-Harmless fails id now (db, ok none) d = inl refl
  offer_found-Harmless fails id now (db, ok (some stored)) d = offer-Harmless fails id now stored d

  copy_with-Harmless :
      (c : Option (List Flavor → Bool)) (id : EntryId) (now : Timestamp) (d : Daemon)
      → Harmless d (copy_with w c id now d)
  copy_with-Harmless none id now d = inl refl
  copy_with-Harmless (some fails) id now d =
      offer_found-Harmless fails id now (History.get w.backend id d.store) d

  -- A copy-back that fails, at whatever point, changes nothing but the guard, which it may disarm.
  pub copy_at-Harmless :
      (id : EntryId) (now : Timestamp) (d : Daemon) → Harmless d (copy_at w id now d)
  unfolding copy_at
  copy_at-Harmless id now d = copy_with-Harmless w.clipboard id now d
