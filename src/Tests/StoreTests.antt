-- ===== src/Tests/StoreTests.antt =====
-- crates/clippo-store at concrete inputs.
use clippo.Prelude.{none, ok, Bool, ◌≡◌, refl, true, false, [], ◌∷◌, err}
use clippo.Prelude.Int.{pos}
use clippo.Prelude.Text.{
  codes, text_eq, is_ascii_whitespace, to_ascii_lowercase, trim, before, is_whitespace, starts_with,
}
use clippo.Core.Entry.{Flavor, NewEntry, text, from_mime}
use clippo.Store.Images.{is_thumbnail, same_mime, thumbnail_mime}
use clippo.Store.Dedup.{canonical_flavor, canonical_from, consider, rank}
use clippo.Store.Dedup.Canonical.{Stands, canonical_flavor-Stands}
use clippo.Store.Tables.Order.{distinct_ids}
use clippo.Store.Tables.Valid.{IsValid, distinct_hashes, distinct_keys}
use clippo.Store.Sql.{sqlite, begin}
use clippo.Store.Retention.{sweep, limit_of}
use clippo.Store.Retention.Rank.{sweep-keeps, young, newest}
use clippo.Store.Capture.{distinct_flavors, distinct_from, storable_flavors, is_over_image_cap}
use clippo.Store.History.{insert, insert_flavors, clear, enforce_retention}
use clippo.Store.History.Atomic.{insert_failed}
use clippo.Store.History.Valid.{write, write-IsValid, insert_call}
use clippo.Store.History.Pinned.{HasPinned, write-HasPinned}
use clippo.Store.Opening.{Answers, open_at, ensure, restrict_db_file, convert_to_incremental_vacuum}
use clippo.Store.Opening.Opened.{Ends}
use clippo.Tests.Samples.{
  sound_backend, broken_backend, hello, page_of_text, two_entries, new_copy, one_entry_policy,
  sample_limits,
}

two_entries-IsValid : IsValid two_entries
unfolding distinct_ids distinct_hashes distinct_keys text_eq
two_entries-IsValid = record { ids = refl; hashes = refl; owned = refl; keys = refl }

two_entries-distinct_ids : distinct_ids two_entries.entries ≡ true
unfolding distinct_ids
two_entries-distinct_ids = refl

write-IsValid_example :
    IsValid (write sound_backend (insert_call sample_limits new_copy) two_entries)
write-IsValid_example =
    write-IsValid sound_backend (insert_call sample_limits new_copy) two_entries two_entries-IsValid

sweep-keeps_example :
    (sweep sound_backend one_entry_policy (pos 10) two_entries).0.entries
    ≡ newest sound_backend
        (limit_of one_entry_policy)
        (young sound_backend one_entry_policy.max_age (pos 10) two_entries.entries)
sweep-keeps_example =
    sweep-keeps sound_backend one_entry_policy (pos 10) two_entries (λ db. refl) (λ db. refl)
      two_entries-distinct_ids

insert-broken : (insert broken_backend sample_limits new_copy two_entries).1 ≡ err (sqlite begin)
unfolding insert insert_flavors storable_flavors distinct_flavors distinct_from canonical_flavor
    canonical_from consider rank is_thumbnail same_mime text_eq is_ascii_whitespace
    to_ascii_lowercase from_mime trim before is_whitespace starts_with is_over_image_cap
insert-broken = refl

insert_failed_example : (insert broken_backend sample_limits new_copy two_entries).0 ≡ two_entries
insert_failed_example =
    insert_failed broken_backend sample_limits new_copy two_entries (sqlite begin) insert-broken

first-HasPinned : HasPinned (pos 1) (codes "h1") two_entries
unfolding text_eq
first-HasPinned = refl

write-HasPinned_example :
    HasPinned (pos 1) (codes "h1") (insert sound_backend sample_limits new_copy two_entries).0
    × HasPinned
        (pos 1)
        (codes "h1")
        (enforce_retention sound_backend one_entry_policy (pos 10) two_entries).0
    × HasPinned (pos 1) (codes "h1") (clear sound_backend false two_entries).0
write-HasPinned_example =
    write-HasPinned sound_backend (pos 1) (codes "h1") two_entries sample_limits new_copy
      one_entry_policy (pos 10) first-HasPinned

canonical_flavor-Stands_example :
    Stands text (page_of_text ∷ hello ∷ []) (canonical_flavor text (page_of_text ∷ hello ∷ []))
canonical_flavor-Stands_example = canonical_flavor-Stands text (page_of_text ∷ hello ∷ [])

abbrev thumb : Flavor
thumb = record { mime = thumbnail_mime; content = 1 ∷ [] }

-- a copy that was not there
abbrev another_copy : NewEntry
another_copy = record new_copy { hash = codes "h3"; flavors = page_of_text ∷ hello ∷ [] }

-- a new file, which everybody could read
abbrev new_file : Answers (Unit {0})
new_file = record {
  opened = none;
  mode = ok 420;
  mode_set = none;
  keyed = none;
  master = none;
  foreign_keys = none;
  auto_vacuum_set = none;
  version = ok (pos 0);
  tables = ok 0;
  created = none;
  auto_vacuum = ok 2;
  vacuumed = none;
}

abbrev never_ours : Unit {0} → Bool
never_ours e = true

new_file-Ends : Ends (open_at never_ours new_file)
unfolding open_at ensure restrict_db_file convert_to_incremental_vacuum
new_file-Ends = refl
