-- ===== src/Tests/WaylandTests.antt =====
-- crates/clippo-wayland at concrete inputs.
use mathlib.Core.Option
use mathlib.Core.List.{flatten}
use clippo.Prelude.{◌≡◌, refl, List, [], ◌∷◌, arith}
use clippo.Prelude.Text.{codes}
use clippo.Core.Entry.{Flavor}
use clippo.Wayland.Selection.{clipboard, stalled}
use clippo.Wayland.Pending.{
  PendingSelection, Event, arrived, ended, gave_up, reading, empty_buffer, expect_flavor,
  handle_all,
}
use clippo.Wayland.Pending.Counted.{IsCounted, handle_all-IsCounted}
use clippo.Wayland.Pending.Apart.{on_slot_all}
use clippo.Wayland.Pending.WholeRead.{whole_read, Read, whole_read_lem}
use clippo.Wayland.Offer.{blob_for, offered_flavors, pump, new_writer, wrote, interrupted, finished}
use clippo.Wayland.Offer.Served.{first_offer, blob_for-offered_flavors}
use clippo.Wayland.Offer.Written.{IsFaithful, pump_lem}
use clippo.Tests.Samples.{hello, page_of_text}

abbrev two_slots : PendingSelection
two_slots = record {
  generation = 1;
  kind = clipboard;
  advertised = [];
  slots =
      reading (empty_buffer (codes "text/plain") 4)
      ∷ reading (empty_buffer (codes "text/html") 4)
      ∷ [];
  open_count = 2;
}

abbrev some_events : List Event
some_events = arrived 0 (1 ∷ 2 ∷ []) ∷ arrived 1 (9 ∷ []) ∷ ended 0 ∷ gave_up 1 stalled ∷ []

whole_read_lem_example :
    on_slot_all
      (whole_read 0 ((1 ∷ 2 ∷ []) ∷ (3 ∷ []) ∷ []))
      (reading (empty_buffer (codes "text/plain") 4))
    ≡ Read (codes "text/plain") 4 (flatten ((1 ∷ 2 ∷ []) ∷ (3 ∷ []) ∷ []))
whole_read_lem_example =
    whole_read_lem 0 (codes "text/plain") 4 ((1 ∷ 2 ∷ []) ∷ (3 ∷ []) ∷ []) (omega arith)

handle_all-IsCounted_example :
    IsCounted (expect_flavor (codes "image/png") 9 two_slots).1
    × IsCounted (handle_all some_events two_slots)
handle_all-IsCounted_example = handle_all-IsCounted some_events (codes "image/png") 9 two_slots refl

blob_for-offered_flavors_example :
    blob_for (offered_flavors (hello ∷ page_of_text ∷ hello ∷ [])) (codes "text/html")
    ≡ Option.map
        (λ (f : Flavor). f.content)
        (first_offer (codes "text/html") (hello ∷ page_of_text ∷ hello ∷ []))
blob_for-offered_flavors_example =
    blob_for-offered_flavors (hello ∷ page_of_text ∷ hello ∷ []) (codes "text/html")

pump_lem_example :
    IsFaithful (pump (wrote 1 ∷ interrupted ∷ wrote 1 ∷ []) (new_writer (7 ∷ 8 ∷ []))).1
    × ((pump (wrote 1 ∷ interrupted ∷ wrote 1 ∷ []) (new_writer (7 ∷ 8 ∷ []))).0 ≡ finished
        → (pump (wrote 1 ∷ interrupted ∷ wrote 1 ∷ []) (new_writer (7 ∷ 8 ∷ []))).1.received
          ≡ (7 ∷ 8 ∷ []))
pump_lem_example = pump_lem (wrote 1 ∷ interrupted ∷ wrote 1 ∷ []) (new_writer (7 ∷ 8 ∷ [])) refl
