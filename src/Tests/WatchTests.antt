-- ===== src/Tests/WatchTests.antt =====
-- crates/clippo-wayland/src/watch.rs and keys.rs at concrete inputs.
use clippo.Prelude.{
  ℕ, zero, suc, ◌≡◌, refl, true, false, List, [], ◌∷◌, ◌++◌, none, some, ok, arith,
}
use clippo.Prelude.Text.{Text, codes}
use clippo.Core.Chord.{Chord, modifier_keys, modifier_mask}
use clippo.Wayland.Selection.{clipboard}
use clippo.Wayland.Pending.{PendingSelection, reading, done, empty_buffer, flavors_done}
use clippo.Wayland.Offer.{wrote, again, new_writer}
use clippo.Wayland.Advertised.{no_mimes, interesting_flavors}
use clippo.Wayland.Advertised.Ceiling.{push_all, interesting_flavors-push_all}
use clippo.Wayland.Watch.{sent, deliver, captured, Pending, PendingWrite, WatchState}
use clippo.Wayland.Watch.Keys.{has_key}
use clippo.Wayland.Watch.Reads.{ReadSetup, got, remove, on_read_timeout, on_flavor_readable}
use clippo.Wayland.Watch.Reads.Slots.{reads}
use clippo.Wayland.Watch.Reads.Timeout.{
  let_go_of, given_up, on_read_timeout-delivers, stale_callbacks,
}
use clippo.Wayland.Watch.Pastes.{PasteSetup, make_room_for_a_write}
use clippo.Wayland.Watch.Pastes.Room.{Made, make_room_for_a_write-Made}
use clippo.Wayland.Watch.Steps.{
  Happening, created, mime_offered, changed, readable, read_timer, paste, offer,
}
use clippo.Wayland.Keys.{down, send, send_failed}
use clippo.Wayland.Keys.Released.{at_rest, requests, send_lem}
use clippo.Tests.Samples.{hello}

abbrev plain : Text
plain = codes "text/plain"

interesting_flavors-push_all_example :
    interesting_flavors (push_all (plain ∷ codes "text/html" ∷ plain ∷ []) no_mimes).mimes
    ≡ interesting_flavors (plain ∷ codes "text/html" ∷ plain ∷ [])
interesting_flavors-push_all_example =
    interesting_flavors-push_all (plain ∷ codes "text/html" ∷ plain ∷ [])

abbrev idle : WatchState
idle = record {
  primary = false;
  max_flavor_bytes = 4;
  max_pending_pastes = 1;
  offers = [];
  pending = none;
  generation = 0;
  offered = none;
  writes = [];
  write_order = [];
  next_write = 0;
  acts = [];
  sources = [];
}

abbrev all_well : ReadSetup
all_well = record { pipe = none; getfl = none; setfl = none; flush = none; source = ok 40 }

abbrev slow_paste : PasteSetup
slow_paste = record {
  nonblocking = none;
  replies = wrote 1 ∷ again ∷ [];
  source = some 50;
  timer = some 51;
}

abbrev an_afternoon : List Happening
an_afternoon =
    created 7
    ∷ mime_offered 7 plain
    ∷ changed clipboard (some 7) (λ slot. all_well) (some 41) sent
    ∷ readable 1 0 (got (104 ∷ []) ∷ []) sent
    ∷ offer 3 (hello ∷ [])
    ∷ paste 3 hello.mime slow_paste
    ∷ paste 3 hello.mime slow_paste
    ∷ read_timer 1 sent
    ∷ []

abbrev half_read : PendingSelection
half_read = record {
  generation = 1;
  kind = clipboard;
  advertised = [];
  slots = done hello ∷ reading (empty_buffer plain 4) ∷ [];
  open_count = 1;
}

abbrev half_way : Pending
half_way = record {
  selection = half_read;
  offer = 7;
  read_tokens = (1, 40) ∷ [];
  timeout_token = some 41;
}

abbrev waiting_for_one : WatchState
waiting_for_one = record idle { generation = 1; pending = some half_way; sources = (40, 1, 1) ∷ [] }

one_watched : (i : ℕ) → has_key i half_way.read_tokens ≡ reads half_read i
one_watched zero = refl
one_watched (suc zero) = refl
one_watched (suc (suc i)) = ground arith

on_read_timeout-delivers_example :
    ((on_read_timeout 1 sent waiting_for_one).pending ≡ none)
    × ((on_read_timeout 1 sent waiting_for_one).acts
        ≡ (let_go_of half_way waiting_for_one).acts ++ deliver (captured (given_up half_way)) ∷ [])
    × ((given_up half_way).flavors ≡ flavors_done half_read.slots)
on_read_timeout-delivers_example =
    on_read_timeout-delivers half_way waiting_for_one ((refl, refl, one_watched), refl) refl

stale_callbacks_example :
    (on_read_timeout 0 sent waiting_for_one ≡ waiting_for_one)
    × (on_flavor_readable 0 1 (got (104 ∷ []) ∷ []) sent waiting_for_one
        ≡ (some remove, waiting_for_one))
stale_callbacks_example =
    stale_callbacks 0 1 (got (104 ∷ []) ∷ []) sent waiting_for_one ((refl, refl, one_watched), refl)
      refl

abbrev parked_paste : PendingWrite
parked_paste = record {
  mime = plain;
  writer = new_writer (1 ∷ 2 ∷ []);
  token = 50;
  timeout = some 51;
}

abbrev one_paste : WatchState
one_paste = record idle { writes = (0, parked_paste) ∷ []; write_order = 0 ∷ []; next_write = 1 }

make_room_for_a_write-Made_example : Made one_paste (make_room_for_a_write one_paste)
make_room_for_a_write-Made_example = make_room_for_a_write-Made one_paste (λ id. refl)

abbrev control_v : Chord
control_v = record {
  ctrl = true;
  shift = false;
  alt = false;
  logo = false;
  key = 47;
  name = codes "v";
}

send_lem_example :
    (requests (down control_v) at_rest
      ≡ record { keys_down = modifier_keys control_v ++ 47 ∷ []; mask = modifier_mask control_v })
    × (requests (send control_v none none).0 at_rest ≡ at_rest)
    × ((e : Text) → send control_v (some e) none ≡ (down control_v, some (send_failed e)))
send_lem_example = send_lem control_v none
