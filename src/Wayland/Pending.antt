-- ===== src/Wayland/Pending.antt =====
-- crates/clippo-wayland/src/flavor.rs: the flavors of a copy while they are read.
pub mod Counted
pub mod Apart
pub mod WholeRead
use clippo.Prelude.{
  ℕ, zero, suc, ◌+◌, ◌-◌, Bool, true, false, List, [], ◌∷◌, ◌++◌, Option, none, some, ltb, ◌==◌,
  if◌then◌else◌, length, set, get_elem?,
}
use clippo.Prelude.Text.{Text}
use clippo.Core.Entry.{Flavor}
use clippo.Core.Secrets.Masking.{usize_add}
use clippo.Wayland.Selection.{SelectionKind, DropReason, over_cap, DroppedFlavor, Selection}

pub data Push : Type 0 where
  accepted too_much closed : Push

pub record FlavorBuffer : Type 0 where
  pub mime : Text
  pub cap : ℕ
  pub content : List ℕ
  pub is_over_cap : Bool

abbrev pub empty_buffer : Text → ℕ → FlavorBuffer
empty_buffer mime cap = record { mime = mime; cap = cap; content = []; is_over_cap = false }

-- `FlavorBuffer::push`
unfoldable pub push_chunk : List ℕ → FlavorBuffer → Push × FlavorBuffer
push_chunk chunk buffer =
    if buffer.is_over_cap
    then (too_much, buffer)
    else if ltb buffer.cap (usize_add (length buffer.content) (length chunk))
    then (too_much, record buffer { is_over_cap = true; content = [] })
    else (accepted, record buffer { content = buffer.content ++ chunk })

pub data Slot : Type 0 where
  reading : FlavorBuffer → Slot
  done : Flavor → Slot
  dropped : Text → DropReason → Slot

-- `FlavorBuffer::finish`, as the slot that `resolve` makes of it
unfoldable pub finished : FlavorBuffer → Slot
finished buffer =
    if buffer.is_over_cap
    then dropped buffer.mime (over_cap buffer.cap)
    else done (record { mime = buffer.mime; content = buffer.content })

pub record PendingSelection : Type 0 where
  pub generation : ℕ
  pub kind : SelectionKind
  pub advertised : List Text
  pub slots : List Slot
  pub open_count : ℕ

abbrev pub new_pending : ℕ → SelectionKind → List Text → PendingSelection
new_pending generation kind advertised = record {
  generation = generation;
  kind = kind;
  advertised = advertised;
  slots = [];
  open_count = 0;
}

-- the slot's number is that of the slots before it
unfoldable pub expect_flavor : Text → ℕ → PendingSelection → ℕ × PendingSelection
expect_flavor mime cap p = (
  length p.slots,
  record p {
    slots = p.slots ++ reading (empty_buffer mime cap) ∷ [];
    open_count = suc p.open_count;
  },
)

-- a slot that was being read is read no longer
abbrev pub close : ℕ → Slot → PendingSelection → PendingSelection
close slot after p = record p { slots = set p.slots slot after; open_count = p.open_count - 1 }

abbrev resolve_at : ℕ → Option Slot → PendingSelection → PendingSelection
resolve_at slot none p = p
resolve_at slot (some (reading buffer)) p = close slot (finished buffer) p
resolve_at slot (some (done f)) p = p
resolve_at slot (some (dropped mime reason)) p = p

unfoldable pub resolve : ℕ → PendingSelection → PendingSelection
resolve slot p = resolve_at slot (get_elem? p.slots slot) p

abbrev pub pushed : ℕ → PendingSelection → Push × FlavorBuffer → Push × PendingSelection
pushed slot p (accepted, buffer) =
    (accepted, record p { slots = set p.slots slot (reading buffer) })
pushed slot p (too_much, buffer) =
    (too_much, resolve slot (record p { slots = set p.slots slot (reading buffer) }))
pushed slot p (closed, buffer) =
    (too_much, resolve slot (record p { slots = set p.slots slot (reading buffer) }))

abbrev push_at : ℕ → List ℕ → Option Slot → PendingSelection → Push × PendingSelection
push_at slot chunk none p = (closed, p)
push_at slot chunk (some (reading buffer)) p = pushed slot p (push_chunk chunk buffer)
push_at slot chunk (some (done f)) p = (closed, p)
push_at slot chunk (some (dropped mime reason)) p = (closed, p)

unfoldable pub push : ℕ → List ℕ → PendingSelection → Push × PendingSelection
push slot chunk p = push_at slot chunk (get_elem? p.slots slot) p

unfoldable pub finish : ℕ → PendingSelection → PendingSelection
finish slot p = resolve slot p

abbrev drop_at : ℕ → DropReason → Option Slot → PendingSelection → PendingSelection
drop_at slot reason none p = p
drop_at slot reason (some (reading buffer)) p = close slot (dropped buffer.mime reason) p
drop_at slot reason (some (done f)) p = p
drop_at slot reason (some (dropped mime r)) p = p

unfoldable pub drop_flavor : ℕ → DropReason → PendingSelection → PendingSelection
drop_flavor slot reason p = drop_at slot reason (get_elem? p.slots slot) p

-- `for slot in 0..n`
unfoldable pub drop_from : ℕ → ℕ → DropReason → PendingSelection → PendingSelection
drop_from slot zero reason p = p
drop_from slot (suc n) reason p = drop_from (suc slot) n reason (drop_flavor slot reason p)

-- how many were open, and the selection after it
unfoldable pub abandon_open : DropReason → PendingSelection → ℕ × PendingSelection
abandon_open reason p = (p.open_count, drop_from 0 (length p.slots) reason p)

abbrev pub is_complete : PendingSelection → Bool
is_complete p = p.open_count == 0

unfoldable pub flavors_done : List Slot → List Flavor
flavors_done [] = []
flavors_done (reading b ∷ slots) = flavors_done slots
flavors_done (done f ∷ slots) = f ∷ flavors_done slots
flavors_done (dropped mime reason ∷ slots) = flavors_done slots

unfoldable pub flavors_dropped : List Slot → List DroppedFlavor
flavors_dropped [] = []
flavors_dropped (reading b ∷ slots) = flavors_dropped slots
flavors_dropped (done f ∷ slots) = flavors_dropped slots
flavors_dropped (dropped mime reason ∷ slots) =
    record { mime = mime; reason = reason } ∷ flavors_dropped slots

unfoldable pub into_selection : PendingSelection → Selection
into_selection p = record {
  kind = p.kind;
  advertised = p.advertised;
  flavors = flavors_done p.slots;
  dropped = flavors_dropped p.slots;
}

-- what happens to the slots while the pipes are read
pub data Event : Type 0 where
  arrived : ℕ → List ℕ → Event
  ended : ℕ → Event
  gave_up : ℕ → DropReason → Event

unfoldable pub handle : Event → PendingSelection → PendingSelection
handle (arrived slot chunk) p = (push slot chunk p).1
handle (ended slot) p = finish slot p
handle (gave_up slot reason) p = drop_flavor slot reason p

unfoldable pub handle_all : List Event → PendingSelection → PendingSelection
handle_all [] p = p
handle_all (e ∷ es) p = handle_all es (handle e p)
