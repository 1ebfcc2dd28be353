-- ===== src/Wayland/Watch/Reads/Held.antt =====
-- watch.rs: what holds of the selection that is being read, between two events of the loop.
use clippo.Prelude.{
  ℕ, zero, suc, ◌≡◌, refl, sym, ap, ◌∙◌, Bool, true, false, ◌||◌, List, [], ◌∷◌, ◌++◌, Option, none,
  some, Result, ok, err, get_elem?, ◌==◌, arith, Bool-cases, inl, inr, if◌then◌else◌, length, subst,
  ==_iff,
}
use clippo.Prelude.Text.{Text}
use clippo.Wayland.Selection.{SelectionKind, setup}
use clippo.Wayland.Pending.{
  Slot, reading, empty_buffer, PendingSelection, expect_flavor, drop_flavor, is_complete,
  into_selection,
}
use clippo.Wayland.Pending.Counted.{IsCounted, drop_flavor-IsCounted, expect_flavor-IsCounted}
use clippo.Wayland.Watch.{
  TrySend, sent, full, gone, captured, Act, insert_key, Pending, WatchState, u64_next, take_out,
  emit, let_go,
}
use clippo.Wayland.Watch.Keys.{has_key, has_key-insert_key}
use clippo.Wayland.Watch.Reads.{
  ReadSetup, begin_read, Started, started, start_read, start_all, emit_pending, emit_if_complete,
  hold, first_state, start_reads,
}
use clippo.Wayland.Watch.Reads.Slots.{
  reads, drop_flavor-generation, drop_flavor-shut, drop_flavor-other, is_read,
}

-- The selection is of this generation, its count is right, and the event loop watches the pipes of
-- exactly the slots that are still read.
abbrev pub IsWatched : ℕ → PendingSelection → List (ℕ × ℕ) → Type 0
IsWatched generation s tokens =
    (s.generation ≡ generation) × IsCounted s × ((i : ℕ) → has_key i tokens ≡ reads s i)

-- and it waits for one at least
abbrev pub IsHeld : ℕ → Option Pending → Type 0
IsHeld generation none = Unit
IsHeld generation (some p) =
    IsWatched generation p.selection p.read_tokens × (is_complete p.selection ≡ false)

pub emit_pending-IsHeld :
    (answer : TrySend) (p : Pending) (w : WatchState)
    → w.pending ≡ some p
    → IsWatched w.generation p.selection p.read_tokens
    → IsHeld w.generation (emit_pending answer (some p) w).pending
      × ((emit_pending answer (some p) w).generation ≡ w.generation)
emit_pending-IsHeld answer p w at h = elim (Bool-cases (is_complete p.selection)) [
  | inl e ↦ rw e (gone_now answer)
  | inr e ↦ rw (e, at) ((h, e), refl)
]
  where
    gone_now :
        (answer : TrySend)
        → IsHeld w.generation
            (emit answer
              (captured (into_selection p.selection))
              (take_out (let_go p) (record w { pending = none }))).pending
          × ((emit answer
                (captured (into_selection p.selection))
                (take_out (let_go p) (record w { pending = none }))).generation
              ≡ w.generation)
    gone_now sent = (tt, refl)
    gone_now full = (tt, refl)
    gone_now gone = (tt, refl)

reads-append_other :
    (slots : List Slot) (s : Slot) (i : ℕ)
    → (length slots == i) ≡ false
    → is_read (get_elem? (slots ++ s ∷ []) i) ≡ is_read (get_elem? slots i)
reads-append_other [] s zero h = cc
reads-append_other [] s (suc i) h = refl
reads-append_other (t ∷ slots) s zero h = refl
reads-append_other (t ∷ slots) s (suc i) h = reads-append_other slots s i (ground arith)

get_elem?-append_end :
    (slots : List Slot) (s : Slot) → get_elem? (slots ++ s ∷ []) (length slots) ≡ some s
get_elem?-append_end [] s = refl
get_elem?-append_end (t ∷ slots) s = get_elem?-append_end slots s

pub get_elem?-end : (slots : List Slot) → is_read (get_elem? slots (length slots)) ≡ false
get_elem?-end [] = refl
get_elem?-end (t ∷ slots) = get_elem?-end slots

-- a slot that has just been asked for, once its read is set up or refused
started-IsWatched :
    (slot generation : ℕ) (r : List Act × Result ℕ Text) (s : Started)
    → s.selection.generation ≡ generation
    → IsCounted s.selection
    → reads s.selection slot ≡ true
    → has_key slot s.read_tokens ≡ false
    → ((j : ℕ) → (slot == j) ≡ false → has_key j s.read_tokens ≡ reads s.selection j)
    → IsWatched generation (started slot r s).selection (started slot r s).read_tokens
started-IsWatched slot generation (acts, ok token) s g c own fresh other = (g, c, λ i. watched i)
  where
    watched : (i : ℕ) → has_key i (insert_key slot token s.read_tokens) ≡ reads s.selection i
    watched i = elim (Bool-cases (slot == i)) [
      | inl e ↦
          has_key-insert_key slot i token s.read_tokens
          ∙ ap (λ (b : Bool). b || has_key i s.read_tokens) e
          ∙ sym own
          ∙ ap (reads s.selection) ((==_iff slot i).0 e)
      | inr e ↦
          has_key-insert_key slot i token s.read_tokens
          ∙ ap (λ (b : Bool). b || has_key i s.read_tokens) e
          ∙ other i e
    ]
started-IsWatched slot generation (acts, err reason) s g c own fresh other = (
  drop_flavor-generation slot (setup reason) s.selection ∙ g,
  drop_flavor-IsCounted slot (setup reason) s.selection c,
  λ i. watched i,
)
  where
    watched :
        (i : ℕ) → has_key i s.read_tokens ≡ reads (drop_flavor slot (setup reason) s.selection) i
    watched i = elim (Bool-cases (slot == i)) [
      | inl e ↦
          subst
            (λ (k : ℕ).
              has_key k s.read_tokens ≡ reads (drop_flavor slot (setup reason) s.selection) k)
            ((==_iff slot i).0 e) (fresh ∙ sym (drop_flavor-shut slot (setup reason) s.selection))
      | inr e ↦ other i e ∙ sym (drop_flavor-other slot i (setup reason) s.selection e)
    ]

pub start_read-IsWatched :
    (offer cap : ℕ) (setups : ℕ → ReadSetup) (mime : Text) (generation : ℕ) (s : Started)
    → IsWatched generation s.selection s.read_tokens
    → IsWatched generation
        (start_read offer cap setups mime s).selection
        (start_read offer cap setups mime s).read_tokens
unfolding expect_flavor
start_read-IsWatched offer cap setups mime generation s (g, c, k) =
    let slots = s.selection.slots in
    let b = empty_buffer mime cap in
    started-IsWatched (length slots) generation (begin_read offer mime (setups (length slots)))
      (record s { selection = (expect_flavor mime cap s.selection).1 }) g
      (expect_flavor-IsCounted mime cap s.selection c)
      (ap is_read (get_elem?-append_end slots (reading b))) (k (length slots) ∙ get_elem?-end slots)
      (λ j e. k j ∙ sym (reads-append_other slots (reading b) j e))

pub start_all-IsWatched :
    (offer cap : ℕ) (setups : ℕ → ReadSetup) (mimes : List Text) (generation : ℕ) (s : Started)
    → IsWatched generation s.selection s.read_tokens
    → IsWatched generation
        (start_all offer cap setups mimes s).selection
        (start_all offer cap setups mimes s).read_tokens
unfolding start_all
start_all-IsWatched offer cap setups [] generation s h = h
start_all-IsWatched offer cap setups (mime ∷ mimes) generation s h =
    start_all-IsWatched offer cap setups mimes generation (start_read offer cap setups mime s)
      (start_read-IsWatched offer cap setups mime generation s h)

pub start_reads-IsHeld :
    (kind : SelectionKind) (offer : ℕ) (advertised wanted : List Text) (setups : ℕ → ReadSetup)
    (armed : Option ℕ) (answer : TrySend) (w : WatchState)
    → IsHeld
        (u64_next w.generation)
        (start_reads kind offer advertised wanted setups armed answer w).pending
      × ((start_reads kind offer advertised wanted setups armed answer w).generation
          ≡ u64_next w.generation)
unfolding start_reads emit_if_complete
start_reads-IsHeld kind offer advertised wanted setups armed answer w =
    let generation = u64_next w.generation in
    let first = first_state generation kind advertised in
    let s = start_all offer w.max_flavor_bytes setups wanted first in
    emit_pending-IsHeld answer
      (record {
        selection = s.selection;
        offer = offer;
        read_tokens = s.read_tokens;
        timeout_token = if is_complete s.selection then none else armed;
      })
      (hold offer armed s (record w { generation = generation })) refl
      (start_all-IsWatched offer w.max_flavor_bytes setups wanted generation first
        (refl, refl, λ i. refl))
