-- ===== src/Wayland/Watch/Reads/Slots.antt =====
-- watch.rs: what reading one pipe does to the slots of a selection.
use clippo.Prelude.{
  ℕ, ◌≡◌, refl, sym, ap, ◌∙◌, Bool, true, false, List, [], ◌∷◌, Option, none, some, get_elem?, set,
  ◌==◌, Bool-cases, Option-cases, inl, inr, subst,
}
use clippo.Wayland.Selection.{DropReason, io}
use clippo.Wayland.Pending.{
  Push, accepted, too_much, closed, FlavorBuffer, push_chunk, Slot, reading, done, dropped,
  finished, PendingSelection, resolve, pushed, push, finish, drop_flavor, Event, arrived, ended,
  gave_up, handle,
}
use clippo.Wayland.Pending.Counted.{IsCounted, handle-IsCounted}
use clippo.Wayland.Pending.Apart.{
  slot_of, after_push, on_slot, handle-Handled, same_slot, other_slot,
}
use clippo.Wayland.Watch.Reads.{
  ReadReply, got, interrupted, again, error, PostAction, remove, after_chunk, on_reply, read_flavor,
}

abbrev pub is_read : Option Slot → Bool
is_read (some (reading b)) = true
is_read _ = false

abbrev pub reads : PendingSelection → ℕ → Bool
reads p i = is_read (get_elem? p.slots i)

-- whether a slot is still read after a callback that ends with this
abbrev pub left : Option PostAction → Bool → Bool
left (some remove) before = false
left _ before = before

-- What a callback for a slot does: the selection stays the same selection, its count right, no other
-- slot is touched, and the slot is read as `left` says.
abbrev pub Reads : ℕ → PendingSelection → Option PostAction × PendingSelection → Type 0
Reads slot p r =
    (r.1.generation ≡ p.generation)
    × (IsCounted p → IsCounted r.1)
    × ((j : ℕ) → (slot == j) ≡ false → reads r.1 j ≡ reads p j)
    × (reads r.1 slot ≡ left r.0 (reads p slot))

resolve-generation : (i : ℕ) (p : PendingSelection) → (resolve i p).generation ≡ p.generation
unfolding resolve
resolve-generation i p = elim (Option-cases (get_elem? p.slots i)) [
  | inl e ↦ rw e refl
  | inr (reading b, e) ↦ rw e refl
  | inr (done f, e) ↦ rw e refl
  | inr (dropped mime r, e) ↦ rw e refl
]

pushed-generation :
    (i : ℕ) (p : PendingSelection) (r : Push × FlavorBuffer)
    → (pushed i p r).1.generation ≡ p.generation
pushed-generation i p (accepted, b) = refl
pushed-generation i p (too_much, b) =
    resolve-generation i (record p { slots = set p.slots i (reading b) })
pushed-generation i p (closed, b) =
    resolve-generation i (record p { slots = set p.slots i (reading b) })

pub drop_flavor-generation :
    (i : ℕ) (reason : DropReason) (p : PendingSelection)
    → (drop_flavor i reason p).generation ≡ p.generation
unfolding drop_flavor
drop_flavor-generation i reason p = elim (Option-cases (get_elem? p.slots i)) [
  | inl e ↦ rw e refl
  | inr (reading b, e) ↦ rw e refl
  | inr (done f, e) ↦ rw e refl
  | inr (dropped mime r, e) ↦ rw e refl
]

handle-generation : (e : Event) (p : PendingSelection) → (handle e p).generation ≡ p.generation
unfolding handle push finish
handle-generation (arrived i chunk) p = elim (Option-cases (get_elem? p.slots i)) [
  | inl e ↦ rw (e, handle) refl
  | inr (reading b, e) ↦ rw (e, handle) (pushed-generation i p (push_chunk chunk b))
  | inr (done f, e) ↦ rw (e, handle) refl
  | inr (dropped mime r, e) ↦ rw (e, handle) refl
]
handle-generation (ended i) p = resolve-generation i p
handle-generation (gave_up i reason) p = drop_flavor-generation i reason p

-- an event for a slot is followed by the slot's being read as the event says
after_event :
    (e : Event) (p : PendingSelection) (now : Bool)
    → (get_elem? p.slots (slot_of e) ≡ none → now ≡ false)
    → ((s : Slot) → get_elem? p.slots (slot_of e) ≡ some s → is_read (some (on_slot e s)) ≡ now)
    → reads (handle e p) (slot_of e) ≡ now
after_event e p now gone there = elim (Option-cases (get_elem? p.slots (slot_of e))) [
  | inl q ↦ elim (handle-Handled e p) [
    | inl (b, at, same) ↦ cc
    | inr (same, idle) ↦
        ap (λ (slots : List Slot). is_read (get_elem? slots (slot_of e))) same
        ∙ ap is_read q
        ∙ sym (gone q)
  ]
  | inr (s, q) ↦ ap is_read (same_slot e p s q) ∙ there s q
]

finished-shut : (b : FlavorBuffer) → is_read (some (finished b)) ≡ false
unfolding finished
finished-shut b = elim (Bool-cases b.is_over_cap) [ inl e ↦ rw e refl | inr e ↦ rw e refl ]

finish-shut : (i : ℕ) (p : PendingSelection) → reads (handle (ended i) p) i ≡ false
finish-shut i p = after_event (ended i) p false (λ q. refl) shut
  where
    shut : (s : Slot) → get_elem? p.slots i ≡ some s → is_read (some (on_slot (ended i) s)) ≡ false
    shut (reading b) q = finished-shut b
    shut (done f) q = refl
    shut (dropped mime r) q = refl

pub drop_flavor-shut :
    (i : ℕ) (reason : DropReason) (p : PendingSelection) → reads (drop_flavor i reason p) i ≡ false
unfolding handle
drop_flavor-shut i reason p = after_event (gave_up i reason) p false (λ q. refl) shut
  where
    shut :
        (s : Slot)
        → get_elem? p.slots i ≡ some s
        → is_read (some (on_slot (gave_up i reason) s)) ≡ false
    shut (reading b) q = refl
    shut (done f) q = refl
    shut (dropped mime r) q = refl

pub drop_flavor-other :
    (i j : ℕ) (reason : DropReason) (p : PendingSelection)
    → (i == j) ≡ false
    → reads (drop_flavor i reason p) j ≡ reads p j
unfolding handle
drop_flavor-other i j reason p h = ap is_read (other_slot (gave_up i reason) p j h)

-- what an answered `push` leaves the slot as
abbrev pub after : Push → Bool → Bool
after accepted before = before
after too_much before = false
after closed before = false

pushed-after :
    (i : ℕ) (p : PendingSelection) (r : Push × FlavorBuffer)
    → is_read (some (after_push r)) ≡ after (pushed i p r).0 true
pushed-after i p (accepted, b) = refl
pushed-after i p (too_much, b) = finished-shut b
pushed-after i p (closed, b) = finished-shut b

push-after :
    (i : ℕ) (chunk : List ℕ) (p : PendingSelection)
    → reads (handle (arrived i chunk) p) i ≡ after (push i chunk p).0 (reads p i)
unfolding push
push-after i chunk p = elim (Option-cases (get_elem? p.slots i)) [
  | inl q ↦
      after_event (arrived i chunk) p (after (push i chunk p).0 (reads p i)) (λ q. rw q refl)
        (λ s r. cc)
  | inr (s, q) ↦
      after_event (arrived i chunk) p (after (push i chunk p).0 (reads p i)) (λ r. cc)
        (λ t r. there t r)
]
  where
    there :
        (t : Slot)
        → get_elem? p.slots i ≡ some t
        → is_read (some (on_slot (arrived i chunk) t)) ≡ after (push i chunk p).0 (reads p i)
    there (reading b) q = rw q (pushed-after i p (push_chunk chunk b))
    there (done f) q = rw q refl
    there (dropped mime r) q = rw q refl

-- an event, followed by an answer that says how the slot is read
event-Reads :
    (e : Event) (p : PendingSelection) (answer : Option PostAction)
    → reads (handle e p) (slot_of e) ≡ left answer (reads p (slot_of e))
    → Reads (slot_of e) p (answer, handle e p)
event-Reads e p answer h =
    (handle-generation e p, handle-IsCounted e p, λ j other. ap is_read (other_slot e p j other), h)

after_chunk-left :
    (r : Push × PendingSelection) (before : Bool) → after r.0 before ≡ left (after_chunk r).0 before
after_chunk-left (accepted, p) before = refl
after_chunk-left (too_much, p) before = refl
after_chunk-left (closed, p) before = refl

after_chunk-pair : (r : Push × PendingSelection) → after_chunk r ≡ ((after_chunk r).0, r.1)
after_chunk-pair (accepted, p) = refl
after_chunk-pair (too_much, p) = refl
after_chunk-pair (closed, p) = refl

on_reply-Reads :
    (slot : ℕ) (reply : ReadReply) (p : PendingSelection) → Reads slot p (on_reply slot reply p)
unfolding handle
on_reply-Reads slot (got []) p = event-Reads (ended slot) p (some remove) (finish-shut slot p)
on_reply-Reads slot (got (b ∷ bytes)) p =
    subst (λ (r : Option PostAction × PendingSelection). Reads slot p r)
      (sym (after_chunk-pair (push slot (b ∷ bytes) p)))
      (event-Reads (arrived slot (b ∷ bytes)) p (after_chunk (push slot (b ∷ bytes) p)).0
        (push-after slot (b ∷ bytes) p ∙ after_chunk-left (push slot (b ∷ bytes) p) (reads p slot)))
on_reply-Reads slot interrupted p = (refl, λ c. c, λ j h. refl, refl)
on_reply-Reads slot again p = (refl, λ c. c, λ j h. refl, refl)
on_reply-Reads slot (error message) p =
    event-Reads (gave_up slot (io message)) p (some remove) (drop_flavor-shut slot (io message) p)

-- one callback after another
read_on :
    (slot : ℕ) (replies : List ReadReply) (p : PendingSelection)
    (r : Option PostAction × PendingSelection)
    → Reads slot p r
    → Reads slot r.1 (read_flavor slot replies r.1)
    → Reads slot p
        (elim r.0 [ none ↦ read_flavor slot replies r.1 | some action ↦ (some action, r.1) ])
read_on slot replies p (none, q) (g, c, o, h) (g', c', o', h') = (
  g' ∙ g,
  λ counted. c' (c counted),
  λ j other. o' j other ∙ o j other,
  h' ∙ ap (left (read_flavor slot replies q).0) h,
)
read_on slot replies p (some action, q) first rest = first

-- However the reads of a pipe are answered, reading it touches no slot but its own, and that one is read
-- no longer exactly if the event loop is told to remove the source.
pub read_flavor-Reads :
    (slot : ℕ) (replies : List ReadReply) (p : PendingSelection)
    → Reads slot p (read_flavor slot replies p)
unfolding read_flavor
read_flavor-Reads slot [] p = (refl, λ c. c, λ j h. refl, refl)
read_flavor-Reads slot (reply ∷ replies) p =
    read_on slot replies p (on_reply slot reply p) (on_reply-Reads slot reply p)
      (read_flavor-Reads slot replies (on_reply slot reply p).1)
