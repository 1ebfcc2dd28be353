-- ===== src/Wayland/Pending/Apart.antt =====
-- flavor.rs: what becomes of one flavor, whatever happens to the others.
use clippo.Prelude.{
  ℕ, zero, suc, ◌≡◌, refl, sym, ap, ◌∙◌, Bool, true, false, List, [], ◌∷◌, Option, some, set,
  get_elem?, arith, Bool-cases, Option-cases, inl, inr, ◌==◌, filter, ==_iff, subst, ◌⊎◌,
}
use clippo.Wayland.Pending.{
  Push, accepted, too_much, closed, FlavorBuffer, push_chunk, Slot, reading, done, dropped,
  finished, PendingSelection, resolve, pushed, push, finish, drop_flavor, Event, arrived, ended,
  gave_up, handle, handle_all,
}

abbrev pub slot_of : Event → ℕ
slot_of (arrived i chunk) = i
slot_of (ended i) = i
slot_of (gave_up i reason) = i

-- what an event does to the slot it is about
abbrev pub after_push : Push × FlavorBuffer → Slot
after_push (accepted, b) = reading b
after_push (too_much, b) = finished b
after_push (closed, b) = finished b

abbrev pub on_slot : Event → Slot → Slot
on_slot (arrived i chunk) (reading b) = after_push (push_chunk chunk b)
on_slot (ended i) (reading b) = finished b
on_slot (gave_up i reason) (reading b) = dropped b.mime reason
on_slot _ (done f) = done f
on_slot _ (dropped mime reason) = dropped mime reason

abbrev pub on_slot_all : List Event → Slot → Slot
on_slot_all [] s = s
on_slot_all (e ∷ es) s = on_slot_all es (on_slot e s)

abbrev pub about : ℕ → Event → Bool
about i e = slot_of e == i

get_elem?-set_same :
    (slots : List Slot) (i : ℕ) (s after : Slot)
    → get_elem? slots i ≡ some s
    → get_elem? (set slots i after) i ≡ some after
get_elem?-set_same [] i s after h = cc
get_elem?-set_same (t ∷ slots) zero s after h = refl
get_elem?-set_same (t ∷ slots) (suc i) s after h = get_elem?-set_same slots i s after h

get_elem?-set_other :
    (slots : List Slot) (i j : ℕ) (after : Slot)
    → (i == j) ≡ false
    → get_elem? (set slots i after) j ≡ get_elem? slots j
get_elem?-set_other [] i j after h = refl
get_elem?-set_other (t ∷ slots) zero zero after h = cc
get_elem?-set_other (t ∷ slots) zero (suc j) after h = refl
get_elem?-set_other (t ∷ slots) (suc i) zero after h = refl
get_elem?-set_other (t ∷ slots) (suc i) (suc j) after h =
    get_elem?-set_other slots i j after (ground arith)

set-set : (slots : List Slot) (i : ℕ) (s t : Slot) → set (set slots i s) i t ≡ set slots i t
set-set [] i s t = refl
set-set (u ∷ slots) zero s t = refl
set-set (u ∷ slots) (suc i) s t = ap (λ (r : List Slot). u ∷ r) (set-set slots i s t)

pushed-slots :
    (i : ℕ) (p : PendingSelection) (b : FlavorBuffer) (r : Push × FlavorBuffer)
    → get_elem? p.slots i ≡ some (reading b)
    → (pushed i p r).1.slots ≡ set p.slots i (after_push r)
unfolding resolve
pushed-slots i p b (accepted, b') h = refl
pushed-slots i p b (too_much, b') h =
    rw (get_elem?-set_same p.slots i (reading b) (reading b') h)
      (set-set p.slots i (reading b') (finished b'))
pushed-slots i p b (closed, b') h =
    rw (get_elem?-set_same p.slots i (reading b) (reading b') h)
      (set-set p.slots i (reading b') (finished b'))

-- an event changes the slot it is about, if that is being read, and nothing otherwise
abbrev Handled : Event → PendingSelection → Type 0
Handled e p =
    ((b : FlavorBuffer) × (get_elem? p.slots (slot_of e) ≡ some (reading b))
      × ((handle e p).slots ≡ set p.slots (slot_of e) (on_slot e (reading b))))
    ⊎ (((handle e p).slots ≡ p.slots)
        × ((s : Slot) → get_elem? p.slots (slot_of e) ≡ some s → on_slot e s ≡ s))

some_inj : (s t : Slot) → some s ≡ some t → s ≡ t
some_inj s t h = cc

idle :
    (e : Event) (t s : Slot) (o : Option Slot)
    → o ≡ some t
    → on_slot e t ≡ t
    → o ≡ some s
    → on_slot e s ≡ s
idle e t s o h k q = subst (λ (u : Slot). on_slot e u ≡ u) (some_inj t s (sym h ∙ q)) k

pub handle-Handled : (e : Event) (p : PendingSelection) → Handled e p
unfolding handle push finish resolve drop_flavor
handle-Handled (arrived i chunk) p = elim (Option-cases (get_elem? p.slots i)) [
  | inl e ↦ inr (rw (e, handle) refl, λ s q. cc)
  | inr (reading b, e) ↦ inl (b, e, rw (e, handle) (pushed-slots i p b (push_chunk chunk b) e))
  | inr (done f, e) ↦
      inr (rw (e, handle) refl, λ s. idle (arrived i chunk) (done f) s (get_elem? p.slots i) e refl)
  | inr (dropped mime r, e) ↦ inr (
    rw (e, handle) refl,
    λ s. idle (arrived i chunk) (dropped mime r) s (get_elem? p.slots i) e refl,
  )
]
handle-Handled (ended i) p = elim (Option-cases (get_elem? p.slots i)) [
  | inl e ↦ inr (rw (e, handle) refl, λ s q. cc)
  | inr (reading b, e) ↦ inl (b, e, rw (e, handle) refl)
  | inr (done f, e) ↦
      inr (rw (e, handle) refl, λ s. idle (ended i) (done f) s (get_elem? p.slots i) e refl)
  | inr (dropped mime r, e) ↦
      inr (rw (e, handle) refl, λ s. idle (ended i) (dropped mime r) s (get_elem? p.slots i) e refl)
]
handle-Handled (gave_up i reason) p = elim (Option-cases (get_elem? p.slots i)) [
  | inl e ↦ inr (rw (e, handle) refl, λ s q. cc)
  | inr (reading b, e) ↦ inl (b, e, rw (e, handle) refl)
  | inr (done f, e) ↦
      inr
        (rw (e, handle) refl, λ s. idle (gave_up i reason) (done f) s (get_elem? p.slots i) e refl)
  | inr (dropped mime r, e) ↦ inr (
    rw (e, handle) refl,
    λ s. idle (gave_up i reason) (dropped mime r) s (get_elem? p.slots i) e refl,
  )
]

-- the slot of an event, after it, and any other
pub same_slot :
    (e : Event) (p : PendingSelection) (s : Slot)
    → get_elem? p.slots (slot_of e) ≡ some s
    → get_elem? (handle e p).slots (slot_of e) ≡ some (on_slot e s)
same_slot e p s h = elim (handle-Handled e p) [
  | inl (b, at, q) ↦
      ap (λ (slots : List Slot). get_elem? slots (slot_of e)) q
      ∙ get_elem?-set_same p.slots (slot_of e) s (on_slot e (reading b)) h
      ∙ ap (λ (t : Slot). some (on_slot e t)) (some_inj (reading b) s (sym at ∙ h))
  | inr (q, k) ↦
      ap (λ (slots : List Slot). get_elem? slots (slot_of e)) q
      ∙ h
      ∙ ap (λ (t : Slot). some t) (sym (k s h))
]

pub other_slot :
    (e : Event) (p : PendingSelection) (j : ℕ)
    → about j e ≡ false
    → get_elem? (handle e p).slots j ≡ get_elem? p.slots j
other_slot e p j h = elim (handle-Handled e p) [
  | inl (b, at, q) ↦
      ap (λ (slots : List Slot). get_elem? slots j) q
      ∙ get_elem?-set_other p.slots (slot_of e) j (on_slot e (reading b)) h
  | inr (q, k) ↦ ap (λ (slots : List Slot). get_elem? slots j) q
]

own_slot :
    (e : Event) (p : PendingSelection) (j : ℕ) (s : Slot)
    → about j e ≡ true
    → get_elem? p.slots j ≡ some s
    → get_elem? (handle e p).slots j ≡ some (on_slot e s)
own_slot e p j s a h =
    let eq = (==_iff (slot_of e) j).0 a in
    subst (λ (k : ℕ). get_elem? (handle e p).slots k ≡ some (on_slot e s)) eq
      (same_slot e p s (subst (λ (k : ℕ). get_elem? p.slots k ≡ some s) (sym eq) h))

-- What becomes of a slot is what its own events make of it, in their order, however the events of
-- other slots fall between them.
get_elem?-handle_all :
    (es : List Event) (p : PendingSelection) (j : ℕ) (s : Slot)
    → get_elem? p.slots j ≡ some s
    → get_elem? (handle_all es p).slots j ≡ some (on_slot_all (filter (about j) es) s)
unfolding handle_all
get_elem?-handle_all [] p j s h = h
get_elem?-handle_all (e ∷ es) p j s h = elim (Bool-cases (about j e)) [
  | inl a ↦ rw a (get_elem?-handle_all es (handle e p) j (on_slot e s) (own_slot e p j s a h))
  | inr a ↦ rw a (get_elem?-handle_all es (handle e p) j s (other_slot e p j a ∙ h))
]
