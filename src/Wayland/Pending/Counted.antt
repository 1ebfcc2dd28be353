-- ===== src/Wayland/Pending/Counted.antt =====
-- flavor.rs: the count of open slots, and giving up.
use clippo.Prelude.{
  ℕ, zero, suc, ◌+◌, ◌≡◌, refl, sym, ap, ◌∙◌, true, List, [], ◌∷◌, ◌++◌, none, some, length, set,
  get_elem?, arith, Bool-cases, Option-cases, inl, inr, length-set, take_of_length-le, subst, take,
  ◌==◌,
}
use clippo.Prelude.Text.{Text}
use clippo.Wayland.Selection.{DropReason}
use clippo.Wayland.Pending.{
  Push, accepted, too_much, closed, FlavorBuffer, push_chunk, Slot, reading, done, dropped,
  finished, PendingSelection, expect_flavor, close, resolve, pushed, push, finish, drop_flavor,
  drop_from, abandon_open, is_complete, Event, arrived, ended, gave_up, handle, handle_all,
  empty_buffer,
}

abbrev being_read : Slot → ℕ
being_read (reading b) = 1
being_read (done f) = 0
being_read (dropped mime reason) = 0

abbrev pub count_reading : List Slot → ℕ
count_reading [] = 0
count_reading (s ∷ slots) = being_read s + count_reading slots

-- the count is that of the slots being read
abbrev pub IsCounted : PendingSelection → Type 0
IsCounted p = p.open_count ≡ count_reading p.slots

count_reading-set :
    (slots : List Slot) (i : ℕ) (s after : Slot)
    → get_elem? slots i ≡ some s
    → count_reading (set slots i after) + being_read s ≡ count_reading slots + being_read after
count_reading-set [] i s after h = cc
count_reading-set (t ∷ slots) zero s after h = ground arith
count_reading-set (t ∷ slots) (suc i) s after h =
    ground (arith, count_reading-set slots i s after h)

count_reading-append :
    (slots : List Slot) (b : FlavorBuffer)
    → count_reading (slots ++ reading b ∷ []) ≡ suc (count_reading slots)
count_reading-append [] b = refl
count_reading-append (s ∷ slots) b = ground (arith, count_reading-append slots b)

being_read-finished : (b : FlavorBuffer) → being_read (finished b) ≡ 0
unfolding finished
being_read-finished b = elim (Bool-cases b.is_over_cap) [ inl e ↦ rw e refl | inr e ↦ rw e refl ]

close-IsCounted :
    (i : ℕ) (b : FlavorBuffer) (after : Slot) (p : PendingSelection)
    → get_elem? p.slots i ≡ some (reading b)
    → being_read after ≡ 0
    → IsCounted p
    → IsCounted (close i after p)
close-IsCounted i b after p at shut counted =
    ground (arith, count_reading-set p.slots i (reading b) after at)

resolve-IsCounted : (i : ℕ) (p : PendingSelection) → IsCounted p → IsCounted (resolve i p)
unfolding resolve
resolve-IsCounted i p h = elim (Option-cases (get_elem? p.slots i)) [
  | inl e ↦ rw e h
  | inr (reading b, e) ↦ rw e (close-IsCounted i b (finished b) p e (being_read-finished b) h)
  | inr (done f, e) ↦ rw e h
  | inr (dropped mime reason, e) ↦ rw e h
]

pushed-IsCounted :
    (i : ℕ) (b : FlavorBuffer) (p : PendingSelection) (r : Push × FlavorBuffer)
    → get_elem? p.slots i ≡ some (reading b)
    → IsCounted p
    → IsCounted (pushed i p r).1
pushed-IsCounted i b p (accepted, b') e h =
    ground (arith, count_reading-set p.slots i (reading b) (reading b') e)
pushed-IsCounted i b p (too_much, b') e h =
    resolve-IsCounted i (record p { slots = set p.slots i (reading b') })
      (ground (arith, count_reading-set p.slots i (reading b) (reading b') e))
pushed-IsCounted i b p (closed, b') e h =
    resolve-IsCounted i (record p { slots = set p.slots i (reading b') })
      (ground (arith, count_reading-set p.slots i (reading b) (reading b') e))

push-IsCounted :
    (i : ℕ) (chunk : List ℕ) (p : PendingSelection) → IsCounted p → IsCounted (push i chunk p).1
unfolding push
push-IsCounted i chunk p h = elim (Option-cases (get_elem? p.slots i)) [
  | inl e ↦ rw e h
  | inr (reading b, e) ↦ rw e (pushed-IsCounted i b p (push_chunk chunk b) e h)
  | inr (done f, e) ↦ rw e h
  | inr (dropped mime reason, e) ↦ rw e h
]

pub drop_flavor-IsCounted :
    (i : ℕ) (reason : DropReason) (p : PendingSelection)
    → IsCounted p
    → IsCounted (drop_flavor i reason p)
unfolding drop_flavor
drop_flavor-IsCounted i reason p h = elim (Option-cases (get_elem? p.slots i)) [
  | inl e ↦ rw e h
  | inr (reading b, e) ↦ rw e (close-IsCounted i b (dropped b.mime reason) p e refl h)
  | inr (done f, e) ↦ rw e h
  | inr (dropped mime r, e) ↦ rw e h
]

pub handle-IsCounted : (e : Event) (p : PendingSelection) → IsCounted p → IsCounted (handle e p)
unfolding handle finish
handle-IsCounted (arrived i chunk) p h = push-IsCounted i chunk p h
handle-IsCounted (ended i) p h = resolve-IsCounted i p h
handle-IsCounted (gave_up i reason) p h = drop_flavor-IsCounted i reason p h

pub expect_flavor-IsCounted :
    (mime : Text) (cap : ℕ) (p : PendingSelection)
    → IsCounted p
    → IsCounted (expect_flavor mime cap p).1
unfolding expect_flavor
expect_flavor-IsCounted mime cap p h =
    ap suc h ∙ sym (count_reading-append p.slots (empty_buffer mime cap))

-- The count of open slots is that of the slots being read: asking for a flavor keeps this, and so does
-- any sequence of chunks, ends and failures on whatever slots.
pub handle_all-IsCounted :
    (es : List Event) (mime : Text) (cap : ℕ) (p : PendingSelection)
    → IsCounted p
    → IsCounted (expect_flavor mime cap p).1 × IsCounted (handle_all es p)
unfolding handle_all
handle_all-IsCounted [] mime cap p h = (expect_flavor-IsCounted mime cap p h, h)
handle_all-IsCounted (e ∷ es) mime cap p h = (
  expect_flavor-IsCounted mime cap p h,
  (handle_all-IsCounted es mime cap (handle e p) (handle-IsCounted e p h)).1,
)

count_reading-take-set :
    (slots : List Slot) (i : ℕ) (s after : Slot)
    → get_elem? slots i ≡ some s
    → count_reading (take (suc i) (set slots i after))
      ≡ count_reading (take i slots) + being_read after
count_reading-take-set [] i s after h = cc
count_reading-take-set (t ∷ slots) zero s after h = ground arith
count_reading-take-set (t ∷ slots) (suc i) s after h =
    ground (arith, count_reading-take-set slots i s after h)

count_reading-take :
    (slots : List Slot) (i : ℕ) (s : Slot)
    → get_elem? slots i ≡ some s
    → count_reading (take (suc i) slots) ≡ count_reading (take i slots) + being_read s
count_reading-take [] i s h = cc
count_reading-take (t ∷ slots) zero s h = ground arith
count_reading-take (t ∷ slots) (suc i) s h = ground (arith, count_reading-take slots i s h)

count_reading-take_end :
    (slots : List Slot) (i : ℕ)
    → get_elem? slots i ≡ none
    → count_reading (take (suc i) slots) ≡ count_reading (take i slots)
count_reading-take_end [] zero h = refl
count_reading-take_end [] (suc i) h = refl
count_reading-take_end (t ∷ slots) zero h = cc
count_reading-take_end (t ∷ slots) (suc i) h = ground (arith, count_reading-take_end slots i h)

-- the slots before this one are not being read
abbrev ClosedTo : ℕ → PendingSelection → Type 0
ClosedTo i p = count_reading (take i p.slots) ≡ 0

drop_flavor-ClosedTo :
    (i : ℕ) (reason : DropReason) (p : PendingSelection)
    → ClosedTo i p
    → ClosedTo (suc i) (drop_flavor i reason p)
      × (length (drop_flavor i reason p).slots ≡ length p.slots)
unfolding drop_flavor
drop_flavor-ClosedTo i reason p h = elim (Option-cases (get_elem? p.slots i)) [
  | inl e ↦ rw e (count_reading-take_end p.slots i e ∙ h, refl)
  | inr (reading b, e) ↦ rw e (
    ground (arith, count_reading-take-set p.slots i (reading b) (dropped b.mime reason) e),
    length-set p.slots i (dropped b.mime reason),
  )
  | inr (done f, e) ↦ rw e (ground (arith, count_reading-take p.slots i (done f) e), refl)
  | inr (dropped mime r, e) ↦
      rw e (ground (arith, count_reading-take p.slots i (dropped mime r) e), refl)
]

drop_from-closes :
    (n i : ℕ) (reason : DropReason) (p : PendingSelection)
    → i + n ≡ length p.slots
    → ClosedTo i p
    → count_reading (drop_from i n reason p).slots ≡ 0
unfolding drop_from
drop_from-closes zero i reason p h c =
    subst (λ (slots : List Slot). count_reading slots ≡ 0)
      (take_of_length-le i p.slots (omega arith)) c
drop_from-closes (suc n) i reason p h c =
    let (c', l) = drop_flavor-ClosedTo i reason p c in
    drop_from-closes n (suc i) reason (drop_flavor i reason p) (ground arith) c'

drop_from-IsCounted :
    (n i : ℕ) (reason : DropReason) (p : PendingSelection)
    → IsCounted p
    → IsCounted (drop_from i n reason p)
unfolding drop_from
drop_from-IsCounted zero i reason p h = h
drop_from-IsCounted (suc n) i reason p h =
    drop_from-IsCounted n (suc i) reason (drop_flavor i reason p)
      (drop_flavor-IsCounted i reason p h)

-- Giving up on what is open, where the count is right, answers how many slots were being read, and
-- leaves the selection complete with none of them being read.
pub abandon_open_lem :
    (reason : DropReason) (p : PendingSelection)
    → IsCounted p
    → ((abandon_open reason p).0 ≡ count_reading p.slots)
      × (is_complete (abandon_open reason p).1 ≡ true)
      × (count_reading (abandon_open reason p).1.slots ≡ 0)
unfolding abandon_open
abandon_open_lem reason p h =
    let shut = drop_from-closes (length p.slots) 0 reason p (ground arith) refl in
    let none_open = drop_from-IsCounted (length p.slots) 0 reason p h ∙ shut in
    (h, ap (λ (n : ℕ). n == 0) none_open, shut)
