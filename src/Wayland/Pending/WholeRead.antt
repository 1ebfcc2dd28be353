-- ===== src/Wayland/Pending/WholeRead.antt =====
-- flavor.rs: a pipe that is read to its end.
use mathlib.Core.List.{flatten}
use clippo.Prelude.{
  ℕ, ◌+◌, ◌≤◌, ◌<◌, ◌≡◌, refl, sym, ap, ◌∙◌, true, false, List, [], ◌∷◌, ◌++◌, if◌then◌else◌,
  length, arith, Bool-cases, inl, inr, ltb, length-append, append_assoc, append-nil, subst, ◌⊎◌,
}
use clippo.Core.Secrets.Masking.{usize_add, usize_max}
use clippo.Prelude.Text.{Text}
use clippo.Wayland.Selection.{DropReason, over_cap}
use clippo.Wayland.Pending.{
  FlavorBuffer, empty_buffer, push_chunk, Slot, reading, done, dropped, finished, Event, arrived,
  ended,
}
use clippo.Wayland.Pending.Apart.{after_push, on_slot_all}

-- the events of a pipe that is read to its end
abbrev pub whole_read : ℕ → List (List ℕ) → List Event
whole_read i [] = ended i ∷ []
whole_read i (chunk ∷ chunks) = arrived i chunk ∷ whole_read i chunks

settled_dropped :
    (i : ℕ) (chunks : List (List ℕ)) (mime : Text) (r : DropReason)
    → on_slot_all (whole_read i chunks) (dropped mime r) ≡ dropped mime r
settled_dropped i [] mime r = refl
settled_dropped i (chunk ∷ chunks) mime r = settled_dropped i chunks mime r

abbrev pub Read : Text → ℕ → List ℕ → Slot
Read mime cap content =
    if ltb cap (length content)
    then dropped mime (over_cap cap)
    else done (record { mime = mime; content = content })

abbrev filled : Text → ℕ → List ℕ → FlavorBuffer
filled mime cap content = record { mime = mime; cap = cap; content = content; is_over_cap = false }

usize_add-over : (cap a b : ℕ) → cap < usize_max → ltb cap (usize_add a b) ≡ ltb cap (a + b)
usize_add-over cap a b h = ground arith

push_chunk-cases :
    (mime : Text) (cap : ℕ) (content chunk : List ℕ)
    → (ltb cap (usize_add (length content) (length chunk)) ≡ true)
        × (after_push (push_chunk chunk (filled mime cap content)) ≡ dropped mime (over_cap cap))
      ⊎ (ltb cap (usize_add (length content) (length chunk)) ≡ false)
        × (after_push (push_chunk chunk (filled mime cap content))
            ≡ reading (filled mime cap (content ++ chunk)))
unfolding push_chunk finished
push_chunk-cases mime cap content chunk =
    elim (Bool-cases (ltb cap (usize_add (length content) (length chunk)))) [
      | inl e ↦ inl (e, rw e refl)
      | inr e ↦ inr (e, rw e refl)
    ]

Read-over :
    (mime : Text) (cap : ℕ) (content chunk rest : List ℕ)
    → ltb cap (length content + length chunk) ≡ true
    → dropped mime (over_cap cap) ≡ Read mime cap (content ++ (chunk ++ rest))
Read-over mime cap content chunk rest h = rw (over) refl
  where
    over : ltb cap (length (content ++ (chunk ++ rest))) ≡ true
    over = ground (arith, length-append content (chunk ++ rest), length-append chunk rest)

Read-fits :
    (mime : Text) (cap : ℕ) (content : List ℕ)
    → length content ≤ cap
    → done (record { mime = mime; content = content }) ≡ Read mime cap content
Read-fits mime cap content h = rw (fits) refl
  where
    fits : ltb cap (length content) ≡ false
    fits = ground arith

whole_read-from :
    (i : ℕ) (mime : Text) (cap : ℕ) (chunks : List (List ℕ)) (content : List ℕ)
    → cap < usize_max
    → length content ≤ cap
    → on_slot_all (whole_read i chunks) (reading (filled mime cap content))
      ≡ Read mime cap (content ++ flatten chunks)
unfolding finished flatten
whole_read-from i mime cap [] content lt le =
    subst (λ (c : List ℕ). done (record { mime = mime; content = content }) ≡ Read mime cap c)
      (sym (append-nil content)) (Read-fits mime cap content le)
whole_read-from i mime cap (chunk ∷ chunks) content lt le =
    elim (push_chunk-cases mime cap content chunk) [
      | inl (over, q) ↦
          ap (λ (s : Slot). on_slot_all (whole_read i chunks) s) q
          ∙ settled_dropped i chunks mime (over_cap cap)
          ∙ Read-over mime cap content chunk (flatten chunks)
              (sym (usize_add-over cap (length content) (length chunk) lt) ∙ over)
      | inr (fits, q) ↦
          ap (λ (s : Slot). on_slot_all (whole_read i chunks) s) q
          ∙ whole_read-from i mime cap chunks (content ++ chunk) lt
              (room (sym (usize_add-over cap (length content) (length chunk) lt) ∙ fits))
          ∙ ap (λ (c : List ℕ). Read mime cap c) (append_assoc content chunk (flatten chunks))
    ]
  where
    room : ltb cap (length content + length chunk) ≡ false → length (content ++ chunk) ≤ cap
    room h = ground (arith, length-append content chunk)

-- A pipe that is read to its end gives the flavor its chunks make, in order, if they are within the
-- cap together, and otherwise a flavor dropped for the cap; for a cap below the machine's largest number.
pub whole_read_lem :
    (i : ℕ) (mime : Text) (cap : ℕ) (chunks : List (List ℕ))
    → cap < usize_max
    → on_slot_all (whole_read i chunks) (reading (empty_buffer mime cap))
      ≡ Read mime cap (flatten chunks)
whole_read_lem i mime cap chunks lt = whole_read-from i mime cap chunks [] lt (omega arith)
