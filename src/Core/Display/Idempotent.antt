-- ===== src/Core/Display/Idempotent.antt =====
-- display.rs: a line is tidy, and a tidy text that fits is its own line.
use clippo.Prelude.{
  ℕ, zero, suc, ◌+◌, ◌≤◌, ◌≡◌, refl, Bool, true, false, ◌||◌, [], ◌∷◌, ◌++◌, some, inl, inr, ◌⊎◌,
  ◌==◌, if◌then◌else◌, length, take, all, arith, length-append, append_assoc, append-nil,
  Option-cases, Bool-cases,
}
use clippo.Prelude.Text.{Text, is_whitespace, is_control}
use clippo.Core.Display.{
  Line, start, space_width, is_invisible_or_reordering, piece, escape, step, scan, finish, one_line,
  ellipsis,
}
use clippo.Core.Display.Bounds.{shrink-eq-take, length-one_line-le}
use clippo.Core.Display.Safe.{
  is_shown, is_safe, piece_shown, tidy, is_tidy, tidy-shown, tidy-all_shown, tidy-append, tidy-take,
  all-safe_of_tidy,
}

-- What the loop keeps: nothing written and no space owed, or a tidy text.
abbrev TidySoFar : Line → Type 0
TidySoFar s =
    ((s.out ≡ []) × (s.written ≡ 0) × (s.pending_space ≡ false)) ⊎ (tidy true s.out ≡ true)

escape_cons : (c : ℕ) → (d : ℕ) × (t : Text) × (escape c ≡ d ∷ t)
unfolding escape
escape_cons c = (_, _, refl)

piece_cons : (c : ℕ) → (d : ℕ) × (t : Text) × (piece c ≡ d ∷ t)
unfolding piece
piece_cons c = elim (Bool-cases (is_control c || is_invisible_or_reordering c)) [
  | inl e ↦ rw e (escape_cons c)
  | inr e ↦ rw e (c, [], refl)
]

tidy-piece : (gap : Bool) (c : ℕ) → is_whitespace c ≡ false → tidy gap (piece c) ≡ true
unfolding tidy
tidy-piece gap c h =
    let (d, t, e) = piece_cons c in
    let shown : all is_shown (d ∷ t) ≡ true = rw e at (piece_shown c h) in
    rw e (ground (arith, tidy-shown gap d t, tidy-all_shown t))

tidy-append_piece :
    (out : Text) (pending : Bool) (c : ℕ)
    → is_whitespace c ≡ false
    → tidy true out ≡ true
    → tidy true (out ++ (if pending then 0x20 ∷ piece c else piece c)) ≡ true
unfolding tidy
tidy-append_piece out true c w h = tidy-append true out (0x20 ∷ piece c) h (tidy-piece true c w)
tidy-append_piece out false c w h = tidy-append true out (piece c) h (tidy-piece false c w)

-- After a step that writes: what was written is tidy, whether or not anything stood before it.
tidy-write :
    (s : Line) (c : ℕ)
    → is_whitespace c ≡ false
    → TidySoFar s
    → tidy true (s.out ++ (if s.pending_space then 0x20 ∷ piece c else piece c)) ≡ true
tidy-write s c w (inl (e, _, p)) = rw (e, p) (tidy-piece true c w)
tidy-write s c w (inr h) = tidy-append_piece s.out s.pending_space c w h

step-tidy : (m c : ℕ) (s s' : Line) → TidySoFar s → step m c s ≡ some s' → TidySoFar s'
unfolding step
step-tidy m c s s' h e = elim (Bool-cases (is_whitespace c)) [
  | inl w ↦ ground arith
  | inr w ↦ inr (ground (arith, tidy-write s c w h))
]

is_tidy_of_tidy : (t : Text) → tidy true t ≡ true → is_tidy t ≡ true
unfolding is_tidy
is_tidy_of_tidy [] h = refl
is_tidy_of_tidy (c ∷ t) h = h

TidySoFar-is_tidy : (s : Line) → TidySoFar s → is_tidy s.out ≡ true
unfolding is_tidy
TidySoFar-is_tidy s (inl (e, _, _)) = rw e refl
TidySoFar-is_tidy s (inr h) = is_tidy_of_tidy s.out h

scan-is_tidy : (m : ℕ) (text : Text) (s : Line) → TidySoFar s → is_tidy (scan m text s).0 ≡ true
unfolding scan
scan-is_tidy m [] s h = TidySoFar-is_tidy s h
scan-is_tidy m (c ∷ text) s h = elim (Option-cases (step m c s)) [
  | inl e ↦ rw (e, scan) (TidySoFar-is_tidy s h)
  | inr (s', e) ↦ rw (e, scan) (scan-is_tidy m text s' (step-tidy m c s s' h e))
]

mark-is_tidy : (k : ℕ) (t : Text) → is_tidy t ≡ true → is_tidy (take k t ++ ellipsis ∷ []) ≡ true
unfolding is_tidy tidy
mark-is_tidy zero [] h = tidy-take false zero [] refl
mark-is_tidy (suc k) [] h = tidy-take false zero [] refl
mark-is_tidy k (c ∷ t) h =
    is_tidy_of_tidy (take k (c ∷ t) ++ ellipsis ∷ []) (tidy-take true k (c ∷ t) h)

finish-is_tidy : (m : ℕ) (r : Text × Bool) → is_tidy r.0 ≡ true → is_tidy (finish (suc m) r) ≡ true
unfolding finish
finish-is_tidy m (out, false) h = h
finish-is_tidy m (out, true) h =
    rw (shrink-eq-take (length out) m out (omega arith)) (mark-is_tidy m out h)

one_line-suc :
    (text : Text) (m : ℕ) → one_line text (suc m) ≡ finish (suc m) (scan (suc m) text start)
unfolding one_line
one_line-suc text m = ground arith

one_line-is_tidy : (text : Text) (m : ℕ) → is_tidy (one_line text m) ≡ true
unfolding is_tidy one_line
one_line-is_tidy text zero = refl
one_line-is_tidy text (suc m) = rw one_line-suc (
    finish-is_tidy m (scan (suc m) text start)
      (scan-is_tidy (suc m) text start (inl (refl, refl, refl))))

all-safe_of_is_tidy : (t : Text) → is_tidy t ≡ true → all is_safe t ≡ true
unfolding is_tidy
all-safe_of_is_tidy [] h = refl
all-safe_of_is_tidy (c ∷ t) h = all-safe_of_tidy true (c ∷ t) h

-- Whatever was copied, each character of the line is a plain space or one that a terminal shows in
-- its own cell: no white space but that, no control, invisible or reordering character.
all-safe-one_line : (text : Text) (m : ℕ) → all is_safe (one_line text m) ≡ true
all-safe-one_line text m = all-safe_of_is_tidy (one_line text m) (one_line-is_tidy text m)

-- The loop copies a tidy text that fits. `gap` tells whether a space may come next.
abbrev gap : Line → Bool
gap s = s.pending_space || s.written == 0

step-space :
    (m : ℕ) (s : Line) → gap s ≡ false → step m 0x20 s ≡ some (record s { pending_space = true })
unfolding step is_whitespace
step-space m s h = ground arith

step-shown :
    (m c : ℕ) (s : Line)
    → is_shown c ≡ true
    → s.written + space_width s.pending_space + 1 ≤ m
    → step m c s
      ≡ some (record {
        out = s.out ++ (if s.pending_space then 0x20 ∷ c ∷ [] else c ∷ []);
        written = s.written + space_width s.pending_space + 1;
        pending_space = false;
      })
unfolding step is_shown piece
step-shown m c s h fits = ground arith

scan-copies :
    (m : ℕ) (t : Text) (s : Line)
    → tidy (gap s) t ≡ true
    → s.written ≡ length s.out
    → length s.out + space_width s.pending_space + length t ≤ m
    → scan m t s ≡ (s.out ++ (if s.pending_space then 0x20 ∷ t else t), false)
unfolding scan tidy
scan-copies m [] s h e fits = ground (arith, append-nil s.out)
scan-copies m (c ∷ t) s h e fits = elim (Bool-cases (c == 0x20)) [
  | inl space ↦ ground (arith, step-space m s, scan-copies m t (record s { pending_space = true }))
  | inr other ↦
      let s' : Line = record {
        out = s.out ++ (if s.pending_space then 0x20 ∷ c ∷ [] else c ∷ []);
        written = s.written + space_width s.pending_space + 1;
        pending_space = false;
      } in
      ground (
        arith,
        step-shown m c s,
        scan-copies m t s',
        length-append s.out (0x20 ∷ c ∷ []),
        length-append s.out (c ∷ []),
        append_assoc s.out (0x20 ∷ c ∷ []) t,
        append_assoc s.out (c ∷ []) t,
      )
]

-- A tidy text that fits is shown as it is.
one_line_tidy : (t : Text) (m : ℕ) → is_tidy t ≡ true → length t ≤ m → one_line t m ≡ t
unfolding one_line is_tidy finish
one_line_tidy [] zero h fits = refl
one_line_tidy [] (suc m) h fits = rw one_line-suc (unfold scan finish in refl)
one_line_tidy (c ∷ t) zero h fits = absurd (omega arith)
one_line_tidy (c ∷ t) (suc m) h fits =
    rw (one_line-suc, scan-copies (suc m) (c ∷ t) start h refl (omega arith)) refl

-- Rendering a line again, at the same width, changes nothing.
one_line_idem : (text : Text) (m : ℕ) → one_line (one_line text m) m ≡ one_line text m
one_line_idem text m =
    one_line_tidy (one_line text m) m (one_line-is_tidy text m) (length-one_line-le text m)
