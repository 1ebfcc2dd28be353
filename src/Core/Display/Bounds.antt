-- ===== src/Core/Display/Bounds.antt =====
-- display.rs: how long a line is.
use clippo.Prelude.{
  ℕ, zero, suc, ◌-◌, ◌≤◌, ◌<◌, ◌≡◌, refl, ap, [], ◌∷◌, some, inl, inr, leb, length, take, arith,
  length-append, Option-cases, Bool-cases, leb→le, take_of_length-le, sym,
}
use clippo.Prelude.Text.{Text}
use clippo.Core.Display.{Line, start, piece, step, scan, pop, shrink, finish, one_line, ellipsis}

length-pop : (s : Text) → length (pop s) ≡ length s - 1
unfolding pop
length-pop [] = omega arith
length-pop (c ∷ []) = omega arith
length-pop (c ∷ d ∷ s) = omega (arith, length-pop (d ∷ s))

-- The fuel of the trimming loop is enough: it ends below the width.
length-shrink-lt :
    (fuel max_chars : ℕ) (s : Text)
    → 0 < max_chars
    → length s ≤ fuel
    → length (shrink fuel max_chars s) < max_chars
unfolding shrink
length-shrink-lt zero m s p h = omega arith
length-shrink-lt (suc fuel) m s p h = ground (arith, length-pop s, length-shrink-lt fuel m (pop s))

-- The count that the loop keeps is the length of what it has written, and stays within the width.
pub record IsCounted (max_chars : ℕ) (s : Line) : Type 0 where
  pub counted : s.written ≡ length s.out
  pub fits : length s.out ≤ max_chars

step-IsCounted : (m c : ℕ) (s s' : Line) → IsCounted m s → step m c s ≡ some s' → IsCounted m s'
unfolding step
step-IsCounted m c s s' h e =
    ground (arith, length-append s.out (32 ∷ piece c), length-append s.out (piece c))

length-scan-le : (m : ℕ) (text : Text) (s : Line) → IsCounted m s → length (scan m text s).0 ≤ m
unfolding scan
length-scan-le m [] s h = h.fits
length-scan-le m (c ∷ text) s h = elim (Option-cases (step m c s)) [
  | inl e ↦ rw (e, scan) h.fits
  | inr (s', e) ↦ rw (e, scan) (length-scan-le m text s' (step-IsCounted m c s s' h e))
]

-- A line is never longer than the width that it was given.
pub length-one_line-le :
    (text : Text) (max_chars : ℕ) → length (one_line text max_chars) ≤ max_chars
unfolding one_line finish
length-one_line-le text zero = omega arith
length-one_line-le text (suc m) =
    let r = scan (suc m) text start in
    ground (
      arith,
      length-scan-le (suc m) text start (record { counted = refl; fits = omega arith }),
      length-shrink-lt (length r.0) (suc m) r.0,
      length-append (shrink (length r.0) (suc m) r.0) (ellipsis ∷ []),
    )

take-pop : (k : ℕ) (s : Text) → suc k ≤ length s → take k (pop s) ≡ take k s
unfolding pop
take-pop zero s h = refl
take-pop (suc k) [] h = refl
take-pop (suc k) (c ∷ []) h = absurd (omega arith)
take-pop (suc k) (c ∷ d ∷ s) h = ap (◌∷◌ c) (take-pop k (d ∷ s) (omega arith))

-- The trimming loop keeps what leaves one character free.
pub shrink-eq-take : (fuel m : ℕ) (s : Text) → length s ≤ fuel → shrink fuel (suc m) s ≡ take m s
unfolding shrink
shrink-eq-take zero zero [] h = refl
shrink-eq-take zero (suc m) [] h = refl
shrink-eq-take zero m (c ∷ s) h = absurd (omega arith)
shrink-eq-take (suc fuel) m s h = elim (Bool-cases (leb (suc m) (length s))) [
  | inl e ↦
      rw (e, ← take-pop m s (leb→le (suc m) (length s) e))
        (shrink-eq-take fuel m (pop s) (omega (arith, length-pop s)))
  | inr e ↦ rw (e) (sym (take_of_length-le m s (ground arith)))
]
