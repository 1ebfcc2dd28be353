-- ===== src/Core/Display/Safe.antt =====
-- display.rs: what a line may hold.
use clippo.Prelude.{
  ℕ, zero, suc, ◌/◌, ◌%◌, ◌<◌, ◌≡◌, refl, Bool, true, false, not, ◌&&◌, ◌||◌, [], ◌∷◌, ◌++◌, ◌==◌,
  if◌then◌else◌, take, all, arith, holds_below, holds_below_lem, all-append,
}
use clippo.Prelude.Text.{Text, codes, is_whitespace, is_control}
use clippo.Core.Display.{
  is_invisible_or_reordering, hex_digit, hex_from, hex, escape, piece, ellipsis,
}

-- a character that a terminal shows in its own cell and does not act on
unfoldable pub is_shown : ℕ → Bool
is_shown c = not (is_whitespace c || is_control c || is_invisible_or_reordering c)

hex_digits_shown : holds_below (λ d. is_shown (hex_digit d)) 16 ≡ true
unfolding holds_below is_shown is_whitespace is_control is_invisible_or_reordering
hex_digits_shown = refl

hex_digit_shown : (d : ℕ) → d < 16 → is_shown (hex_digit d) ≡ true
hex_digit_shown d h = holds_below_lem (λ d. is_shown (hex_digit d)) 16 d h hex_digits_shown

hex_from_shown :
    (fuel n : ℕ) (acc : Text) → all is_shown acc ≡ true → all is_shown (hex_from fuel n acc) ≡ true
unfolding hex_from
hex_from_shown zero n acc h = h
hex_from_shown (suc fuel) n acc h = ground (
  arith,
  hex_digit_shown n,
  hex_digit_shown (n % 16),
  hex_from_shown fuel (n / 16) (hex_digit (n % 16) ∷ acc),
)

prefix_shown : all is_shown (codes "\\u{") ≡ true
unfolding is_shown is_whitespace is_control is_invisible_or_reordering
prefix_shown = refl

suffix_shown : all is_shown (codes "}") ≡ true
unfolding is_shown is_whitespace is_control is_invisible_or_reordering
suffix_shown = refl

escape_shown : (c : ℕ) → all is_shown (escape c) ≡ true
unfolding escape hex
escape_shown c =
    rw
      (
        all-append is_shown (codes "\\u{" ++ hex_from 8 c []) (codes "}"),
        all-append is_shown (codes "\\u{") (hex_from 8 c []),
        prefix_shown,
        suffix_shown,
        hex_from_shown 8 c [] refl,
      )
      refl

pub piece_shown : (c : ℕ) → is_whitespace c ≡ false → all is_shown (piece c) ≡ true
unfolding piece is_shown
piece_shown c h = ground (arith, escape_shown c)

-- Shown characters and single spaces between them; `gap` says that a space may not come next.
unfoldable pub tidy : Bool → Text → Bool
tidy gap [] = not gap
tidy gap (c ∷ s) = if c == 0x20 then not gap && tidy true s else is_shown c && tidy false s

-- the empty line, or a tidy one that neither begins nor ends with a space
unfoldable pub is_tidy : Text → Bool
is_tidy [] = true
is_tidy (c ∷ s) = tidy true (c ∷ s)

space_not_shown : is_shown 0x20 ≡ false
unfolding is_shown is_whitespace
space_not_shown = refl

pub tidy-shown :
    (gap : Bool) (c : ℕ) (s : Text) → is_shown c ≡ true → tidy gap (c ∷ s) ≡ tidy false s
unfolding tidy
tidy-shown gap c s h = ground (arith, space_not_shown)

pub tidy-all_shown : (s : Text) → all is_shown s ≡ true → tidy false s ≡ true
unfolding tidy
tidy-all_shown [] h = refl
tidy-all_shown (c ∷ s) h = ground (arith, space_not_shown, tidy-all_shown s)

pub tidy-append :
    (gap : Bool) (s t : Text) → tidy gap s ≡ true → tidy false t ≡ true → tidy gap (s ++ t) ≡ true
unfolding tidy
tidy-append true [] t h k = cc
tidy-append false [] t h k = k
tidy-append gap (c ∷ s) t h k = ground (arith, tidy-append true s t, tidy-append false s t)

-- Any prefix of a tidy text may be marked as cut.
pub tidy-take :
    (gap : Bool) (k : ℕ) (s : Text)
    → tidy gap s ≡ true
    → tidy gap (take k s ++ ellipsis ∷ []) ≡ true
unfolding tidy is_shown is_whitespace is_control is_invisible_or_reordering
tidy-take gap zero s h = refl
tidy-take gap (suc k) [] h = refl
tidy-take gap (suc k) (c ∷ s) h = ground (arith, tidy-take true k s, tidy-take false k s)

-- Every character of a tidy line is a space or shown.
unfoldable pub is_safe : ℕ → Bool
is_safe c = c == 0x20 || is_shown c

pub all-safe_of_tidy : (gap : Bool) (s : Text) → tidy gap s ≡ true → all is_safe s ≡ true
unfolding tidy is_safe
all-safe_of_tidy gap [] h = refl
all-safe_of_tidy gap (c ∷ s) h = ground (arith, all-safe_of_tidy true s, all-safe_of_tidy false s)
