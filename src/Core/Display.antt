-- ===== src/Core/Display.antt =====
-- crates/clippo-core/src/display.rs: one line of text that is safe to show.
pub mod Bounds
pub mod Safe
pub mod Idempotent
use clippo.Prelude.{
  ℕ, zero, suc, ◌+◌, ◌-◌, ◌/◌, ◌%◌, Bool, true, false, ◌||◌, List, [], ◌∷◌, ◌++◌, Option, none,
  some, ltb, leb, ◌==◌, if◌then◌else◌, length,
}
use clippo.Prelude.Text.{Text, codes, between, is_whitespace, is_control}

abbrev pub ellipsis : ℕ
ellipsis = 0x2026

unfoldable pub is_invisible_or_reordering : ℕ → Bool
is_invisible_or_reordering c =
    c == 0x00ad
    || c == 0x061c
    || c == 0x180e
    || between 0x200b 0x200f c
    || between 0x202a 0x202e c
    || between 0x2060 0x206f c
    || c == 0xfeff
    || between 0xfff9 0xfffb c
    || between 0xe0000 0xe007f c

-- `{:x}`: the digits of a `u32`, the least significant first found; eight rounds are enough.
abbrev pub hex_digit : ℕ → ℕ
hex_digit d = if ltb d 10 then b'0' + d else b'a' + (d - 10)

unfoldable pub hex_from : ℕ → ℕ → Text → Text
hex_from zero n acc = acc
hex_from (suc fuel) n acc =
    let rest = hex_from fuel (n / 16) (hex_digit (n % 16) ∷ acc) in
    if ltb n 16 then hex_digit n ∷ acc else rest

unfoldable pub hex : ℕ → Text
unfolding hex_from
hex n = hex_from 8 n []

-- `format!("\\u{{{:x}}}", c as u32)`
unfoldable pub escape : ℕ → Text
unfolding hex
escape c = codes "\\u{" ++ hex c ++ codes "}"

-- what is written for a character that is not white space
unfoldable pub piece : ℕ → Text
piece c = if is_control c || is_invisible_or_reordering c then escape c else c ∷ []

-- the variables of the loop
pub record Line : Type 0 where
  pub out : Text
  pub written : ℕ
  pub pending_space : Bool

abbrev pub start : Line
start = record { out = []; written = 0; pending_space = false }

abbrev pub space_width : Bool → ℕ
space_width pending = if pending then 1 else 0

-- one round; `none` is the `break` that sets `cut`
unfoldable pub step : ℕ → ℕ → Line → Option Line
step max_chars c s =
    if is_whitespace c
    then some (record s { pending_space = ltb 0 s.written })
    else if ltb max_chars (s.written + space_width s.pending_space + length (piece c))
    then none
    else some (record {
      out = s.out ++ (if s.pending_space then 0x20 ∷ piece c else piece c);
      written = s.written + space_width s.pending_space + length (piece c);
      pending_space = false;
    })

-- the loop: the text written, and whether it was cut
unfoldable pub scan : ℕ → Text → Line → Text × Bool
scan max_chars [] s = (s.out, false)
scan max_chars (c ∷ text) s = elim (step max_chars c s) [
  | none ↦ (s.out, true)
  | some s' ↦ scan max_chars text s'
]

-- `String::pop`
unfoldable pub pop : Text → Text
pop [] = []
pop (c ∷ []) = []
pop (c ∷ d ∷ s) = c ∷ pop (d ∷ s)

-- `while out.chars().count() >= max_chars { out.pop(); }`; each round shortens the text
unfoldable pub shrink : ℕ → ℕ → Text → Text
unfolding pop
shrink zero max_chars out = out
shrink (suc fuel) max_chars out =
    let rest = shrink fuel max_chars (pop out) in if leb max_chars (length out) then rest else out

unfoldable pub finish : ℕ → Text × Bool → Text
finish max_chars (out, cut) =
    if cut then shrink (length out) max_chars out ++ ellipsis ∷ [] else out

unfoldable pub one_line : Text → ℕ → Text
one_line text max_chars =
    if max_chars == 0 then [] else finish max_chars (scan max_chars text start)
