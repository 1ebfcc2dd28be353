-- ===== src/Store/Key/Hex.antt =====
-- key.rs: a key survives being written as text.
use clippo.Prelude.{
  ℕ, ◌+◌, ◌*◌, ◌≤◌, ◌<◌, ◌≡◌, refl, ap, ◌∙◌, Bool, true, false, ◌&&◌, [], ◌∷◌, ◌++◌, some, length,
  all, All, arith, ◌/◌, ◌%◌, ◌==◌, leb, if◌then◌else◌,
}
use clippo.Prelude.Text.{
  Text, trim, trim_around, trim_start, trim_end, len, as_bytes, is_whitespace, is_empty, len_utf8,
  encode_utf8,
}
use clippo.Core.Display.{hex_digit}
use clippo.Store.Key.{Key, key_bytes, to_hex, digit_value, from_pair, from_pairs, from_hex}

-- `[u8; KEY_BYTES]`
abbrev pub IsKey : Key → Type 0
IsKey key = (length key ≡ key_bytes) × All (λ (b : ℕ). b < 256) key

digit_value-hex_digit : (n : ℕ) → n < 16 → digit_value (hex_digit n) ≡ some n
unfolding digit_value
digit_value-hex_digit n h = ground arith

hex_digit_range : (n : ℕ) → n < 16 → (48 ≤ hex_digit n) × (hex_digit n ≤ 102)
hex_digit_range n h = ground arith

from_pair-hex_digit :
    (b : ℕ) → b < 256 → from_pair (hex_digit (b / 16)) (hex_digit (b % 16)) ≡ some b
unfolding from_pair
from_pair-hex_digit b h =
    let high : b / 16 < 16 = omega arith in
    let low : b % 16 < 16 = omega arith in
    let no_plus : (hex_digit (b / 16) == 43) ≡ false =
      ground (arith, hex_digit_range (b / 16) high) in
    let whole : b / 16 * 16 + b % 16 ≡ b = omega arith in
    rw (no_plus, digit_value-hex_digit (b / 16) high, digit_value-hex_digit (b % 16) low)
      (ap (λ (n : ℕ). some n) whole)

-- the text of a key has no character outside this range
abbrev ArePlain : Text → Type 0
ArePlain t = All (λ (c : ℕ). (48 ≤ c) × (c ≤ 102)) t

to_hex-ArePlain : (key : Key) → All (λ (b : ℕ). b < 256) key → ArePlain (to_hex key)
unfolding to_hex
to_hex-ArePlain [] h = tt
to_hex-ArePlain (b ∷ key) (h, hs) = (
  hex_digit_range (b / 16) (omega arith),
  (hex_digit_range (b % 16) (omega arith), to_hex-ArePlain key hs),
)

not_blank : (c : ℕ) → 48 ≤ c → c ≤ 102 → is_whitespace c ≡ false
unfolding is_whitespace
not_blank c h k = ground arith

trim_end-ArePlain : (t : Text) → ArePlain t → trim_end t ≡ t
unfolding trim_end
trim_end-ArePlain [] h = refl
trim_end-ArePlain (c ∷ t) ((a, b), hs) =
    rw (trim_end-ArePlain t hs, not_blank c a b) (shut (is_empty t) (c ∷ t))
  where
    shut : (e : Bool) (s : Text) → (if e && false then [] else s) ≡ s
    shut true s = refl
    shut false s = refl

trim-ArePlain : (t : Text) → ArePlain t → trim t ≡ t
unfolding trim trim_start
trim-ArePlain [] h = refl
trim-ArePlain (c ∷ t) ((a, b), hs) = rw (not_blank c a b) (trim_end-ArePlain (c ∷ t) ((a, b), hs))

len-ArePlain : (t : Text) → ArePlain t → len t ≡ length t
unfolding len len_utf8
len-ArePlain [] h = refl
len-ArePlain (c ∷ t) ((a, b), hs) = ground (arith, len-ArePlain t hs)

as_bytes-ArePlain : (t : Text) → ArePlain t → as_bytes t ≡ t
unfolding as_bytes encode_utf8
as_bytes-ArePlain [] h = refl
as_bytes-ArePlain (c ∷ t) ((a, b), hs) =
    let ascii : leb c 0x7f ≡ true = ground arith in rw (ascii, as_bytes-ArePlain t hs) refl

length-to_hex : (key : Key) → length (to_hex key) ≡ length key * 2
unfolding to_hex
length-to_hex [] = omega arith
length-to_hex (b ∷ key) = ground (arith, length-to_hex key)

from_pairs-to_hex : (key : Key) → All (λ (b : ℕ). b < 256) key → from_pairs (to_hex key) ≡ some key
unfolding from_pairs to_hex
from_pairs-to_hex [] h = refl
from_pairs-to_hex (b ∷ key) (h, hs) = rw (from_pair-hex_digit b h, from_pairs-to_hex key hs) refl

-- The text of a key, with white space around it, such as the end of the line it is written with, is read
-- back as that key.
pub from_hex-to_hex :
    (key : Key) (v w : Text)
    → IsKey key
    → all is_whitespace v ≡ true
    → all is_whitespace w ≡ true
    → from_hex (v ++ (to_hex key ++ w)) ≡ some key
unfolding from_hex
from_hex-to_hex key v w (n, h) blank blank' =
    let plain = to_hex-ArePlain key h in
    let trimmed = trim_around v (to_hex key) w blank blank' ∙ trim-ArePlain (to_hex key) plain in
    let long : len (to_hex key) ≡ 64 =
      ground (arith, len-ArePlain (to_hex key) plain, length-to_hex key) in
    rw (trimmed, long, as_bytes-ArePlain (to_hex key) plain) (from_pairs-to_hex key h)
