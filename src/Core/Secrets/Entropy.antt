-- ===== src/Core/Secrets/Entropy.antt =====
-- crates/clippo-core/src/secrets/entropy.rs: whether a value looks random.
pub mod Bounds
use clippo.Prelude.{
  ℕ, zero, suc, ◌+◌, ◌*◌, ◌≤◌, ◌<◌, ◌≡◌, refl, Bool, true, false, not, ◌&&◌, ◌||◌, List, [], ◌∷◌,
  ◌++◌, map, ltb, leb, ◌==◌, if◌then◌else◌, length, any, all, arith,
}
use clippo.Prelude.Text.{
  Text, codes, is_whitespace, is_control, is_ascii_alphabetic, is_ascii_alphanumeric, is_empty, len,
  len_utf8_bounds, starts_with, contains,
}
use clippo.Core.Host.{Host}

abbrev min_chars : ℕ
min_chars = 8

abbrev pub max_chars : ℕ
max_chars = 128

abbrev min_character_classes : ℕ
min_character_classes = 3

unfoldable pub is_single_token : Text → Bool
is_single_token value =
    not (is_empty value) && not (any (λ c. is_whitespace c || is_control c) value)

unfoldable pub length_is_in_range : Text → Bool
length_is_in_range value = leb min_chars (length value) && leb (length value) max_chars

-- `value.split("://").next()`: what stands before the first separator
unfoldable scheme_of : Text → Text
unfolding starts_with
scheme_of [] = []
scheme_of (c ∷ s) = if starts_with (c ∷ s) (codes "://") then [] else c ∷ scheme_of s

unfoldable is_scheme : Text → Bool
is_scheme [] = false
is_scheme (c ∷ s) =
    is_ascii_alphabetic c
    && all (λ d. is_ascii_alphanumeric d || d == b'+' || d == b'.' || d == b'-') s

unfoldable pub is_locator : Text → Bool
unfolding scheme_of is_scheme
is_locator value =
    if contains value (codes "://") && is_scheme (scheme_of value)
    then true
    else starts_with value (codes "/")
      || starts_with value (codes "./")
      || starts_with value (codes "../")
      || starts_with value (codes "~/")

-- the bits of `seen`, the `u8` that collects the classes
pub record Classes : Type 0 where
  pub has_lower : Bool
  pub has_upper : Bool
  pub has_digit : Bool
  pub has_other : Bool

abbrev pub no_classes : Classes
no_classes = record { has_lower = false; has_upper = false; has_digit = false; has_other = false }

abbrev bit : Bool → ℕ
bit b = if b then 1 else 0

-- `seen.count_ones()`
abbrev pub count_ones : Classes → ℕ
count_ones s = bit s.has_lower + bit s.has_upper + bit s.has_digit + bit s.has_other

-- `*frequencies.entry(c).or_insert(0) += 1`
unfoldable pub add_one : ℕ → List (ℕ × ℕ) → List (ℕ × ℕ)
add_one c [] = (c, 1) ∷ []
add_one c ((d, n) ∷ rest) = if c == d then (d, n + 1) ∷ rest else (d, n) ∷ add_one c rest

-- The table of the first loop. The order in which a `HashMap` is read is not fixed; here it is that
-- of first occurrence.
unfoldable pub frequencies : List (ℕ × ℕ) → Text → List (ℕ × ℕ)
unfolding add_one
frequencies table [] = table
frequencies table (c ∷ s) = frequencies (add_one c table) s

module _ (host : Host) where
  unfoldable pub classify : ℕ → Classes → Classes
  classify c seen =
      if host.is_numeric c
      then record seen { has_digit = true }
      else if host.is_lowercase c
      then record seen { has_lower = true }
      else if host.is_uppercase c
      then record seen { has_upper = true }
      else if c == b'-' || c == b'_'
      then seen
      else record seen { has_other = true }

  unfoldable pub classes_from : Classes → Text → Classes
  classes_from seen [] = seen
  classes_from seen (c ∷ s) = classes_from (classify c seen) s

  unfoldable pub character_classes : Text → ℕ
  character_classes value = count_ones (classes_from no_classes value)

  open host use {Float, of_ℕ, zero_float, div, mul, add, neg, log2, gtb}

  abbrev term : ℕ → ℕ → Float
  term total count = let p = div (of_ℕ count) (of_ℕ total) in mul p (log2 p)

  -- `sum::<f64>()`
  unfoldable pub sum_from : Float → List Float → Float
  sum_from acc [] = acc
  sum_from acc (x ∷ xs) = sum_from (add acc x) xs

  unfoldable pub shannon_bits_per_char : Text → Float
  shannon_bits_per_char value =
      if length value == 0
      then zero_float
      else neg (sum_from zero_float (map (λ e. term (length value) e.1) (frequencies [] value)))

  -- 3.5
  abbrev entropy_threshold_bits_per_char : Float
  entropy_threshold_bits_per_char = div (of_ℕ 7) (of_ℕ 2)

  -- the conditions of `fires`, after its check of the length in bytes
  unfoldable pub looks_random : Text → Bool
  looks_random value =
      is_single_token value
      && not (is_locator value)
      && length_is_in_range value
      && leb min_character_classes (character_classes value)
      && gtb (shannon_bits_per_char value) entropy_threshold_bits_per_char

  unfoldable pub fires : Text → Bool
  fires value = if ltb (max_chars * 4) (len value) then false else looks_random value
