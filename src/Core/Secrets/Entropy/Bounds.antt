-- ===== src/Core/Secrets/Entropy/Bounds.antt =====
-- entropy.rs: the check of the length in bytes changes no answer, and the counts are right.
use clippo.Prelude.{
  ℕ, ◌+◌, ◌*◌, ◌≤◌, ◌≡◌, ap, Bool, not, ◌&&◌, ◌||◌, List, [], ◌∷◌, ◌==◌, if◌then◌else◌, length, any,
  arith, ◌∙◌,
}
use clippo.Prelude.Text.{Text, len, len_utf8_bounds}
use clippo.Core.Host.{Host}
use clippo.Core.Secrets.Entropy.{
  length_is_in_range, looks_random, fires, frequencies, add_one, Classes, no_classes, count_ones,
  classify, classes_from, character_classes,
}

len-le : (s : Text) → len s ≤ 4 * length s
unfolding len
len-le [] = omega arith
len-le (c ∷ s) = omega (arith, len_utf8_bounds c, len-le s)

le-len : (s : Text) → length s ≤ len s
unfolding len
le-len [] = omega arith
le-len (c ∷ s) = omega (arith, len_utf8_bounds c, le-len s)

-- Refusing a value by its length in bytes, before anything walks it, refuses nothing that the other
-- conditions accept.
fires-eq-looks_random : (host : Host) (value : Text) → fires host value ≡ looks_random host value
unfolding fires looks_random length_is_in_range
fires-eq-looks_random host value = ground (arith, len-le value)

-- how often a character stands in a text, and in a table
unfoldable occurrences : ℕ → Text → ℕ
occurrences c [] = 0
occurrences c (d ∷ s) = (if c == d then 1 else 0) + occurrences c s

unfoldable entry_or_zero : ℕ → List (ℕ × ℕ) → ℕ
entry_or_zero c [] = 0
entry_or_zero c ((d, n) ∷ rest) = if c == d then n else entry_or_zero c rest

unfoldable sum_counts : List (ℕ × ℕ) → ℕ
sum_counts [] = 0
sum_counts ((d, n) ∷ rest) = n + sum_counts rest

entry_or_zero-add_one :
    (c d : ℕ) (table : List (ℕ × ℕ))
    → entry_or_zero c (add_one d table) ≡ entry_or_zero c table + (if c == d then 1 else 0)
unfolding entry_or_zero add_one
entry_or_zero-add_one c d [] = ground arith
entry_or_zero-add_one c d ((e, n) ∷ rest) = ground (arith, entry_or_zero-add_one c d rest)

sum_counts-add_one :
    (d : ℕ) (table : List (ℕ × ℕ)) → sum_counts (add_one d table) ≡ sum_counts table + 1
unfolding sum_counts add_one
sum_counts-add_one d [] = omega arith
sum_counts-add_one d ((e, n) ∷ rest) = ground (arith, sum_counts-add_one d rest)

frequencies_from :
    (s : Text) (table : List (ℕ × ℕ)) (c : ℕ)
    → (entry_or_zero c (frequencies table s) ≡ entry_or_zero c table + occurrences c s)
      × (sum_counts (frequencies table s) ≡ sum_counts table + length s)
unfolding frequencies occurrences
frequencies_from [] table c = omega arith
frequencies_from (d ∷ s) table c = omega (
  arith,
  frequencies_from s (add_one d table) c,
  entry_or_zero-add_one c d table,
  sum_counts-add_one d table,
)

-- The table holds for each character how often it occurs in the value, and its counts sum up to the
-- number of characters.
frequencies_lem :
    (value : Text) (c : ℕ)
    → (entry_or_zero c (frequencies [] value) ≡ occurrences c value)
      × (sum_counts (frequencies [] value) ≡ length value)
unfolding entry_or_zero sum_counts
frequencies_lem value c = omega (arith, frequencies_from value [] c)

module _ (host : Host) where
  -- the class of a character, each test after those before it
  abbrev in_digit : ℕ → Bool
  in_digit c = host.is_numeric c

  abbrev in_lower : ℕ → Bool
  in_lower c = not (host.is_numeric c) && host.is_lowercase c

  abbrev in_upper : ℕ → Bool
  in_upper c = not (host.is_numeric c) && not (host.is_lowercase c) && host.is_uppercase c

  abbrev in_other : ℕ → Bool
  in_other c =
      not (host.is_numeric c)
      && not (host.is_lowercase c)
      && not (host.is_uppercase c)
      && not (c == b'-' || c == b'_')

  abbrev reference : Classes → Text → Classes
  reference seen s = record {
    has_lower = seen.has_lower || any in_lower s;
    has_upper = seen.has_upper || any in_upper s;
    has_digit = seen.has_digit || any in_digit s;
    has_other = seen.has_other || any in_other s;
  }

  classes_from-eq : (s : Text) (seen : Classes) → classes_from host seen s ≡ reference seen s
  unfolding classes_from classify
  classes_from-eq [] seen = ground arith
  classes_from-eq (c ∷ s) seen = classes_from-eq s (classify host c seen) ∙ step c s seen
    where
      step :
          (c : ℕ) (s : Text) (seen : Classes)
          → reference (classify host c seen) s ≡ reference seen (c ∷ s)
      step c s seen = ground arith

  abbrev one_if : Bool → ℕ
  one_if b = if b then 1 else 0

  -- The number of classes is the number of the four that have a character in the value; a hyphen
  -- and an underscore are in none.
  character_classes_lem :
      (value : Text)
      → character_classes host value
        ≡ one_if (any in_lower value)
          + one_if (any in_upper value)
          + one_if (any in_digit value)
          + one_if (any in_other value)
  unfolding character_classes
  character_classes_lem value = ap count_ones (classes_from-eq value no_classes)
