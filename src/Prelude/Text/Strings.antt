-- ===== src/Prelude/Text/Strings.antt =====
-- `str` methods that the program calls, on lists of code points.
use Prim.Native.Nat.{ℕ, ◌+◌}
use mathlib.Core.Bool.{Bool, true, false, ◌&&◌, ◌||◌, not}
use mathlib.Core.List.{List, [], ◌∷◌, ◌++◌, map}
use clippo.Prelude.Tests.{◌==◌, if◌then◌else◌}
use clippo.Prelude.Lists.{filter}
use clippo.Prelude.Text.Defs.{Text, text_eq}
use clippo.Prelude.Text.Chars.{
  is_whitespace, is_ascii_whitespace, to_ascii_lowercase, to_ascii_uppercase, len_utf8, encode_utf8,
}

-- `str::to_ascii_lowercase` and `str::to_ascii_uppercase`
abbrev pub lower : Text → Text
lower = map to_ascii_lowercase

abbrev pub upper : Text → Text
upper = map to_ascii_uppercase

-- `str::eq_ignore_ascii_case`
abbrev pub eq_ignore_case : Text → Text → Bool
eq_ignore_case s t = text_eq (lower s) (lower t)

abbrev pub is_empty {ℓ} : {A : Type ℓ} → List A → Bool
is_empty [] = true
is_empty (c ∷ s) = false

-- `str::len`: bytes of UTF-8
unfoldable pub len : Text → ℕ
len [] = 0
len (c ∷ s) = len_utf8 c + len s

-- `str::as_bytes`
unfoldable pub as_bytes : Text → List ℕ
as_bytes [] = []
as_bytes (c ∷ s) = encode_utf8 c ++ as_bytes s

unfoldable pub trim_start : Text → Text
trim_start [] = []
trim_start (c ∷ s) = if is_whitespace c then trim_start s else c ∷ s

-- A character is dropped if it and all that follows it is white space.
unfoldable pub trim_end : Text → Text
trim_end [] = []
trim_end (c ∷ s) =
    let rest = trim_end s in if is_empty rest && is_whitespace c then [] else c ∷ rest

-- `str::trim`
unfoldable pub trim : Text → Text
unfolding trim_start trim_end
trim s = trim_end (trim_start s)

-- what stands before the first `sep`; all of it if there is none (`split_once`, first half)
unfoldable pub before : ℕ → Text → Text
before sep [] = []
before sep (c ∷ s) = if c == sep then [] else c ∷ before sep s

-- `str::split` on a character: never empty
unfoldable pub split_go : ℕ → Text → Text × List Text
split_go sep [] = ([], [])
split_go sep (c ∷ s) =
    let (first, rest) = split_go sep s in if c == sep then ([], first ∷ rest) else (c ∷ first, rest)

unfoldable pub split : ℕ → Text → List Text
unfolding split_go
split sep s = let (first, rest) = split_go sep s in first ∷ rest

-- `[_]::join` with one separating character
unfoldable pub join : ℕ → List Text → Text
join sep [] = []
join sep (p ∷ []) = p
join sep (p ∷ q ∷ ps) = p ++ sep ∷ join sep (q ∷ ps)

unfoldable pub starts_with : Text → Text → Bool
starts_with s [] = true
starts_with [] (d ∷ p) = false
starts_with (c ∷ s) (d ∷ p) = c == d && starts_with s p

-- `str::contains`
unfoldable pub contains : Text → Text → Bool
unfolding starts_with
contains [] p = is_empty p
contains (c ∷ s) p = starts_with (c ∷ s) p || contains s p

-- `value.chars().filter(|c| !c.is_ascii_whitespace()).collect()`
abbrev pub squeeze : Text → Text
squeeze = filter (λ c. not (is_ascii_whitespace c))
