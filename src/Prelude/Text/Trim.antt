-- ===== src/Prelude/Text/Trim.antt =====
-- White space at the ends of a text makes no difference to its trimmed form.
use mathlib.Core.Path.{◌≡◌, refl, ap, ◌∙◌}
use mathlib.Core.Bool.{true}
use mathlib.Core.List.{[], ◌∷◌, ◌++◌}
use native.Mathlib.Omega.{arith}
use clippo.Prelude.Tests.{Bool-cases}
use clippo.Prelude.Lists.{all}
use mathlib.Core.Logic.{inl, inr}
use clippo.Prelude.Text.Defs.{Text}
use clippo.Prelude.Text.Chars.{is_whitespace}
use clippo.Prelude.Text.Strings.{trim_start, trim_end, trim}

trim_start-append : (w t : Text) → all is_whitespace w ≡ true → trim_start (w ++ t) ≡ trim_start t
unfolding trim_start
trim_start-append [] t h = refl
trim_start-append (c ∷ w) t h = ground (arith, trim_start-append w t)

trim_end_blank : (w : Text) → all is_whitespace w ≡ true → trim_end w ≡ []
unfolding trim_end
trim_end_blank [] h = refl
trim_end_blank (c ∷ w) h = ground (arith, trim_end_blank w)

trim_end-append : (t w : Text) → all is_whitespace w ≡ true → trim_end (t ++ w) ≡ trim_end t
unfolding trim_end
trim_end-append [] w h = trim_end_blank w h
trim_end-append (c ∷ t) w h = rw (trim_end-append t w h) refl

trim-append_right : (t w : Text) → all is_whitespace w ≡ true → trim (t ++ w) ≡ trim t
unfolding trim trim_start
trim-append_right [] w h = trim_blank w h
  where
    trim_blank : (v : Text) → all is_whitespace v ≡ true → trim_end (trim_start v) ≡ []
    trim_blank [] k = refl
    trim_blank (c ∷ v) k = ground (arith, trim_blank v)
trim-append_right (c ∷ t) w h = elim (Bool-cases (is_whitespace c)) [
  | inl e ↦ rw e (trim-append_right t w h)
  | inr e ↦ rw e (trim_end-append (c ∷ t) w h)
]

-- `v` and `w` are white space.
pub trim_around :
    (v t w : Text)
    → all is_whitespace v ≡ true
    → all is_whitespace w ≡ true
    → trim (v ++ (t ++ w)) ≡ trim t
unfolding trim
trim_around v t w h k = ap trim_end (trim_start-append v (t ++ w) h) ∙ trim-append_right t w k
