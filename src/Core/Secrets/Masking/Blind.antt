-- ===== src/Core/Secrets/Masking/Blind.antt =====
-- masking.rs: what a mask shows.
use mathlib.Core.List.{flatten, reverse, reverse-append, reverse-reverse}
use clippo.Prelude.{
  ℕ, zero, suc, ◌+◌, ◌-◌, ◌≤◌, ◌≡◌, refl, sym, ap, ◌∙◌, List, [], ◌∷◌, ◌++◌, leb, if◌then◌else◌,
  length, take, drop, arith, length-append, length-take, length-drop, Bool-cases, inl, inr,
  take-append-drop,
}
use clippo.Prelude.Text.{Text}
use clippo.Core.Host.{Host}
use clippo.Core.Secrets.Masking.{usize_max, usize_add, bullets, mask_with}

module _ {ℓ} {A : Type ℓ} where
  length-reverse : (xs : List A) → length (reverse xs) ≡ length xs
  length-reverse [] = refl
  length-reverse (x ∷ xs) =
      ap length (reverse-append (x ∷ []) xs)
      ∙ omega (arith, length-append (reverse xs) (x ∷ []), length-reverse xs)

  take_of_append : (n : ℕ) (xs ys : List A) → length xs ≡ n → take n (xs ++ ys) ≡ xs
  take_of_append zero [] ys h = refl
  take_of_append zero (x ∷ xs) ys h = absurd (omega arith)
  take_of_append (suc n) [] ys h = absurd (omega arith)
  take_of_append (suc n) (x ∷ xs) ys h = ap (◌∷◌ x) (take_of_append n xs ys (omega arith))

  -- The last `n` elements, as the code takes them: from the back, then turned round.
  last-eq-drop :
      (n : ℕ) (xs : List A)
      → n ≤ length xs
      → reverse (take n (reverse xs)) ≡ drop (length xs - n) xs
  last-eq-drop n xs h =
      let k = length xs - n in
      let back = drop k xs in
      let size : length (reverse back) ≡ n = omega (arith, length-reverse back, length-drop k xs) in
      let turned : reverse xs ≡ reverse back ++ reverse (take k xs) =
        ap reverse (sym (take-append-drop k xs)) ∙ reverse-append (take k xs) back in
      let taken : take n (reverse xs) ≡ reverse back =
        rw turned (take_of_append n (reverse back) (reverse (take k xs)) size) in
      ap reverse taken ∙ reverse-reverse back

module _ (host : Host) where
  -- A value of at most `prefix + suffix` clusters is bullets alone; a longer one is its first
  -- `prefix` clusters, the bullets, and its last `suffix` clusters. The sum saturates in a `usize`,
  -- which holds every length.
  pub mask_with_lem :
      (value : Text) (prefix suffix : ℕ)
      → length (host.graphemes value) ≤ usize_max
      → mask_with host value prefix suffix ≡ (
          let clusters = host.graphemes value in
          if leb (length clusters) (prefix + suffix)
          then bullets
          else flatten (take prefix clusters)
            ++ bullets
            ++ flatten (drop (length clusters - suffix) clusters))
  unfolding mask_with
  mask_with_lem value p s h =
      let gs = host.graphemes value in
      elim (Bool-cases (leb (length gs) (p + s))) [
        | inl short ↦ ground (arith, length-take (usize_add (usize_add p s) 1) gs)
        | inr long ↦ ground (arith, length-take (usize_add (usize_add p s) 1) gs, last-eq-drop s gs)
      ]
