-- ===== src/Core/Secrets/Detect/Head.antt =====
-- secrets.rs: how much of a copy the shape rules see.
use clippo.Prelude.{
  ℕ, zero, suc, ◌+◌, ◌-◌, ◌≤◌, ◌<◌, ◌≡◌, refl, sym, ap, ◌∙◌, true, false, [], ◌∷◌, ◌++◌, leb, arith,
  Bool-cases, inl, inr, ◌⊎◌, leb→le,
}
use clippo.Prelude.Text.{Text, len, len_utf8, len_utf8_bounds}
use clippo.Core.Secrets.Detect.{
  is_char_boundary, walk_back, bytes_prefix, head_within, head, detection_max_bytes,
}

is_char_boundary-zero : (t : Text) → is_char_boundary zero t ≡ true
unfolding is_char_boundary
is_char_boundary-zero [] = refl
is_char_boundary-zero (c ∷ t) = refl

-- One byte that ends no character can be left out.
bytes_prefix_pred :
    (end : ℕ) (t : Text)
    → is_char_boundary (suc end) t ≡ false
    → bytes_prefix (suc end) t ≡ bytes_prefix end t
unfolding bytes_prefix is_char_boundary
bytes_prefix_pred end [] h = refl
bytes_prefix_pred end (c ∷ t) h = elim (Bool-cases (leb (len_utf8 c) end)) [
  | inl e ↦
      let n = len_utf8 c in
      let shift : suc end - n ≡ suc (end - n) = omega (arith, leb→le n end e) in
      ground (arith, shift, bytes_prefix_pred (end - n) t)
  | inr e ↦ ground (arith, is_char_boundary-zero t)
]

bytes_prefix-walk_back :
    (end : ℕ) (t : Text) → bytes_prefix (walk_back end t) t ≡ bytes_prefix end t
unfolding walk_back
bytes_prefix-walk_back zero t = refl
bytes_prefix-walk_back (suc end) t = elim (Bool-cases (is_char_boundary (suc end) t)) [
  | inl e ↦ rw e refl
  | inr e ↦ rw e (bytes_prefix-walk_back end t ∙ sym (bytes_prefix_pred end t e))
]

-- What a limit in bytes keeps: a prefix within the limit, and more than the limit less four bytes
-- unless it keeps everything.
bytes_prefix_lem :
    (limit : ℕ) (t : Text)
    → (rest : Text) × (t ≡ bytes_prefix limit t ++ rest)
      × (len (bytes_prefix limit t) ≤ limit)
      × ((rest ≡ []) ⊎ (limit < len (bytes_prefix limit t) + 4))
unfolding bytes_prefix len
bytes_prefix_lem limit [] = ([], refl, omega arith, inl refl)
bytes_prefix_lem limit (c ∷ t) = elim (Bool-cases (leb (len_utf8 c) limit)) [
  | inl e ↦
      let (rest, split, fits, all_or_most) = bytes_prefix_lem (limit - len_utf8 c) t in
      (rest, rw e (ap (◌∷◌ c) split), ground arith, ground arith)
  | inr e ↦ (c ∷ t, rw e refl, rw e (omega arith), inr (ground (arith, len_utf8_bounds c)))
]

bytes_prefix_all : (limit : ℕ) (t : Text) → len t ≤ limit → bytes_prefix limit t ≡ t
unfolding bytes_prefix len
bytes_prefix_all limit [] h = refl
bytes_prefix_all limit (c ∷ t) h = ground (arith, bytes_prefix_all (limit - len_utf8 c) t)

-- The loop finds what a walk from the front finds.
head_within-eq : (limit : ℕ) (t : Text) → head_within limit t ≡ bytes_prefix limit t
unfolding head_within
head_within-eq limit t = ground (arith, bytes_prefix-walk_back limit t, bytes_prefix_all limit t)

-- The cut never falls inside a character: the head is a prefix of the text, of at most
-- `detection_max_bytes` bytes, and unless it is the whole text at most three bytes are lost.
head_lem :
    (text : Text)
    → (rest : Text) × (text ≡ head text ++ rest)
      × (len (head text) ≤ detection_max_bytes)
      × ((rest ≡ []) ⊎ (detection_max_bytes < len (head text) + 4))
unfolding head
head_lem text = rw head-eq (bytes_prefix_lem detection_max_bytes text)
  where
    head-eq : head text ≡ bytes_prefix detection_max_bytes text
    head-eq = head_within-eq detection_max_bytes text
