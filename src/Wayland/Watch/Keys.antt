-- ===== src/Wayland/Watch/Keys.antt =====
-- watch.rs: the maps of the watcher's state, by the keys they have.
use clippo.Prelude.{
  ℕ, ◌≡◌, refl, sym, ap, ◌∙◌, Bool, true, false, not, ◌&&◌, ◌||◌, List, [], ◌∷◌, none, any, ◌==◌,
  arith, Bool-cases, inl, inr, is_some, any-append, length, ◌≤◌, length-append, length-filter-le,
  suc,
}
use clippo.Wayland.Watch.{remove_key, insert_key, get_key}

module _ {ℓ} {A : Type ℓ} where
  abbrev pub has_key : ℕ → List (ℕ × A) → Bool
  has_key k m = any (λ (e : ℕ × A). e.0 == k) m

  pub is_some-get_key : (k : ℕ) (m : List (ℕ × A)) → is_some (get_key k m) ≡ has_key k m
  unfolding get_key is_some
  is_some-get_key k [] = refl
  is_some-get_key k (e ∷ m) = elim (Bool-cases (e.0 == k)) [
    | inl h ↦ rw h refl
    | inr h ↦ rw h (is_some-get_key k m)
  ]

  pub get_key-none : (k : ℕ) (m : List (ℕ × A)) → get_key k m ≡ none → has_key k m ≡ false
  unfolding is_some
  get_key-none k m h = sym (is_some-get_key k m) ∙ ap is_some h

  pub has_key-remove_key :
      (k j : ℕ) (m : List (ℕ × A)) → has_key j (remove_key k m) ≡ (not (j == k) && has_key j m)
  unfolding remove_key
  has_key-remove_key k j [] = ground arith
  has_key-remove_key k j (e ∷ m) = ground (arith, has_key-remove_key k j m)

  pub has_key-insert_key :
      (k j : ℕ) (v : A) (m : List (ℕ × A))
      → has_key j (insert_key k v m) ≡ ((k == j) || has_key j m)
  unfolding insert_key
  has_key-insert_key k j v m = ground (
    arith,
    any-append (λ (e : ℕ × A). e.0 == j) (remove_key k m) ((k, v) ∷ []),
    has_key-remove_key k j m,
  )

  pub length-remove_key-le : (k : ℕ) (m : List (ℕ × A)) → length (remove_key k m) ≤ length m
  unfolding remove_key
  length-remove_key-le k m = length-filter-le (λ (e : ℕ × A). not (e.0 == k)) m

  pub length-remove_key :
      (k : ℕ) (m : List (ℕ × A)) → has_key k m ≡ true → suc (length (remove_key k m)) ≤ length m
  unfolding remove_key
  length-remove_key k [] h = cc
  length-remove_key k (e ∷ m) h = elim (Bool-cases (e.0 == k)) [
    | inl q ↦ rw q (ground (arith, length-remove_key-le k m))
    | inr q ↦ rw q (ground (arith, length-remove_key k m))
  ]

  pub length-insert_key-le :
      (k : ℕ) (v : A) (m : List (ℕ × A)) → length (insert_key k v m) ≤ suc (length m)
  unfolding insert_key
  length-insert_key-le k v m =
      omega (arith, length-append (remove_key k m) ((k, v) ∷ []), length-remove_key-le k m)
