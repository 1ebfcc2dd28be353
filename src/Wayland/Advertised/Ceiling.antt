-- ===== src/Wayland/Advertised/Ceiling.antt =====
-- watch.rs: what the ceiling on advertised types costs.
use clippo.Prelude.{
  ℕ, ◌≡◌, refl, sym, ap, ◌∙◌, Bool, true, false, not, ◌||◌, List, [], ◌∷◌, ◌++◌, any, length, drop,
  zero, suc, ltb, ◌==◌, arith, Bool-cases, inl, inr, ◌⊎◌, subst, any-append,
}
use clippo.Prelude.Text.{Text, squeeze, lower, text_eq, eq_of_text_eq}
use clippo.Wayland.Mime.{is_interesting, same, interesting_mimes}
use clippo.Wayland.Advertised.{
  AdvertisedMimes, no_mimes, max_advertised_mimes, push_mime, want, want_all, interesting_flavors,
}
use clippo.Wayland.Offer.Served.{same_trans}

-- the types of an offer as they arrive
unfoldable pub push_all : List Text → AdvertisedMimes → AdvertisedMimes
push_all [] a = a
push_all (mime ∷ mimes) a = push_all mimes (push_mime mime a)

want_all-append :
    (wanted xs : List Text) (mime : Text)
    → want_all wanted (xs ++ mime ∷ []) ≡ want (want_all wanted xs) mime
unfolding want_all
want_all-append wanted [] mime = refl
want_all-append wanted (x ∷ xs) mime = want_all-append (want wanted x) xs mime

abbrev has_like : Text → List Text → Bool
has_like mime xs = any (λ seen. same seen mime) xs

-- asking for a type of which the like was seen changes nothing
abbrev IsSettled : Text → List Text → Type 0
IsSettled mime wanted =
    (has_like mime wanted ≡ true) ⊎ ((length wanted == length interesting_mimes) ≡ true)

want-settled :
    (mime : Text) (wanted : List Text) → IsSettled mime wanted → want wanted mime ≡ wanted
unfolding want
want-settled mime wanted (inl h) = ground (arith, h)
want-settled mime wanted (inr h) = ground (arith, h)

want-dull :
    (mime : Text) (wanted : List Text) → is_interesting mime ≡ false → want wanted mime ≡ wanted
unfolding want
want-dull mime wanted h = rw h refl

is_interesting-same :
    (x mime : Text) → same x mime ≡ true → is_interesting mime ≡ true → is_interesting x ≡ true
unfolding is_interesting same
is_interesting-same x mime h k =
    subst (λ (t : Text). any (λ known. text_eq (lower known) t) interesting_mimes ≡ true)
      (sym (eq_of_text_eq (lower (squeeze x)) (lower (squeeze mime)) h)) k

has_like_trans :
    (x mime : Text) (xs : List Text)
    → same x mime ≡ true
    → has_like x xs ≡ true
    → has_like mime xs ≡ true
has_like_trans x mime [] h k = cc
has_like_trans x mime (y ∷ xs) h k = elim (Bool-cases (same y x)) [
  | inl e ↦ rw (same_trans y x mime e ∙ h) refl
  | inr e ↦ ground (arith, has_like_trans x mime xs h)
]

want-keeps :
    (x mime : Text) (wanted : List Text) → IsSettled mime wanted → IsSettled mime (want wanted x)
unfolding want
want-keeps x mime wanted s = elim (Bool-cases (not (is_interesting x) || has_like x wanted)) [
  | inl e ↦ rw e s
  | inr e ↦ elim (Bool-cases (length wanted == length interesting_mimes)) [
    | inl full ↦ rw (e, full) s
    | inr room ↦ elim s [
      | inl h ↦
          rw (e, room)
            (inl (ground (arith, any-append (λ seen. same seen mime) wanted (x ∷ []), h)))
      | inr h ↦ cc
    ]
  ]
]

want-new :
    (x mime : Text) (wanted : List Text)
    → is_interesting mime ≡ true
    → same x mime ≡ true
    → IsSettled mime (want wanted x)
unfolding want
want-new x mime wanted i h = elim (Bool-cases (has_like x wanted)) [
  | inl e ↦ rw (is_interesting-same x mime h i, e) (inl (has_like_trans x mime wanted h e))
  | inr e ↦ elim (Bool-cases (length wanted == length interesting_mimes)) [
    | inl full ↦ rw (is_interesting-same x mime h i, e, full) (inr full)
    | inr room ↦
        rw (is_interesting-same x mime h i, e, room)
          (inl (ground (arith, any-append (λ seen. same seen mime) wanted (x ∷ []), h)))
  ]
]

want_all-keeps :
    (mime : Text) (wanted xs : List Text)
    → IsSettled mime wanted
    → IsSettled mime (want_all wanted xs)
unfolding want_all
want_all-keeps mime wanted [] h = h
want_all-keeps mime wanted (x ∷ xs) h =
    want_all-keeps mime (want wanted x) xs (want-keeps x mime wanted h)

want_all-settles :
    (mime : Text) (wanted xs : List Text)
    → is_interesting mime ≡ true
    → has_like mime xs ≡ true
    → IsSettled mime (want_all wanted xs)
unfolding want_all
want_all-settles mime wanted [] i h = cc
want_all-settles mime wanted (x ∷ xs) i h = elim (Bool-cases (same x mime)) [
  | inl e ↦ want_all-keeps mime (want wanted x) xs (want-new x mime wanted i e)
  | inr e ↦ want_all-settles mime (want wanted x) xs i (ground arith)
]

has_like-drop :
    (mime : Text) (n : ℕ) (xs : List Text)
    → has_like mime (drop n xs) ≡ true
    → has_like mime xs ≡ true
has_like-drop mime zero xs h = h
has_like-drop mime (suc n) [] h = h
has_like-drop mime (suc n) (x ∷ xs) h = ground (arith, has_like-drop mime n xs h)

want-push_mime :
    (mime : Text) (a : AdvertisedMimes)
    → want_all [] (push_mime mime a).mimes ≡ want (want_all [] a.mimes) mime
unfolding push_mime
want-push_mime mime a = elim (Bool-cases (ltb (length a.mimes) max_advertised_mimes)) [
  | inl e ↦ rw e (want_all-append [] a.mimes mime)
  | inr e ↦ elim (Bool-cases (is_interesting mime)) [
    | inr dull ↦ rw (e, dull) (sym (want-dull mime (want_all [] a.mimes) dull))
    | inl i ↦ elim (Bool-cases (has_like mime (drop max_advertised_mimes a.mimes))) [
      | inl seen ↦
          rw (e, i, seen)
            (sym (
              want-settled mime (want_all [] a.mimes) (
                want_all-settles mime [] a.mimes i
                  (has_like-drop mime max_advertised_mimes a.mimes seen))))
      | inr new ↦ rw (e, i, new) (want_all-append [] a.mimes mime)
    ]
  ]
]

want_all-push_all :
    (mimes : List Text) (a : AdvertisedMimes)
    → want_all [] (push_all mimes a).mimes ≡ want_all (want_all [] a.mimes) mimes
unfolding push_all want_all
want_all-push_all [] a = refl
want_all-push_all (mime ∷ mimes) a =
    want_all-push_all mimes (push_mime mime a)
    ∙ ap (λ (wanted : List Text). want_all wanted mimes) (want-push_mime mime a)

-- However many types an offer advertises, the flavors clippo reads of those it records are the ones it
-- would read of all of them, in the same order: the ceiling costs none.
pub interesting_flavors-push_all :
    (mimes : List Text)
    → interesting_flavors (push_all mimes no_mimes).mimes ≡ interesting_flavors mimes
unfolding interesting_flavors want_all
interesting_flavors-push_all mimes = want_all-push_all mimes no_mimes
