-- ===== src/Wayland/Offer/Served.antt =====
-- offer.rs: what a client that asks for a type is given.
use mathlib.Core.Option
use clippo.Prelude.{
  ◌≡◌, refl, sym, ap, ◌∙◌, Bool, true, false, not, ◌&&◌, ◌||◌, List, [], ◌∷◌, ◌++◌, Option, none,
  some, any, find?, arith, Bool-cases, inl, inr,
}
use clippo.Prelude.Text.{Text, is_empty, trim, text_eq, eq_of_text_eq, lower, squeeze}
use clippo.Core.Entry.{Flavor}
use clippo.Wayland.Mime.{same}
use clippo.Wayland.Offer.{offered_from, offered_flavors, blob_for}

pub same_trans : (a b c : Text) → same a b ≡ true → same a c ≡ same b c
unfolding same
same_trans a b c h =
    ap (λ (t : Text). text_eq t (lower (squeeze c)))
      (eq_of_text_eq (lower (squeeze a)) (lower (squeeze b)) h)

-- the first flavor of the type that has a MIME type at all
abbrev pub first_offer : Text → List Flavor → Option Flavor
first_offer wanted flavors = find? (λ f. not (is_empty (trim f.mime)) && same f.mime wanted) flavors

abbrev or_else : Option Flavor → Option Flavor → Option Flavor
or_else none o = o
or_else (some f) o = some f

find?-append :
    (p : Flavor → Bool) (xs ys : List Flavor)
    → find? p (xs ++ ys) ≡ or_else (find? p xs) (find? p ys)
find?-append p [] ys = refl
find?-append p (x ∷ xs) ys = elim (Bool-cases (p x)) [
  | inl e ↦ rw e refl
  | inr e ↦ rw e (find?-append p xs ys)
]

found_same :
    (wanted : Text) (f : Flavor) (offered : List Flavor)
    → any (λ already. same already.mime f.mime) offered ≡ true
    → same f.mime wanted ≡ true
    → (g : Flavor) × (find? (λ f. same f.mime wanted) offered ≡ some g)
found_same wanted f [] h q = cc
found_same wanted f (g ∷ gs) h q = elim (Bool-cases (same g.mime wanted)) [
  | inl e ↦ (g, rw e refl)
  | inr e ↦ elim (Bool-cases (same g.mime f.mime)) [
    | inl k ↦ absurd (ground (arith, same_trans g.mime f.mime wanted k))
    | inr k ↦ let (x, r) = found_same wanted f gs (ground arith) q in (x, rw e r)
  ]
]

or_else-none : (o : Option Flavor) → or_else o none ≡ o
or_else-none none = refl
or_else-none (some f) = refl

or_else_assoc : (a b c : Option Flavor) → or_else (or_else a b) c ≡ or_else a (or_else b c)
or_else_assoc none b c = refl
or_else_assoc (some f) b c = refl

abbrev found : Text → List Flavor → Option Flavor
found wanted offered = find? (λ f. same f.mime wanted) offered

-- a flavor that is passed over, since its type is offered, changes no answer
passed_over :
    (wanted : Text) (f : Flavor) (fs offered : List Flavor)
    → any (λ already. same already.mime f.mime) offered ≡ true
    → or_else (found wanted offered) (first_offer wanted fs)
      ≡ or_else (found wanted offered) (first_offer wanted (f ∷ fs))
passed_over wanted f fs offered h = elim (Bool-cases (same f.mime wanted)) [
  | inl q ↦ let (g, r) = found_same wanted f offered h q in rw r refl
  | inr q ↦ elim (Bool-cases (is_empty (trim f.mime))) [
    | inl e ↦ rw e refl
    | inr e ↦ rw (e, q) refl
  ]
]

-- one that is offered is asked after those before it
offered_last :
    (wanted : Text) (f : Flavor) (fs offered : List Flavor)
    → is_empty (trim f.mime) ≡ false
    → or_else (found wanted (offered ++ f ∷ [])) (first_offer wanted fs)
      ≡ or_else (found wanted offered) (first_offer wanted (f ∷ fs))
offered_last wanted f fs offered h =
    ap (λ (o : Option Flavor). or_else o (first_offer wanted fs))
      (find?-append (λ g. same g.mime wanted) offered (f ∷ []))
    ∙ or_else_assoc (found wanted offered) (found wanted (f ∷ [])) (first_offer wanted fs)
    ∙ ap (λ (o : Option Flavor). or_else (found wanted offered) o) front
  where
    front : or_else (found wanted (f ∷ [])) (first_offer wanted fs) ≡ first_offer wanted (f ∷ fs)
    front = elim (Bool-cases (same f.mime wanted)) [
      | inl q ↦ rw (h, q) refl
      | inr q ↦ rw (h, q) refl
    ]

or_right : (a : Bool) {b : Bool} → b ≡ true → (a || b) ≡ true
or_right a h = ground arith

both_false : {a b : Bool} → a ≡ false → b ≡ false → (a || b) ≡ false
both_false h k = ground arith

found-offered_from :
    (wanted : Text) (fs offered : List Flavor)
    → found wanted (offered_from offered fs)
      ≡ or_else (found wanted offered) (first_offer wanted fs)
unfolding offered_from
found-offered_from wanted [] offered = sym (or_else-none (found wanted offered))
found-offered_from wanted (f ∷ fs) offered = elim (Bool-cases (is_empty (trim f.mime))) [
  | inl blank ↦ rw blank (found-offered_from wanted fs offered)
  | inr e ↦ elim (Bool-cases (any (λ already. same already.mime f.mime) offered)) [
    | inl taken ↦
        rw (or_right (is_empty (trim f.mime)) taken)
          (found-offered_from wanted fs offered ∙ passed_over wanted f fs offered taken)
    | inr free ↦
        rw (both_false e free)
          (found-offered_from wanted fs (offered ++ f ∷ []) ∙ offered_last wanted f fs offered e)
  ]
]

-- Whoever asks for a type is given the bytes of the first stored flavor of that type that has a MIME
-- type at all, and nothing exactly if there is none: passing over repeated types loses none.
pub blob_for-offered_flavors :
    (flavors : List Flavor) (wanted : Text)
    → blob_for (offered_flavors flavors) wanted
      ≡ Option.map (λ (f : Flavor). f.content) (first_offer wanted flavors)
unfolding blob_for offered_flavors
blob_for-offered_flavors flavors wanted =
    ap (Option.map (λ (f : Flavor). f.content)) (found-offered_from wanted flavors [])
