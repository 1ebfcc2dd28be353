-- ===== src/Cli/Ids/Distinct.antt =====
-- ids.rs: a list of ids names each entry once.
use clippo.Prelude.{
  ◌≡◌, refl, Bool, true, false, not, ◌&&◌, ◌||◌, List, [], ◌∷◌, ◌++◌, Result, ok, err, any, arith,
  Bool-cases, inl, inr, any-append, ◌∙◌,
}
use clippo.Prelude.Int.{ℤ, eqb_ℤ}
use clippo.Prelude.Text.{Text}
use clippo.Daemon.Cache.{EntrySummary}
use clippo.Cli.Ids.{ResolveError, resolve, resolve_next, resolve_from, resolve_all}

abbrev no_repeats : List ℤ → Bool
no_repeats [] = true
no_repeats (id ∷ ids) = not (any (eqb_ℤ id) ids) && no_repeats ids

-- a result that is one names no id twice
abbrev pub NamesOnce : Result (List ℤ) ResolveError → Type 0
NamesOnce (ok ids) = no_repeats ids ≡ true
NamesOnce (err e) = Unit

eqb_ℤ_comm : (a b : ℤ) → eqb_ℤ a b ≡ eqb_ℤ b a
eqb_ℤ_comm a b = ground arith

no_repeats-append :
    (ids : List ℤ) (id : ℤ)
    → any (eqb_ℤ id) ids ≡ false
    → no_repeats ids ≡ true
    → no_repeats (ids ++ id ∷ []) ≡ true
no_repeats-append [] id h q = refl
no_repeats-append (j ∷ ids) id h q =
    let (other, free) = neither (eqb_ℤ id j) h in
    let (once, rest) = parts (any (eqb_ℤ j) ids) q in
    rw (any-append (eqb_ℤ j) ids (id ∷ []))
      (joined once (eqb_ℤ_comm j id ∙ other) (no_repeats-append ids id free rest))
  where
    neither : (a : Bool) {b : Bool} → (a || b) ≡ false → (a ≡ false) × (b ≡ false)
    neither a h = ground arith

    parts : (a : Bool) {b : Bool} → (not a && b) ≡ true → (a ≡ false) × (b ≡ true)
    parts a h = ground arith

    joined :
        {a b c : Bool} → a ≡ false → b ≡ false → c ≡ true → (not (a || (b || false)) && c) ≡ true
    joined p q r = ground arith

next-NamesOnce :
    (rest : List ℤ → Result (List ℤ) ResolveError) (ids : List ℤ) (r : Result ℤ ResolveError)
    → ((found : List ℤ) → no_repeats found ≡ true → NamesOnce (rest found))
    → no_repeats ids ≡ true
    → NamesOnce (resolve_next rest ids r)
next-NamesOnce rest ids (err e) k h = tt
next-NamesOnce rest ids (ok id) k h = elim (Bool-cases (any (eqb_ℤ id) ids)) [
  | inl seen ↦ rw seen (k ids h)
  | inr new ↦ rw new (k (ids ++ id ∷ []) (no_repeats-append ids id new h))
]

resolve_from-NamesOnce :
    (typed : List Text) (ids : List ℤ) (entries : List EntrySummary)
    → no_repeats ids ≡ true
    → NamesOnce (resolve_from ids typed entries)
unfolding resolve_from
resolve_from-NamesOnce [] ids entries h = h
resolve_from-NamesOnce (t ∷ typed) ids entries h =
    next-NamesOnce (λ found. resolve_from found typed entries) ids (resolve t entries)
      (λ found q. resolve_from-NamesOnce typed found entries q) h

-- If every id that was typed is found, the list of what they mean names no entry twice.
resolve_all-NamesOnce :
    (typed : List Text) (entries : List EntrySummary) → NamesOnce (resolve_all typed entries)
unfolding resolve_all
resolve_all-NamesOnce typed entries = resolve_from-NamesOnce typed [] entries refl
