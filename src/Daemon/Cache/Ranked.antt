-- ===== src/Daemon/Cache/Ranked.antt =====
-- cache.rs: the order of what a search finds.
use clippo.Prelude.{
  ℕ, ◌≡◌, refl, ap, ◌∙◌, Bool, true, false, not, ◌&&◌, List, [], ◌∷◌, ltb, ◌==◌, if◌then◌else◌,
  filter, arith, Bool-cases, inl, inr,
}
use clippo.Daemon.Cache.{EntrySummary, insert_scored, best_first}

abbrev pub has_score : ℕ → ℕ × EntrySummary → Bool
has_score n (m, e) = m == n

abbrev first_below : ℕ → List (ℕ × EntrySummary) → Bool
first_below n [] = true
first_below n ((m, e) ∷ rest) = not (ltb n m)

-- no score is followed by a greater one
abbrev pub is_best_first : List (ℕ × EntrySummary) → Bool
is_best_first [] = true
is_best_first ((n, e) ∷ rest) = first_below n rest && is_best_first rest

first_below-insert_scored :
    (k n : ℕ) (e : EntrySummary) (rest : List (ℕ × EntrySummary))
    → ltb k n ≡ false
    → first_below k rest ≡ true
    → first_below k (insert_scored (n, e) rest) ≡ true
unfolding insert_scored
first_below-insert_scored k n e [] h q = ground arith
first_below-insert_scored k n e ((m, f) ∷ rest) h q = ground arith

is_best_first-insert_scored :
    (n : ℕ) (e : EntrySummary) (rest : List (ℕ × EntrySummary))
    → is_best_first rest ≡ true
    → is_best_first (insert_scored (n, e) rest) ≡ true
unfolding insert_scored
is_best_first-insert_scored n e [] h = refl
is_best_first-insert_scored n e ((m, f) ∷ rest) h = elim (Bool-cases (ltb n m)) [
  | inl worse ↦
      let (below, sorted) = parts (first_below m rest) h in
      rw worse (
        both (first_below-insert_scored m n e rest (not_greater worse) below)
          (is_best_first-insert_scored n e rest sorted))
  | inr better ↦ rw better (rw better h)
]
  where
    parts : (a : Bool) {b : Bool} → (a && b) ≡ true → (a ≡ true) × (b ≡ true)
    parts a h = ground arith

    both : {a b : Bool} → a ≡ true → b ≡ true → (a && b) ≡ true
    both p q = ground arith

    not_greater : ltb n m ≡ true → ltb m n ≡ false
    not_greater p = ground arith

filter-insert_scored :
    (k n : ℕ) (e : EntrySummary) (rest : List (ℕ × EntrySummary))
    → filter (has_score k) (insert_scored (n, e) rest) ≡ filter (has_score k) ((n, e) ∷ rest)
unfolding insert_scored
filter-insert_scored k n e [] = refl
filter-insert_scored k n e ((m, f) ∷ rest) = ground (arith, filter-insert_scored k n e rest)

-- What a search ranks comes best score first, and the entries of each score are the ones found with
-- it, each as often as it was found and in the order of the cache.
pub best_first_lem :
    (scores : List (ℕ × EntrySummary)) (k : ℕ)
    → (is_best_first (best_first scores) ≡ true)
      × (filter (has_score k) (best_first scores) ≡ filter (has_score k) scores)
unfolding best_first
best_first_lem [] k = (refl, refl)
best_first_lem ((n, e) ∷ rest) k =
    let (sorted, same) = best_first_lem rest k in
    (
      is_best_first-insert_scored n e (best_first rest) sorted,
      filter-insert_scored k n e (best_first rest)
          ∙ ap (λ (r : List (ℕ × EntrySummary)). if n == k then (n, e) ∷ r else r) same,
    )
