-- ===== src/Cli/Ids/Resolved.antt =====
-- ids.rs: an id is found only where it is meant without doubt.
use clippo.Prelude.{
  ◌≡◌, refl, ◌⊎◌, inl, inr, false, List, [], ◌∷◌, none, some, Result, ok, err, find?, filter,
  Bool-cases, Option-cases,
}
use clippo.Prelude.Int.{ℤ}
use clippo.Prelude.Text.{Text}
use clippo.Daemon.Cache.{EntrySummary}
use clippo.Cli.Ids.{
  ResolveError, not_an_id, no_such_entry, ambiguous, is_number, is_exactly, begins_with, pick,
  resolve,
}

-- what `resolve` promises of its answer: the id typed in full, or the only one that begins so
abbrev pub Means : Text → List EntrySummary → Result ℤ ResolveError → Type 0
Means typed entries (ok id) =
    ((e : EntrySummary) × (find? (is_exactly typed) entries ≡ some e) × (e.id ≡ id))
    ⊎ ((e : EntrySummary) × (find? (is_exactly typed) entries ≡ none)
        × (filter (begins_with typed) entries ≡ e ∷ [])
        × (e.id ≡ id))
Means typed entries (err (not_an_id t)) = is_number typed ≡ false
Means typed entries (err (no_such_entry t empty)) = filter (begins_with typed) entries ≡ []
Means typed entries (err (ambiguous t candidates)) =
    (e f : EntrySummary) × (rest : List EntrySummary) × (find? (is_exactly typed) entries ≡ none)
    × (filter (begins_with typed) entries ≡ e ∷ f ∷ rest)

pick-Means :
    (typed : Text) (entries found : List EntrySummary)
    → find? (is_exactly typed) entries ≡ none
    → filter (begins_with typed) entries ≡ found
    → Means typed entries (pick typed entries found)
unfolding pick
pick-Means typed entries [] h q = q
pick-Means typed entries (e ∷ []) h q = inr (e, h, q, refl)
pick-Means typed entries (e ∷ f ∷ rest) h q = (e, f, rest, h, q)

-- An id that is found is the one typed in full, or else the only one in the list that begins with what
-- was typed. What is refused is no number, begins no id of the list, or begins at least two
-- and is itself none.
pub resolve-Means :
    (typed : Text) (entries : List EntrySummary) → Means typed entries (resolve typed entries)
unfolding resolve
resolve-Means typed entries = elim (Bool-cases (is_number typed)) [
  | inr e ↦ rw e e
  | inl e ↦ rw e (elim (Option-cases (find? (is_exactly typed) entries)) [
    | inl h ↦ rw h (pick-Means typed entries (filter (begins_with typed) entries) h refl)
    | inr (x, h) ↦ rw h (inl (x, h, refl))
  ])
]
