-- ===== src/Applet/Model/Selected.antt =====
-- model.rs: the selection is always an entry that is shown.
use clippo.Prelude.{
  ℕ, zero, suc, ◌-◌, ◌<◌, ◌≡◌, refl, sym, Bool, true, not, ◌&&◌, List, [], ◌∷◌, Option, none, some,
  if◌then◌else◌, any, length, get_elem?, min, arith, Bool-cases, inl, inr, subst,
}
use clippo.Prelude.Int.{ℤ, pos, negsuc, pos_part, ◌+ℤ◌, eqb_ℤ, eqb_ℤ_iff}
use clippo.Prelude.Text.{Text, is_empty, text_eq}
use clippo.Daemon.Cache.{EntrySummary}
use clippo.Applet.Model.{
  Status, is_connected, Model, set_status, set_query, with_id, selected_index, id_at, is_among,
  or_zero, set_entries, select, step, select_previous, select_next, Change, status_is, query_is,
  restarted, previous, next, forgotten, entries_are, select_it, revealed_is, apply, apply_all,
}

-- an entry that is shown is selected, or none is shown and none selected
abbrev pub IsChosen : Option ℤ → List EntrySummary → Type 0
IsChosen none entries = is_empty entries ≡ true
IsChosen (some id) entries = any (with_id id) entries ≡ true

abbrev pub IsSelected : Model → Type 0
IsSelected m = IsChosen m.selected m.entries

eqb_ℤ-refl : (i : ℤ) → eqb_ℤ i i ≡ true
eqb_ℤ-refl i = (eqb_ℤ_iff i i).1 refl

some_inj : (e f : EntrySummary) → some e ≡ some f → e ≡ f
some_inj e f h = cc

is_among-at :
    (entries : List EntrySummary) (i : ℕ) (e : EntrySummary)
    → get_elem? entries i ≡ some e
    → any (with_id e.id) entries ≡ true
is_among-at [] i e h = cc
is_among-at (f ∷ es) zero e h =
    subst (λ (g : EntrySummary). any (with_id g.id) (f ∷ es) ≡ true) (some_inj f e h)
      (rw (eqb_ℤ-refl f.id) refl)
is_among-at (f ∷ es) (suc i) e h = ground (arith, is_among-at es i e h)

get_elem?-below :
    (entries : List EntrySummary) (i : ℕ)
    → i < length entries
    → (e : EntrySummary) × (get_elem? entries i ≡ some e)
get_elem?-below [] i h = absurd (omega arith)
get_elem?-below (f ∷ es) zero h = (f, refl)
get_elem?-below (f ∷ es) (suc i) h = get_elem?-below es i (omega arith)

id_at-found :
    (entries : List EntrySummary) (i : ℕ) (e : EntrySummary)
    → get_elem? entries i ≡ some e
    → is_among (id_at entries i) entries ≡ true
id_at-found entries i e h =
    subst
      (λ (o : Option EntrySummary).
        is_among (elim o [ none ↦ none | some f ↦ some f.id ]) entries ≡ true)
      (sym h) (is_among-at entries i e h)

IsChosen-is_among :
    (o : Option ℤ) (entries : List EntrySummary) → is_among o entries ≡ true → IsChosen o entries
IsChosen-is_among none entries h = cc
IsChosen-is_among (some id) entries h = h

-- an entry at a place that is clamped is among the entries
IsChosen-id_at :
    (entries : List EntrySummary) (i : ℕ)
    → IsChosen (id_at entries (min i (length entries - 1))) entries
IsChosen-id_at [] i = refl
IsChosen-id_at (f ∷ es) i =
    let (e, h) = get_elem?-below (f ∷ es) (min i (length (f ∷ es) - 1)) (ground arith) in
    IsChosen-is_among (id_at (f ∷ es) (min i (length (f ∷ es) - 1))) (f ∷ es)
      (id_at-found (f ∷ es) (min i (length (f ∷ es) - 1)) e h)

IsChosen-first : (entries : List EntrySummary) → IsChosen (id_at entries 0) entries
IsChosen-first [] = refl
IsChosen-first (e ∷ es) = rw (eqb_ℤ-refl e.id) refl

-- where the selection lands in a new list
IsChosen-landing :
    (m : Model) (entries : List EntrySummary)
    → IsChosen
        (id_at entries
          (if m.land_at_top then 0 else min (or_zero (selected_index m)) (length entries - 1)))
        entries
unfolding selected_index
IsChosen-landing m entries = elim (Bool-cases m.land_at_top) [
  | inl e ↦ rw e (IsChosen-first entries)
  | inr e ↦ rw e (IsChosen-id_at entries (or_zero (selected_index m)))
]

pub set_entries-IsSelected :
    (entries : List EntrySummary) (m : Model) → IsSelected (set_entries entries m).1
unfolding set_entries
set_entries-IsSelected entries m =
    elim (Bool-cases (not m.land_at_top && is_among m.selected entries)) [
      | inl e ↦ rw e (IsChosen-is_among m.selected entries (second (not m.land_at_top) e))
      | inr e ↦ rw e (IsChosen-landing m entries)
    ]
  where
    second : (a : Bool) {b : Bool} → (a && b) ≡ true → b ≡ true
    second a h = ground arith

pub step-IsSelected : (delta : ℤ) (m : Model) → IsSelected (step delta m)
unfolding step
step-IsSelected delta m = elim (Bool-cases (is_empty m.entries)) [
  | inl e ↦ rw e (rw e refl)
  | inr e ↦ rw e (IsChosen-id_at m.entries (pos_part (pos (or_zero (selected_index m)) +ℤ delta)))
]

pub select-IsSelected : (id : ℤ) (m : Model) → IsSelected m → IsSelected (select id m)
unfolding select
select-IsSelected id m h = elim (Bool-cases (any (with_id id) m.entries)) [
  | inl e ↦ rw e e
  | inr e ↦ rw e h
]

pub set_status-IsSelected :
    (status : Status) (m : Model) → IsSelected m → IsSelected (set_status status m)
unfolding set_status
set_status-IsSelected status m h = elim (Bool-cases (is_connected status)) [
  | inl e ↦ rw e h
  | inr e ↦ rw e refl
]

pub set_query-IsSelected :
    (query : Text) (m : Model) → IsSelected m → IsSelected (set_query query m)
unfolding set_query
set_query-IsSelected query m h = elim (Bool-cases (text_eq query m.query)) [
  | inl e ↦ rw e h
  | inr e ↦ rw e h
]

apply-IsSelected : (c : Change) (m : Model) → IsSelected m → IsSelected (apply c m)
unfolding apply select_previous select_next
apply-IsSelected (status_is status) m h = set_status-IsSelected status m h
apply-IsSelected (query_is query) m h = set_query-IsSelected query m h
apply-IsSelected restarted m h = h
apply-IsSelected previous m h = step-IsSelected (negsuc 0) m
apply-IsSelected next m h = step-IsSelected (pos 1) m
apply-IsSelected forgotten m h = h
apply-IsSelected (entries_are entries) m h = set_entries-IsSelected entries m
apply-IsSelected (select_it id) m h = select-IsSelected id m h
apply-IsSelected (revealed_is id value) m h = h

-- If an entry that is shown is selected, or none is shown and none selected, this is so after any
-- sequence of changes to the model: lists that arrive, queries, steps and choices.
pub apply_all-IsSelected :
    (cs : List Change) (m : Model) → IsSelected m → IsSelected (apply_all cs m)
unfolding apply_all
apply_all-IsSelected [] m h = h
apply_all-IsSelected (c ∷ cs) m h = apply_all-IsSelected cs (apply c m) (apply-IsSelected c m h)
