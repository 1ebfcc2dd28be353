-- ===== src/Cli/Run/Asked.antt =====
-- run.rs: nothing is cleared unasked, and nothing is deleted after an error.
use clippo.Prelude.{
  ℕ, ap, sym, ◌∙◌, any, subst, append_assoc, ==_iff, not, ◌==◌, Bool-cases, inl, inr, ◌⊎◌, ◌+◌, ◌≡◌,
  refl, Bool, true, false, List, [], ◌∷◌, ◌++◌, Option, none, some, Result, ok, err, if◌then◌else◌,
  filter, length, All, arith,
}
use clippo.Prelude.Int.{ℤ}
use clippo.Prelude.Text.{Text, codes, decimal}
use clippo.Daemon.Cache.{EntrySummary}
use clippo.Cli.Run.{
  ClearCall, asked, clear_history, after_asking, prompt, count, noted, remove_all, affirmative,
  is_pinned, doomed, nothing_to_clear, needs_confirmation, aborted, ClearAnswers, call, by_line,
  by_list, clear,
}

-- the entries that a clearing takes
abbrev pub taken : Bool → List EntrySummary → List EntrySummary
taken include_pinned entries =
    if include_pinned then entries else filter (λ (e : EntrySummary). not e.pinned) entries

length-pinned :
    (entries : List EntrySummary)
    → length entries
      ≡ length (filter is_pinned entries)
        + length (filter (λ (e : EntrySummary). not e.pinned) entries)
length-pinned [] = omega arith
length-pinned (e ∷ entries) = ground (arith, length-pinned entries)

doomed_lem : (b : Bool) (entries : List EntrySummary) → doomed b entries ≡ length (taken b entries)
unfolding doomed
doomed_lem true entries = refl
doomed_lem false entries = ground (arith, length-pinned entries)

-- the question names this many entries
abbrev pub Names : ℕ → Text → Type 0
Names n question =
    (rest : Text) × (question ≡ codes "clippo: delete " ++ (decimal n ++ (codes " entr" ++ rest)))

count-named : (n : ℕ) → (rest : Text) × (count n ≡ decimal n ++ (codes " entr" ++ rest))
unfolding decimal
count-named n = elim (Bool-cases (n == 1)) [
  | inl e ↦ rw e (
    codes "y",
    ap (λ (k : ℕ). decimal k ++ (codes " entr" ++ codes "y")) (sym ((==_iff n 1).0 e)),
  )
  | inr e ↦ rw e (codes "ies", refl)
]

Names-what :
    (n : ℕ) (what more : Text) → what ≡ codes "clippo: delete " ++ count n → Names n (what ++ more)
Names-what n what more h =
    let (rest, e) = count-named n in
    (
      rest ++ more,
      ap (λ (t : Text). t ++ more) (h ∙ ap (λ (t : Text). codes "clippo: delete " ++ t) e)
          ∙ append_assoc (codes "clippo: delete ") (decimal n ++ (codes " entr" ++ rest)) more
          ∙ ap (λ (t : Text). codes "clippo: delete " ++ t)
              (append_assoc (decimal n) (codes " entr" ++ rest) more),
    )

prompt-Names : (n pinned : ℕ) (include_pinned : Bool) → Names n (prompt n pinned include_pinned)
unfolding prompt
prompt-Names n pinned include_pinned = go (pinned == 0) include_pinned
  where
    what : Text
    what = codes "clippo: delete " ++ count n

    go :
        (none_pinned included : Bool)
        → Names n (
            if none_pinned
            then what ++ codes "? [y/N] "
            else if included
            then what ++ (codes ", including " ++ (decimal pinned ++ codes " pinned? [y/N] "))
            else what ++ (codes ", keeping " ++ (decimal pinned ++ codes " pinned? [y/N] ")))
    go true included = Names-what n what (codes "? [y/N] ") refl
    go false true =
        Names-what n what (codes ", including " ++ (decimal pinned ++ codes " pinned? [y/N] ")) refl
    go false false =
        Names-what n what (codes ", keeping " ++ (decimal pinned ++ codes " pinned? [y/N] ")) refl

abbrev pub is_clearing : ClearCall → Bool
is_clearing (asked question) = false
is_clearing (clear_history include_pinned) = true

-- the client is told to clear, and nothing else is done
abbrev pub Clears : Bool → List ClearCall → Type 0
Clears include_pinned calls = calls ≡ clear_history include_pinned ∷ []

module _ {ℓ} {E : Type ℓ} where
  -- somebody was asked, with the number of entries that are taken, and said yes
  abbrev pub WasAsked : Bool → ClearAnswers E → List ClearCall → Type ℓ
  WasAsked include_pinned a calls =
      (a.is_terminal ≡ true)
      × ((entries : List EntrySummary) × (a.entries ≡ ok entries)
          × ((length (taken include_pinned entries) == 0) ≡ false)
          × ((question : Text) × Names (length (taken include_pinned entries)) question
              × (calls ≡ asked question ∷ clear_history include_pinned ∷ [])))
      × ((answer : Text) × (a.line ≡ ok answer) × (affirmative answer ≡ true))

  call-Clears :
      (include_pinned : Bool) (error : Option E)
      → Clears include_pinned (call include_pinned error).0
  call-Clears include_pinned none = refl
  call-Clears include_pinned (some e) = refl

  by_line-asked :
      (include_pinned : Bool) (a : ClearAnswers E) (r : Result Text E)
      → any is_clearing (by_line include_pinned r a).0 ≡ true
      → ((answer : Text) × (r ≡ ok answer) × (affirmative answer ≡ true))
        × Clears include_pinned (by_line include_pinned r a).0
  by_line-asked include_pinned a (err e) h = cc
  by_line-asked include_pinned a (ok answer) h =
      let (yes_said, calls) = go (affirmative answer) h in ((answer, refl, yes_said), calls)
    where
      go :
          (b : Bool)
          → any is_clearing (if b then call include_pinned a.error else ([], aborted)).0 ≡ true
          → (b ≡ true)
            × Clears include_pinned (if b then call include_pinned a.error else ([], aborted)).0
      go true q = (refl, call-Clears include_pinned a.error)
      go false q = cc

  by_list-asked :
      (include_pinned : Bool) (a : ClearAnswers E) (r : Result (List EntrySummary) E)
      → a.entries ≡ r
      → a.is_terminal ≡ true
      → any is_clearing (by_list include_pinned r a).0 ≡ true
      → WasAsked include_pinned a (by_list include_pinned r a).0
  by_list-asked include_pinned a (err e) at t h = cc
  by_list-asked include_pinned a (ok entries) at t h =
      go (doomed include_pinned entries == 0) refl h
    where
      question : Text
      question =
          prompt (doomed include_pinned entries) (length (filter is_pinned entries)) include_pinned

      named : Names (length (taken include_pinned entries)) question
      named =
          subst (λ (n : ℕ). Names n question) (doomed_lem include_pinned entries)
            (prompt-Names (doomed include_pinned entries) (length (filter is_pinned entries))
              include_pinned)

      go :
          (b : Bool)
          → (doomed include_pinned entries == 0) ≡ b
          → any is_clearing
              (if b
                then ([], nothing_to_clear)
                else after_asking question (by_line include_pinned a.line a)).0
            ≡ true
          → WasAsked include_pinned a
              (if b
                then ([], nothing_to_clear)
                else after_asking question (by_line include_pinned a.line a)).0
      go true e q = cc
      go false e q =
          let (answer, calls) = by_line-asked include_pinned a a.line q in
          let some_taken = ap (λ (n : ℕ). n == 0) (sym (doomed_lem include_pinned entries)) ∙ e in
          (
            t,
            (
              entries,
              at,
              some_taken,
              (question, named, ap (λ (l : List ClearCall). asked question ∷ l) calls),
            ),
            answer,
          )

  -- The daemon is told to clear only where that was confirmed on the command line, and then with nothing
  -- asked; or where somebody at a terminal said yes to a question, after a list was read, in which the
  -- number is that of the entries of the list that a clearing takes, pinned ones only if they are
  -- included, and is not zero. It is told once, to take pinned entries exactly if they are included.
  pub clear-asked :
      (yes_given include_pinned : Bool) (a : ClearAnswers E)
      → any is_clearing (clear yes_given include_pinned a).0 ≡ true
      → ((yes_given ≡ true) × Clears include_pinned (clear yes_given include_pinned a).0)
        ⊎ WasAsked include_pinned a (clear yes_given include_pinned a).0
  unfolding clear
  clear-asked true include_pinned a h = inl (refl, call-Clears include_pinned a.error)
  clear-asked false include_pinned a h = inr (go a.is_terminal refl h)
    where
      go :
          (b : Bool)
          → a.is_terminal ≡ b
          → any is_clearing
              (if not b then ([], needs_confirmation) else by_list include_pinned a.entries a).0
            ≡ true
          → WasAsked include_pinned a
              (if not b then ([], needs_confirmation) else by_list include_pinned a.entries a).0
      go true e q = by_list-asked include_pinned a a.entries refl e q
      go false e q = cc

module _ {ℓ} {E : Type ℓ} (delete : ℤ → Option E) where
  -- what was deleted is all that was asked for, or what stands before the first that fails, with its error
  abbrev pub IsUpTo : List ℤ → List ℤ × Option E → Type ℓ
  IsUpTo ids (deleted, none) = (ids ≡ deleted) × All (λ (id : ℤ). delete id ≡ none) deleted
  IsUpTo ids (deleted, some e) =
      ((id : ℤ) × (rest : List ℤ) × (ids ≡ deleted ++ id ∷ rest) × (delete id ≡ some e))
      × All (λ (id : ℤ). delete id ≡ none) deleted

  noted-IsUpTo :
      (id : ℤ) (ids : List ℤ) (r : List ℤ × Option E)
      → delete id ≡ none
      → IsUpTo ids r
      → IsUpTo (id ∷ ids) (noted delete id r)
  noted-IsUpTo id ids (deleted, none) d (e, h) = (ap (λ (l : List ℤ). id ∷ l) e, (d, h))
  noted-IsUpTo id ids (deleted, some x) d ((bad, rest, e, f), h) =
      ((bad, rest, ap (λ (l : List ℤ). id ∷ l) e, f), (d, h))

  -- Entries are deleted in the order they are named, up to the first that fails, and none after it: what is
  -- answered is exactly those before it, with its error, or all of them with none.
  pub remove_all-IsUpTo : (ids : List ℤ) → IsUpTo ids (remove_all delete ids)
  unfolding remove_all
  remove_all-IsUpTo [] = (refl, tt)
  remove_all-IsUpTo (id ∷ ids) = go (delete id) refl (remove_all-IsUpTo ids)
    where
      go :
          (o : Option E)
          → delete id ≡ o
          → IsUpTo ids (remove_all delete ids)
          → IsUpTo
              (id ∷ ids)
              (elim o [ none ↦ noted delete id (remove_all delete ids) | some e ↦ ([], some e) ])
      go none d h = noted-IsUpTo id ids (remove_all delete ids) d h
      go (some e) d h = ((id, ids, refl, d), tt)
