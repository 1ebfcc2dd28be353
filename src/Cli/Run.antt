-- ===== src/Cli/Run.antt =====
-- crates/clippo-cli/src/run.rs: removing and clearing.
pub mod Asked
use clippo.Prelude.{
  ℕ, zero, suc, ◌-◌, Bool, true, false, not, ◌||◌, List, [], ◌∷◌, ◌++◌, Option, none, some, Result,
  ok, err, if◌then◌else◌, ◌==◌, filter, length, map,
}
use clippo.Prelude.Int.{ℤ}
use clippo.Prelude.Text.{Text, codes, text_eq, lower, trim, join, decimal, decimal_ℤ}
use clippo.Daemon.Cache.{EntrySummary}

abbrev commas : List Text → Text
commas [] = []
commas (t ∷ []) = t
commas (t ∷ u ∷ ts) = t ++ (codes ", " ++ commas (u ∷ ts))

unfoldable deleted_message : List ℤ → Text
deleted_message (id ∷ []) = codes "deleted entry " ++ decimal_ℤ id
deleted_message ids = codes "deleted entries " ++ commas (map decimal_ℤ ids)

-- The loop of `clippo rm`, by the error that deleting an entry gets: what was deleted, and the error that
-- ended it. `E` is the type of the client's errors.
module _ {ℓ} {E : Type ℓ} (delete : ℤ → Option E) where
  abbrev pub noted : ℤ → List ℤ × Option E → List ℤ × Option E
  noted id (ids, e) = (id ∷ ids, e)

  unfoldable pub remove_all : List ℤ → List ℤ × Option E
  remove_all [] = ([], none)
  remove_all (id ∷ ids) =
      let rest = remove_all ids in elim (delete id) [ none ↦ noted id rest | some e ↦ ([], some e) ]

  -- what is said of it: nothing where nothing was deleted before an error
  unfoldable remove_note : List ℤ × Option E → Option Text
  remove_note ([], some e) = none
  remove_note (ids, e) = some (deleted_message ids)

unfoldable pub affirmative : Text → Bool
affirmative answer =
    text_eq (lower (trim answer)) (codes "y") || text_eq (lower (trim answer)) (codes "yes")

abbrev pub is_pinned : EntrySummary → Bool
is_pinned e = e.pinned

unfoldable pub doomed : Bool → List EntrySummary → ℕ
doomed include_pinned entries =
    if include_pinned then length entries else length entries - length (filter is_pinned entries)

abbrev pub count : ℕ → Text
count n = if n == 1 then codes "1 entry" else decimal n ++ codes " entries"

unfoldable pub prompt : ℕ → ℕ → Bool → Text
prompt n pinned include_pinned =
    let what = codes "clippo: delete " ++ count n in
    if pinned == 0
    then what ++ codes "? [y/N] "
    else if include_pinned
    then what ++ (codes ", including " ++ (decimal pinned ++ codes " pinned? [y/N] "))
    else what ++ (codes ", keeping " ++ (decimal pinned ++ codes " pinned? [y/N] "))

pub data ClearEnd {ℓ} (E : Type ℓ) : Type ℓ where
  cleared nothing_to_clear needs_confirmation aborted : ClearEnd E
  unread client_failed : E → ClearEnd E

-- What `clear` is answered: whether it is asked at a terminal, the list, the line that is read, and the
-- error of the call that clears.
pub record ClearAnswers {ℓ} (E : Type ℓ) : Type ℓ where
  pub is_terminal : Bool
  pub entries : Result (List EntrySummary) E
  pub line : Result Text E
  pub error : Option E

-- what `clear` does: the question it writes, and the call of the client with its argument
pub data ClearCall : Type 0 where
  asked : Text → ClearCall
  clear_history : Bool → ClearCall

abbrev pub after_asking {ℓ} :
    {E : Type ℓ} → Text → List ClearCall × ClearEnd E → List ClearCall × ClearEnd E
after_asking question (calls, end) = (asked question ∷ calls, end)

module _ {ℓ} {E : Type ℓ} where
  abbrev pub call : Bool → Option E → List ClearCall × ClearEnd E
  call include_pinned none = (clear_history include_pinned ∷ [], cleared)
  call include_pinned (some e) = (clear_history include_pinned ∷ [], client_failed e)

  abbrev pub by_line : Bool → Result Text E → ClearAnswers E → List ClearCall × ClearEnd E
  by_line include_pinned (err e) a = ([], unread e)
  by_line include_pinned (ok answer) a =
      if affirmative answer then call include_pinned a.error else ([], aborted)

  abbrev pub by_list :
      Bool → Result (List EntrySummary) E → ClearAnswers E → List ClearCall × ClearEnd E
  by_list include_pinned (err e) a = ([], client_failed e)
  by_list include_pinned (ok entries) a =
      if doomed include_pinned entries == 0
      then ([], nothing_to_clear)
      else after_asking
          (prompt (doomed include_pinned entries) (length (filter is_pinned entries))
            include_pinned)
          (by_line include_pinned a.line a)

  -- what is done, and the end
  unfoldable pub clear : Bool → Bool → ClearAnswers E → List ClearCall × ClearEnd E
  clear yes_given include_pinned a =
      if yes_given
      then call include_pinned a.error
      else if not a.is_terminal
      then ([], needs_confirmation)
      else by_list include_pinned a.entries a
