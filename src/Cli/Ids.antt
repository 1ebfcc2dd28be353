-- ===== src/Cli/Ids.antt =====
-- crates/clippo-cli/src/ids.rs: the entry that a shortened id means.
pub mod Resolved
pub mod Distinct
use clippo.Prelude.{
  ℕ, Bool, true, false, not, ◌||◌, List, [], ◌∷◌, ◌++◌, map, Option, none, some, Result, ok, err,
  if◌then◌else◌, any, all, find?, filter,
}
use clippo.Prelude.Int.{ℤ, eqb_ℤ}
use clippo.Prelude.Text.{Text, text_eq, is_empty, starts_with, is_ascii_digit, decimal_ℤ}
use clippo.Core.Display.{one_line}
use clippo.Daemon.Cache.{EntrySummary}

abbrev candidate_preview_chars : ℕ
candidate_preview_chars = 40

pub record Candidate : Type 0 where
  pub id : ℤ
  pub preview : Text

pub data ResolveError : Type 0 where
  not_an_id : Text → ResolveError
  no_such_entry : Text → Bool → ResolveError
  ambiguous : Text → List Candidate → ResolveError

-- every byte is a digit exactly if every character is
abbrev pub is_number : Text → Bool
is_number typed = not (is_empty typed || not (all is_ascii_digit typed))

abbrev pub is_exactly : Text → EntrySummary → Bool
is_exactly typed e = text_eq (decimal_ℤ e.id) typed

abbrev pub begins_with : Text → EntrySummary → Bool
begins_with typed e = starts_with (decimal_ℤ e.id) typed

abbrev candidate_of : EntrySummary → Candidate
candidate_of e = record { id = e.id; preview = one_line e.preview candidate_preview_chars }

unfoldable pub pick : Text → List EntrySummary → List EntrySummary → Result ℤ ResolveError
pick typed entries [] = err (no_such_entry typed (is_empty entries))
pick typed entries (only ∷ []) = ok only.id
pick typed entries (e ∷ f ∷ several) = err (ambiguous typed (map candidate_of (e ∷ f ∷ several)))

abbrev exact_or : Text → List EntrySummary → Option EntrySummary → Result ℤ ResolveError
exact_or typed entries none = pick typed entries (filter (begins_with typed) entries)
exact_or typed entries (some e) = ok e.id

unfoldable pub resolve : Text → List EntrySummary → Result ℤ ResolveError
resolve typed entries =
    if is_number typed
    then exact_or typed entries (find? (is_exactly typed) entries)
    else err (not_an_id typed)

abbrev resolve_next :
    (List ℤ → Result (List ℤ) ResolveError)
    → List ℤ
    → Result ℤ ResolveError
    → Result (List ℤ) ResolveError
resolve_next rest ids (err e) = err e
resolve_next rest ids (ok id) = rest (if any (eqb_ℤ id) ids then ids else ids ++ id ∷ [])

-- each id once, in the order it was first named
unfoldable pub resolve_from : List ℤ → List Text → List EntrySummary → Result (List ℤ) ResolveError
resolve_from ids [] entries = ok ids
resolve_from ids (typed ∷ rest) entries =
    resolve_next (λ found. resolve_from found rest entries) ids (resolve typed entries)

unfoldable pub resolve_all : List Text → List EntrySummary → Result (List ℤ) ResolveError
resolve_all typed entries = resolve_from [] typed entries
