-- ===== src/Daemon/Cache.antt =====
-- crates/clippod/src/cache.rs: the previews that `List` and `Search` answer from. The fuzzy matcher is
-- the `nucleo` crate's: a parameter that scores a preview against a query.
pub mod Ranked
use clippo.Prelude.{
  ℕ, Bool, List, [], ◌∷◌, map, Option, none, some, Result, ok, err, ltb, leb, ◌==◌, if◌then◌else◌,
  length, take, drop, min,
}
use clippo.Prelude.Int.{ℤ}
use clippo.Prelude.Text.{Text, len}
use clippo.Core.Entry.{Entry, as_str}

abbrev max_query_chars : ℕ
max_query_chars = 1024

abbrev pub preview_max_chars : ℕ
preview_max_chars = 120

-- `EntrySummary` of crates/clippo-ipc
pub record EntrySummary : Type 0 where
  pub id : ℤ
  pub created_at : ℤ
  pub last_used_at : ℤ
  pub kind : Text
  pub preview : Text
  pub pinned : Bool
  pub sensitive : Bool

pub record QueryTooLong : Type 0 where
  pub chars : ℕ
  pub previews : ℕ

unfoldable pub check_query : Text → Result (Unit {0}) QueryTooLong
check_query query =
    if leb (len query) max_query_chars
    then ok tt
    else if leb (length query) max_query_chars
    then ok tt
    else err (record { chars = length query; previews = preview_max_chars })

unfoldable pub summarize : Entry → EntrySummary
summarize e = record {
  id = e.id;
  created_at = e.created_at;
  last_used_at = e.last_used_at;
  kind = as_str e.kind;
  preview = e.preview;
  pinned = e.pinned;
  sensitive = e.sensitive;
}

-- `PreviewCache`: its entries
abbrev pub PreviewCache : Type 0
PreviewCache = List EntrySummary

abbrev pub replace : List Entry → PreviewCache
replace entries = map summarize entries

-- a limit of 0 is none
abbrev pub limited {ℓ} : {A : Type ℓ} → ℕ → List A → List A
limited limit xs = take (if limit == 0 then length xs else limit) xs

unfoldable pub page : ℕ → ℕ → PreviewCache → List EntrySummary
page limit offset cache = limited limit (drop (min offset (length cache)) cache)

-- the entries with a score, in the order of the cache
unfoldable pub scored : (EntrySummary → Option ℕ) → PreviewCache → List (ℕ × EntrySummary)
scored score [] = []
scored score (e ∷ es) = elim (score e) [
  | none ↦ scored score es
  | some n ↦ (n, e) ∷ scored score es
]

-- `sort_by` is stable: the best score first, equal scores in the order they came in
unfoldable pub insert_scored : ℕ × EntrySummary → List (ℕ × EntrySummary) → List (ℕ × EntrySummary)
insert_scored (n, e) [] = (n, e) ∷ []
insert_scored (n, e) ((m, f) ∷ rest) =
    let deeper = insert_scored (n, e) rest in
    if ltb n m then (m, f) ∷ deeper else (n, e) ∷ (m, f) ∷ rest

unfoldable pub best_first : List (ℕ × EntrySummary) → List (ℕ × EntrySummary)
best_first [] = []
best_first (s ∷ rest) = insert_scored s (best_first rest)

unfoldable pub search :
    (Text → Text → Option ℕ) → Text → ℕ → PreviewCache → Result (List EntrySummary) QueryTooLong
search score query limit cache = elim (check_query query) [
  | err e ↦ err e
  | ok u ↦ ok (
      map (λ (s : ℕ × EntrySummary). s.1)
        (limited limit (best_first (scored (λ e. score query e.preview) cache))))
]
