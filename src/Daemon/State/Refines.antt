-- ===== src/Daemon/State/Refines.antt =====
-- daemon.rs, cache.rs: what the daemon answers from its cache is what the store would answer.
use clippo.Prelude.{
  ℕ, zero, suc, ◌-◌, ◌^◌, ◌≤◌, ◌<◌, ◌≡◌, refl, sym, ap, ◌∙◌, false, List, [], ◌∷◌, none, Result, ok,
  err, if◌then◌else◌, ◌==◌, length, take, drop, map, min, arith, length-drop, take_of_length-le,
  Bool-cases, inl, inr, subst,
}
use clippo.Prelude.Text.{Text}
use clippo.Core.Entry.{Entry}
use clippo.Core.Secrets.Masking.{usize_max}
use clippo.Store.Tables.{Db, insert_sorted, by_recency}
use clippo.Store.Sql.{StoreError, select_list}
use clippo.Store.History
use clippo.Store.History.{as_i64}
use clippo.Daemon.Cache.{EntrySummary, summarize, replace, limited, page}
use clippo.Daemon.State.{Daemon, World, Command, start, perform_all, list, search_for}
use clippo.Daemon.State.Mirrors.{Mirrors, listed, perform_all-Mirrors}

min-suc : (n m : ℕ) → min (suc n) (suc m) ≡ suc (min n m)
min-suc n m = omega arith

min-zero : (m : ℕ) → min 0 m ≡ 0
min-zero m = omega arith

module _ {ℓ} {A : Type ℓ} where
  drop-nil : (n : ℕ) → drop {A = A} n [] ≡ []
  drop-nil zero = refl
  drop-nil (suc n) = refl

  drop-min : (n m : ℕ) (xs : List A) → length xs ≤ m → drop (min n m) xs ≡ drop n xs
  drop-min n m [] h = drop-nil (min n m) ∙ sym (drop-nil n)
  drop-min zero m (x ∷ xs) h = ap (λ (k : ℕ). drop k (x ∷ xs)) (min-zero m)
  drop-min (suc n) zero (x ∷ xs) h = absurd (omega arith)
  drop-min (suc n) (suc m) (x ∷ xs) h =
      ap (λ (k : ℕ). drop k (x ∷ xs)) (min-suc n m) ∙ drop-min n m xs (omega arith)

  take-min : (n m : ℕ) (xs : List A) → length xs ≤ m → take (min n m) xs ≡ take n xs
  take-min n m [] h =
      take_of_length-le (min n m) [] (omega arith) ∙ sym (take_of_length-le n [] (omega arith))
  take-min zero m (x ∷ xs) h = ap (λ (k : ℕ). take k (x ∷ xs)) (min-zero m)
  take-min (suc n) zero (x ∷ xs) h = absurd (omega arith)
  take-min (suc n) (suc m) (x ∷ xs) h =
      ap (λ (k : ℕ). take k (x ∷ xs)) (min-suc n m)
      ∙ ap (λ (l : List A). x ∷ l) (take-min n m xs (omega arith))

  -- the page of a list, where a limit of 0 is none
  abbrev pub window : ℕ → ℕ → List A → List A
  window limit offset xs = if limit == 0 then drop offset xs else take limit (drop offset xs)

module _ {ℓ κ} {A : Type ℓ} {B : Type κ} (f : A → B) where
  map-drop : (n : ℕ) (xs : List A) → drop n (map f xs) ≡ map f (drop n xs)
  map-drop zero xs = refl
  map-drop (suc n) [] = refl
  map-drop (suc n) (x ∷ xs) = map-drop n xs

  map-take : (n : ℕ) (xs : List A) → take n (map f xs) ≡ map f (take n xs)
  map-take zero xs = refl
  map-take (suc n) [] = refl
  map-take (suc n) (x ∷ xs) = ap (λ (l : List B). f x ∷ l) (map-take n xs)

length-insert_sorted : (e : Entry) (es : List Entry) → length (insert_sorted e es) ≡ suc (length es)
unfolding insert_sorted
length-insert_sorted e [] = refl
length-insert_sorted e (f ∷ es) = ground (arith, length-insert_sorted e es)

length-by_recency : (es : List Entry) → length (by_recency es) ≡ length es
unfolding by_recency
length-by_recency [] = refl
length-by_recency (e ∷ es) = length-insert_sorted e (by_recency es) ∙ ap suc (length-by_recency es)

-- what is listed when the daemon starts or a change is made: all rows, unless there are more than fit in
-- the `i64` of a statement
listed-all : (db : Db) → length db.entries < 2 ^ 63 → listed db ≡ by_recency db.entries
listed-all db h =
    let rows = by_recency db.entries in
    take_of_length-le (as_i64 usize_max) rows (omega (arith, length-by_recency db.entries))

page-window :
    (limit offset : ℕ) (entries : List Entry)
    → page limit offset (replace entries) ≡ map summarize (window limit offset entries)
unfolding page
page-window limit offset entries =
    let cut = drop-min offset (length (replace entries)) (replace entries) (omega arith) in
    let moved = cut ∙ map-drop summarize offset entries in
    let rest = drop offset entries in
    ap (limited limit) moved ∙ elim (Bool-cases (limit == 0)) [
      | inl e ↦
          rw e (take_of_length-le (length (map summarize rest)) (map summarize rest) (omega arith))
      | inr e ↦ rw e (map-take summarize limit rest)
    ]

module _ (w : World) (lists : (db : Db) → w.backend.fault select_list db ≡ false) where
  -- what the store answers to a page
  asked-window :
      (limit offset : ℕ) (db : Db)
      → length db.entries < 2 ^ 63
      → (History.list w.backend (if limit == 0 then usize_max else limit) offset db).1
        ≡ ok (window limit offset (by_recency db.entries))
  unfolding History.list
  asked-window limit offset db h =
      let rows = by_recency db.entries in
      let short : length rows ≤ 2 ^ 63 - 1 = omega (arith, h, length-by_recency db.entries) in
      let cut = drop-min offset (2 ^ 63 - 1) rows short in
      let rest = drop offset rows in
      let fits : length rest ≤ 2 ^ 63 - 1 = omega (arith, short, length-drop offset rows) in
      rw (lists db, cut)
        (ap ok (elim (Bool-cases (limit == 0)) [
          | inl e ↦ rw e (take_of_length-le (min usize_max (2 ^ 63 - 1)) rest (omega (arith, fits)))
          | inr e ↦ rw e (take-min limit (2 ^ 63 - 1) rest fits)
        ]))

  abbrev IsMirror : Result Daemon StoreError → Type 0
  IsMirror (ok d) = Mirrors d
  IsMirror (err e) = Unit

  start-eq :
      (db : Db)
      → start w db
        ≡ ok (record {
          store = db;
          cache = replace (listed db);
          echo = none;
          paused = false;
          emitted = 0;
        })
  unfolding start History.list
  start-eq db = rw (lists db) refl

  start-Mirrors : (db : Db) (d : Daemon) → start w db ≡ ok d → Mirrors d
  start-Mirrors db d h = subst IsMirror (sym (start-eq db) ∙ h) refl

  -- a page is the summaries of what the store answers, a search is over the summaries of all rows
  abbrev pub Answers : Daemon → ℕ → ℕ → Text → Type 0
  Answers d limit offset query =
      (list w limit offset d ≡ map summarize (window limit offset (by_recency d.store.entries)))
      × ((History.list w.backend (if limit == 0 then usize_max else limit) offset d.store).1
          ≡ ok (window limit offset (by_recency d.store.entries)))
      × (search_for w query limit d
          ≡ search_for w query limit (record d { cache = replace (by_recency d.store.entries) }))

  -- what the daemon answers to a page and to a search, where its cache shows what is stored
  answers :
      (d : Daemon) (limit offset : ℕ) (query : Text)
      → Mirrors d
      → length d.store.entries < 2 ^ 63
      → Answers d limit offset query
  unfolding list search_for
  answers d limit offset query m short =
      let e = m ∙ ap replace (listed-all d.store short) in
      let rows = by_recency d.store.entries in
      (
        ap (page limit offset) e ∙ page-window limit offset rows,
        asked-window limit offset d.store short,
        ap (λ (c : List EntrySummary). search_for w query limit (record d { cache = c })) e,
      )

  -- A daemon that starts over any tables answers, after any sequence of what clients and the clipboard ask,
  -- as one with no cache would, where reading the list back does not fail and there are fewer than 2 ^ 63
  -- rows: its page is the summaries of what the store itself answers to the same limit and offset (a limit
  -- of 0 is none), and its search is the one over the summaries of all rows by recency.
  pub perform_all-Answers :
      (db : Db) (d0 : Daemon) (cs : List Command) (limit offset : ℕ) (query : Text)
      → start w db ≡ ok d0
      → length (perform_all w cs d0).store.entries < 2 ^ 63
      → Answers (perform_all w cs d0) limit offset query
  perform_all-Answers db d0 cs limit offset query h short =
      let d = perform_all w cs d0 in
      answers d limit offset query (perform_all-Mirrors w lists cs d0 (start-Mirrors db d0 h)) short
