-- ===== src/Cli/Render/Aligned.antt =====
-- render.rs: the columns of the table line up.
pub mod Columns
use mathlib.Core.List.{flatten}
use clippo.Prelude.{
  append_assoc, ◌∙◌, ℕ, zero, suc, ◌+◌, ◌-◌, ◌≤◌, ◌≡◌, refl, sym, ap, Bool, true, false, List, [],
  ◌∷◌, ◌++◌, map, length, length-append, All, arith, if◌then◌else◌, subst,
}
use clippo.Prelude.Text.{Text, codes, is_empty}
use clippo.Core.Entry.{Timestamp}
use clippo.Daemon.Cache.{EntrySummary}
use clippo.Cli.Render.{
  row, right, larger, wider, widths_of, spaces, write_cells, write_row, write_rows, table, headers,
  last_or_padded,
}
use clippo.Cli.Render.Aligned.Columns.{AreColumns, FitAll, written-AreColumns}

-- every cell is at most as wide as its column
abbrev Fits : List Text → List ℕ → Type 0
Fits (cell ∷ cells) (width ∷ widths) = (length cell ≤ width) × Fits cells widths
Fits _ _ = Unit

larger_lem : (a b : ℕ) → (a ≤ larger a b) × (b ≤ larger a b)
larger_lem a b = ground arith

wider-Fits : (cells : List Text) (widths : List ℕ) → Fits cells (wider cells widths)
wider-Fits [] [] = tt
wider-Fits [] (w ∷ ws) = tt
wider-Fits (c ∷ cs) [] = tt
wider-Fits (c ∷ cs) (w ∷ ws) = ((larger_lem (length c) w).0, wider-Fits cs ws)

wider-keeps :
    (cells others : List Text) (widths : List ℕ)
    → Fits cells widths
    → Fits cells (wider others widths)
wider-keeps [] [] widths h = tt
wider-keeps [] (o ∷ os) [] h = tt
wider-keeps [] (o ∷ os) (w ∷ ws) h = tt
wider-keeps (c ∷ cs) [] [] h = tt
wider-keeps (c ∷ cs) [] (w ∷ ws) h = h
wider-keeps (c ∷ cs) (o ∷ os) [] h = tt
wider-keeps (c ∷ cs) (o ∷ os) (w ∷ ws) (h, hs) =
    (omega (arith, larger_lem (length o) w), wider-keeps cs os ws hs)

abbrev IsFive : List ℕ → Type 0
IsFive ws =
    (w1 : ℕ) × (w2 : ℕ) × (w3 : ℕ) × (w4 : ℕ) × (w5 : ℕ) × (ws ≡ w1 ∷ w2 ∷ w3 ∷ w4 ∷ w5 ∷ [])

wider-IsFive :
    (now : Timestamp) (e : EntrySummary) (ws : List ℕ) → IsFive ws → IsFive (wider (row now e) ws)
wider-IsFive now e ws (w1, w2, w3, w4, w5, q) =
    let r = row now e in (_, _, _, _, _, ap (λ (v : List ℕ). wider r v) q)

widths_of-IsFive :
    (now : Timestamp) (es : List EntrySummary) → IsFive (widths_of (map (row now) es))
widths_of-IsFive now [] = (_, _, _, _, _, refl)
widths_of-IsFive now (e ∷ es) =
    wider-IsFive now e (widths_of (map (row now) es)) (widths_of-IsFive now es)

-- all fit columns that are wider
All-keep :
    (now : Timestamp) (others : List Text) (widths : List ℕ) (es : List EntrySummary)
    → All (λ (e : EntrySummary). Fits (row now e) widths) es
    → All (λ (e : EntrySummary). Fits (row now e) (wider others widths)) es
All-keep now others widths [] h = tt
All-keep now others widths (e ∷ es) (h, hs) =
    (wider-keeps (row now e) others widths h, All-keep now others widths es hs)

All-fit :
    (now : Timestamp) (es : List EntrySummary)
    → All (λ (e : EntrySummary). Fits (row now e) (widths_of (map (row now) es))) es
All-fit now [] = tt
All-fit now (e ∷ es) =
    let ws = widths_of (map (row now) es) in
    (wider-Fits (row now e) ws, All-keep now (row now e) ws es (All-fit now es))

headers-Fits : (rows : List (List Text)) → Fits headers (widths_of rows)
headers-Fits [] = (omega arith, (omega arith, (omega arith, (omega arith, (omega arith, tt)))))
headers-Fits (r ∷ rows) = wider-keeps headers r (widths_of rows) (headers-Fits rows)

-- A text is the lines of these rows, for some widths of the columns, and in every line every cell stands in
-- its column.
abbrev pub IsAligned : Text → List (List Text) → Type 0
IsAligned text rows =
    (widths : List ℕ) × (text ≡ flatten (map (λ (cells : List Text). write_row cells widths) rows))
    × All (λ (cells : List Text). AreColumns (write_row cells widths) 0 cells widths right) rows

-- a row of five cells that fit
five_columns :
    (c1 c2 c3 c4 c5 : Text) (ws : List ℕ)
    → IsFive ws
    → Fits (c1 ∷ c2 ∷ c3 ∷ c4 ∷ c5 ∷ []) ws
    → AreColumns
        (write_row (c1 ∷ c2 ∷ c3 ∷ c4 ∷ c5 ∷ []) ws)
        0
        (c1 ∷ c2 ∷ c3 ∷ c4 ∷ c5 ∷ [])
        ws
        right
unfolding write_row
five_columns c1 c2 c3 c4 c5 ws (w1, w2, w3, w4, w5, q) fit =
    subst (λ (v : List ℕ). AreColumns (write_row cells v) 0 cells v right) (sym q)
      (written-AreColumns (write_row cells five) [] [] (0x0a ∷ []) cells five right 0
        (subst (λ (v : List ℕ). Fits cells v) q fit) refl (λ h. refl))
  where
    cells : List Text
    cells = c1 ∷ c2 ∷ c3 ∷ c4 ∷ c5 ∷ []

    five : List ℕ
    five = w1 ∷ w2 ∷ w3 ∷ w4 ∷ w5 ∷ []

rows_columns :
    (now : Timestamp) (ws : List ℕ) (es : List EntrySummary)
    → IsFive ws
    → All (λ (e : EntrySummary). Fits (row now e) ws) es
    → All
        (λ (cells : List Text). AreColumns (write_row cells ws) 0 cells ws right)
        (map (row now) es)
rows_columns now ws [] five fit = tt
rows_columns now ws (e ∷ es) five (h, hs) =
    (five_columns _ _ _ _ _ ws five h, rows_columns now ws es five hs)

write_rows-flatten :
    (rows : List (List Text)) (ws : List ℕ)
    → write_rows rows ws ≡ flatten (map (λ (cells : List Text). write_row cells ws) rows)
unfolding flatten
write_rows-flatten [] ws = refl
write_rows-flatten (r ∷ rows) ws =
    ap (λ (t : Text). write_row r ws ++ t) (write_rows-flatten rows ws)

-- The table of a list that is not empty is a line of headers and a line for each entry, and the columns line
-- up in all of them, whatever the entries hold: there are widths such that in every line each cell, the
-- header's too, begins where its column begins, or, the ids and the ages, ends where its column ends.
pub table-IsAligned :
    (e : EntrySummary) (es : List EntrySummary) (now : Timestamp)
    → IsAligned (table (e ∷ es) now) (headers ∷ map (row now) (e ∷ es))
unfolding table flatten
table-IsAligned e es now =
    let rows = map (row now) (e ∷ es) in
    let ws = widths_of rows in
    let five = widths_of-IsFive now (e ∷ es) in
    (
      ws,
      ap (λ (t : Text). write_row headers ws ++ t) (write_rows-flatten rows ws),
      (
        five_columns _ _ _ _ _ ws five (headers-Fits rows),
        rows_columns now ws (e ∷ es) five (All-fit now (e ∷ es)),
      ),
    )
