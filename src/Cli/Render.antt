-- ===== src/Cli/Render.antt =====
-- crates/clippo-cli/src/render.rs: the table that `clippo list` prints, and its JSON.
pub mod Aligned
pub mod Escaped
use clippo.Prelude.{
  ℕ, zero, suc, ◌+◌, ◌-◌, ◌/◌, ◌%◌, Bool, true, false, not, List, [], ◌∷◌, ◌++◌, map, Result, ok,
  err, if◌then◌else◌, ltb, leb, length, replicate, any,
}
use clippo.Prelude.Int.{ℤ}
use clippo.Prelude.Text.{Text, codes, decimal, decimal_ℤ}
use clippo.Core.Display.{one_line, hex_digit, is_invisible_or_reordering}
use clippo.Core.Entry.{Timestamp, since}
use clippo.Daemon.Cache.{EntrySummary}

abbrev kind_chars : ℕ
kind_chars = 12

abbrev pub preview_column_chars : ℕ
preview_column_chars = 64

unfoldable pub flags : EntrySummary → Text
flags e = (if e.pinned then b'p' else b'.') ∷ (if e.sensitive then b's' else b'.') ∷ []

unfoldable pub age : Timestamp → Timestamp → Text
age now last_used_at =
    let seconds = since now last_used_at / 1000 in
    if ltb seconds 60
    then decimal seconds ++ codes "s"
    else if ltb seconds 3600
    then decimal (seconds / 60) ++ codes "m"
    else if ltb seconds 86400
    then decimal (seconds / 3600) ++ codes "h"
    else decimal (seconds / 86400) ++ codes "d"

abbrev pub row : Timestamp → EntrySummary → List Text
row now e =
    decimal_ℤ e.id
    ∷ age now e.last_used_at
    ∷ one_line e.kind kind_chars
    ∷ flags e
    ∷ one_line e.preview preview_column_chars
    ∷ []

abbrev pub headers : List Text
headers = codes "ID" ∷ codes "AGE" ∷ codes "KIND" ∷ codes "FL" ∷ codes "PREVIEW" ∷ []

-- the columns that stand to the right
abbrev pub right : List Bool
right = true ∷ true ∷ false ∷ false ∷ false ∷ []

-- `Iterator::max`, over the lengths of a column
abbrev pub larger : ℕ → ℕ → ℕ
larger a b = if ltb a b then b else a

abbrev pub wider : List Text → List ℕ → List ℕ
wider (cell ∷ cells) (width ∷ widths) = larger (length cell) width ∷ wider cells widths
wider _ widths = widths

abbrev pub widths_of : List (List Text) → List ℕ
widths_of [] = map length headers
widths_of (r ∷ rows) = wider r (widths_of rows)

abbrev pub spaces : ℕ → Text
spaces n = replicate n b' '

abbrev last_or_padded : List Text → ℕ → Text
last_or_padded [] padding = []
last_or_padded (cell ∷ cells) padding = spaces padding

-- the cells of `write_row` from a column on, which is not the first unless `gutter` is empty
unfoldable pub write_cells : Text → List Text → List ℕ → List Bool → Text
write_cells gutter (cell ∷ cells) (width ∷ widths) (to_right ∷ rights) =
    gutter
    ++ ((if to_right
          then spaces (width - length cell) ++ cell
          else cell ++ last_or_padded cells (width - length cell))
        ++ write_cells (codes "  ") cells widths rights)
write_cells gutter _ _ _ = []

unfoldable pub write_row : List Text → List ℕ → Text
write_row cells widths = write_cells [] cells widths right ++ 0x0a ∷ []

abbrev write_rows : List (List Text) → List ℕ → Text
write_rows [] widths = []
write_rows (r ∷ rows) widths = write_row r widths ++ write_rows rows widths

abbrev table_of : List (List Text) → Text
table_of rows = write_row headers (widths_of rows) ++ write_rows rows (widths_of rows)

unfoldable pub table : List EntrySummary → Timestamp → Text
table [] now = []
table (e ∷ es) now = table_of (map (row now) (e ∷ es))

-- `{unit:04x}`
abbrev hex4 : ℕ → Text
hex4 n =
    hex_digit (n / 4096 % 16)
    ∷ hex_digit (n / 256 % 16)
    ∷ hex_digit (n / 16 % 16)
    ∷ hex_digit (n % 16)
    ∷ []

abbrev pub unit : ℕ → Text
unit n = codes "\\u" ++ hex4 n

-- over `encode_utf16`
abbrev pub escape_character : ℕ → Text
escape_character c =
    if leb c 0xffff
    then unit c
    else unit (0xd800 + (c - 0x10000) / 1024) ++ unit (0xdc00 + (c - 0x10000) % 1024)

unfoldable pub escape_all : Text → Text
escape_all [] = []
escape_all (c ∷ text) =
    (if is_invisible_or_reordering c then escape_character c else c ∷ []) ++ escape_all text

unfoldable pub escape_invisible : Text → Text
escape_invisible text = if not (any is_invisible_or_reordering text) then text else escape_all text

-- `serialised` is what `serde_json::to_string_pretty` gives
abbrev json {ℓ} : {E : Type ℓ} → Result Text E → Result Text E
json (ok serialised) = ok (escape_invisible serialised ++ 0x0a ∷ [])
json (err e) = err e
