-- ===== src/Cli/Render/Aligned/Columns.antt =====
-- render.rs: where the cells of a line stand.
use clippo.Prelude.{
  append_assoc, ◌∙◌, ℕ, zero, suc, ◌+◌, ◌-◌, ◌≤◌, ◌≡◌, refl, ap, Bool, true, false, List, [], ◌∷◌,
  ◌++◌, length, length-append, arith, if◌then◌else◌,
}
use clippo.Prelude.Text.{Text, codes, is_empty}
use clippo.Cli.Render.{spaces, write_cells, last_or_padded}

length-spaces : (n : ℕ) → length (spaces n) ≡ n
length-spaces zero = refl
length-spaces (suc n) = ap suc (length-spaces n)

length-cell :
    (to_right : Bool) (cell : Text) (width : ℕ)
    → length cell ≤ width
    → length (
        if to_right
        then spaces (width - length cell) ++ cell
        else cell ++ spaces (width - length cell))
      ≡ width
length-cell true cell width h =
    omega (
      arith,
      length-append (spaces (width - length cell)) cell,
      length-spaces (width - length cell),
    )
length-cell false cell width h =
    omega (
      arith,
      length-append cell (spaces (width - length cell)),
      length-spaces (width - length cell),
    )

-- A cell stands in its column of a line, which begins at `start`: it begins there, or, in a column that
-- stands to the right, it ends where the column ends.
abbrev pub Stands : Bool → ℕ → ℕ → ℕ → ℕ → Type 0
Stands true start width offset n = offset + n ≡ start + width
Stands false start width offset n = offset ≡ start

abbrev pub IsPlaced : Text → ℕ → Bool → Text → ℕ → Type 0
IsPlaced line start to_right cell width =
    (before : Text) × (after : Text) × (line ≡ before ++ (cell ++ after))
    × Stands to_right start width (length before) (length cell)

-- every cell stands in its column; two characters separate columns
abbrev pub AreColumns : Text → ℕ → List Text → List ℕ → List Bool → Type 0
AreColumns line start [] [] [] = Unit
AreColumns line start (cell ∷ cells) (width ∷ widths) (to_right ∷ rights) =
    IsPlaced line start to_right cell width
    × AreColumns line (start + width + 2) cells widths rights
AreColumns line start _ _ _ = ⊥

-- every cell fits its column
abbrev pub FitAll : List Text → List ℕ → List Bool → Type 0
FitAll [] [] [] = Unit
FitAll (cell ∷ cells) (width ∷ widths) (to_right ∷ rights) =
    (length cell ≤ width) × FitAll cells widths rights
FitAll _ _ _ = ⊥

abbrev padded : Bool → Text → List Text → ℕ → Text
padded to_right cell cells padding =
    if to_right then spaces padding ++ cell else cell ++ last_or_padded cells padding

regroup :
    (before gutter cell rest after : Text)
    → before ++ ((gutter ++ (cell ++ rest)) ++ after)
      ≡ (before ++ (gutter ++ cell)) ++ (rest ++ after)
regroup before gutter cell rest after = simp append_assoc

placed :
    (line before gutter rest cell : Text) (cells : List Text) (to_right : Bool) (start width : ℕ)
    → length before + length gutter ≡ start
    → length cell ≤ width
    → line ≡ (before ++ (gutter ++ padded to_right cell cells (width - length cell))) ++ rest
    → IsPlaced line start to_right cell width
placed line before gutter rest cell cells true start width at fit e =
    let pad = spaces (width - length cell) in
    let front = before ++ (gutter ++ pad) in
    (
      front,
      rest,
      e ∙ simp append_assoc,
      omega (
        arith,
        at,
        fit,
        length-append before (gutter ++ pad),
        length-append gutter pad,
        length-spaces (width - length cell),
      ),
    )
placed line before gutter rest cell cells false start width at fit e =
    let pad = last_or_padded cells (width - length cell) in
    (before ++ gutter, pad ++ rest, e ∙ simp append_assoc, length-append before gutter ∙ at)

-- where the next column begins
next_start :
    (before gutter cell d : Text) (cells : List Text) (to_right : Bool) (start width : ℕ)
    → length before + length gutter ≡ start
    → length cell ≤ width
    → length (before ++ (gutter ++ padded to_right cell (d ∷ cells) (width - length cell))) + 2
      ≡ start + width + 2
next_start before gutter cell d cells to_right start width at fit =
    let own = padded to_right cell (d ∷ cells) (width - length cell) in
    omega (
      arith,
      at,
      length-append before (gutter ++ own),
      length-append gutter own,
      length-cell to_right cell width fit,
    )

pub written-AreColumns :
    (line before gutter after : Text) (cells : List Text) (widths : List ℕ) (rights : List Bool)
    (start : ℕ)
    → FitAll cells widths rights
    → line ≡ before ++ (write_cells gutter cells widths rights ++ after)
    → (is_empty cells ≡ false → length before + length gutter ≡ start)
    → AreColumns line start cells widths rights
unfolding write_cells
written-AreColumns line before gutter after [] [] [] start fit e at = tt
written-AreColumns line before gutter after [] [] (r ∷ rs) start fit e at = absurd fit
written-AreColumns line before gutter after [] (w ∷ ws) rights start fit e at = absurd fit
written-AreColumns line before gutter after (c ∷ cs) [] rights start fit e at = absurd fit
written-AreColumns line before gutter after (c ∷ cs) (w ∷ ws) [] start fit e at = absurd fit
written-AreColumns line before gutter after (c ∷ cs) (w ∷ ws) (r ∷ rs) start (fit, fits) e at =
    let own = padded r c cs (w - length c) in
    let rest = write_cells (codes "  ") cs ws rs in
    let grouped = e ∙ regroup before gutter own rest after in
    (
      placed line before gutter (rest ++ after) c cs r start w (at refl) fit grouped,
      written-AreColumns line (before ++ (gutter ++ own)) (codes "  ") after cs ws rs
          (start + w + 2) fits grouped (next cs),
    )
  where
    next :
        (ds : List Text)
        → is_empty ds ≡ false
        → length (before ++ (gutter ++ padded r c ds (w - length c))) + 2 ≡ start + w + 2
    next [] h = cc
    next (d ∷ ds) h = next_start before gutter c d ds r start w (at refl) fit
