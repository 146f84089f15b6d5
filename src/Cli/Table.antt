-- ===== src/Cli/Table.antt =====
-- Tables of the command line client: `print_table` of crates/cli/src/main.rs, as the lines that it
-- prints. The first row is the header, and every row has the same number of cells.
pub mod Aligned
use travelmode.Base.{
  ℕ, zero, suc, ◌+◌, ◌-◌, List, [], ◌∷◌, ◌++◌, map, Text, length, max, is_empty, if◌then◌else◌,
}
use travelmode.Base.Parsing.{is_whitespace}

abbrev pub replicate : ℕ → ℕ → Text
replicate zero c = []
replicate (suc n) c = c ∷ replicate n c

-- `{cell:<width$}`
abbrev pub pad : ℕ → Text → Text
pad width cell = cell ++ replicate (width - length cell) b' '

abbrev pub zeros : ℕ → List ℕ
zeros zero = []
zeros (suc n) = 0 ∷ zeros n

-- The loop over the cells of one row.
abbrev pub widen : List ℕ → List Text → List ℕ
widen (w ∷ ws) (cell ∷ cells) = max w (length cell) ∷ widen ws cells
widen ws [] = ws
widen [] (cell ∷ cells) = []

abbrev pub widths : List ℕ → List (List Text) → List ℕ
widths ws [] = ws
widths ws (row ∷ rows) = widths (widen ws row) rows

-- A row before its end is trimmed; the last cell is not padded.
unfoldable pub line : List ℕ → List Text → Text
line [] cells = []
line (w ∷ ws) [] = []
line (w ∷ ws) (cell ∷ []) = cell
line (w ∷ ws) (cell ∷ next ∷ cells) = pad (w + 2) cell ++ line ws (next ∷ cells)

-- `trim_end`
unfoldable pub trim_end : Text → Text
trim_end [] = []
trim_end (c ∷ s) =
    let rest = trim_end s in
    if is_empty rest then if is_whitespace c then [] else c ∷ [] else c ∷ rest

unfoldable pub separator : List ℕ → Text
separator [] = []
separator (w ∷ ws) = replicate (w + 2) b'-' ++ separator ws

unfoldable pub print_rows : List ℕ → List (List Text) → List Text
unfolding line trim_end separator
print_rows ws [] = []
print_rows ws (header ∷ rows) =
    trim_end (line ws header) ∷ trim_end (separator ws) ∷ map (λ row. trim_end (line ws row)) rows

-- `n` is the number of columns.
unfoldable pub print_table : ℕ → List (List Text) → List Text
unfolding print_rows
print_table n rows = print_rows (widths (zeros n) rows) rows
