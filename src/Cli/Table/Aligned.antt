-- ===== src/Cli/Table/Aligned.antt =====
-- The columns of a table of crates/cli/src/main.rs stand under each other.
use travelmode.Base.{
  ℕ, zero, suc, ◌+◌, ◌-◌, ◌≡◌, ◌≤◌, refl, List, [], ◌∷◌, ◌++◌, some, Text, length, take, drop,
  get_elem?, take-append, drop-append, length-append, All, arith, ap, sym, ◌∙◌,
}
use travelmode.Cli.Table.{replicate, pad, zeros, widen, widths, line}
use mathlib.Core.List.{append-nil, append_assoc}

-- The row has a cell for each column, no wider than it.
abbrev pub Fits : List ℕ → List Text → Type 0
Fits [] [] = Unit
Fits [] (cell ∷ cells) = ⊥
Fits (w ∷ ws) [] = ⊥
Fits (w ∷ ws) (cell ∷ cells) = (length cell ≤ w) × Fits ws cells

-- No column of the first is wider than that of the second.
abbrev pub Wider : List ℕ → List ℕ → Type 0
Wider [] [] = Unit
Wider [] (v ∷ vs) = ⊥
Wider (w ∷ ws) [] = ⊥
Wider (w ∷ ws) (v ∷ vs) = (w ≤ v) × Wider ws vs

-- Where a column begins.
abbrev pub offset : ℕ → List ℕ → ℕ
offset zero ws = 0
offset (suc i) [] = 0
offset (suc i) (w ∷ ws) = w + 2 + offset i ws

length-replicate : (n c : ℕ) → length (replicate n c) ≡ n
length-replicate zero c = refl
length-replicate (suc n) c = omega (arith, length-replicate n c)

length-pad : (w : ℕ) (cell : Text) → length cell ≤ w → length (pad w cell) ≡ w
length-pad w cell h = omega (
  arith,
  length-append cell (replicate (w - length cell) b' '),
  length-replicate (w - length cell) b' ',
)

suc_add : (m n : ℕ) → suc m + n ≡ suc (m + n)
suc_add m n = omega arith

drop-nil : (n : ℕ) → ◌≡◌ {A = Text} (drop n []) []
drop-nil zero = refl
drop-nil (suc n) = refl

drop-add : (m n : ℕ) (xs : Text) → drop (m + n) xs ≡ drop n (drop m xs)
drop-add zero n xs = ap (λ k. drop k xs) (omega arith)
drop-add (suc m) n [] = ap (λ k. drop {A = ℕ} k []) (suc_add m n) ∙ sym (drop-nil n)
drop-add (suc m) n (x ∷ xs) = ap (λ k. drop k (x ∷ xs)) (suc_add m n) ∙ drop-add m n xs

take-length : (xs ys : Text) → xs ≡ ys → take (length xs) ys ≡ xs
take-length xs ys e = rw (← e) (ap (take (length xs)) (sym (append-nil xs)) ∙ take-append xs [])

-- After a cell and its padding.
drop-pad :
    (w n : ℕ) (cell rest : Text)
    → length cell ≤ w
    → drop (w + 2 + n) (pad (w + 2) cell ++ rest) ≡ drop n rest
drop-pad w n cell rest h =
    drop-add (w + 2) n (pad (w + 2) cell ++ rest)
    ∙ ap (drop n) (
        ap (λ k. drop k (pad (w + 2) cell ++ rest)) (sym (length-pad (w + 2) cell (omega arith)))
        ∙ drop-append (pad (w + 2) cell) rest)

line-cell :
    (ws : List ℕ) (cells : List Text) (i : ℕ) (cell : Text)
    → Fits ws cells
    → get_elem? cells i ≡ some cell
    → take (length cell) (drop (offset i ws) (line ws cells)) ≡ cell
unfolding line
line-cell [] [] i cell f h = absurd (ground arith)
line-cell [] (c ∷ cells) i cell f h = absurd f
line-cell (w ∷ ws) [] i cell f h = absurd f
line-cell (w ∷ ws) (c ∷ []) zero cell f h = take-length cell c (ground arith)
line-cell (w ∷ ws) (c ∷ []) (suc i) cell f h = absurd (ground arith)
line-cell (w ∷ ws) (c ∷ d ∷ cells) zero cell f h =
    let same : c ≡ cell = ground arith in
    rw (same, append_assoc)
      (take-append cell (replicate (w + 2 - length cell) b' ' ++ line ws (d ∷ cells)))
line-cell (w ∷ ws) (c ∷ d ∷ cells) (suc i) cell f h =
    ap (take (length cell)) (drop-pad w (offset i ws) c (line ws (d ∷ cells)) f.0)
    ∙ line-cell ws (d ∷ cells) i cell f.1 h

Fits-le : (ws vs : List ℕ) (row : List Text) → Fits ws row → Wider ws vs → Fits vs row
Fits-le [] [] row f h = f
Fits-le [] (v ∷ vs) row f h = absurd h
Fits-le (w ∷ ws) [] row f h = absurd h
Fits-le (w ∷ ws) (v ∷ vs) [] f h = absurd f
Fits-le (w ∷ ws) (v ∷ vs) (c ∷ row) f h = (omega arith, Fits-le ws vs row f.1 h.1)

-- The columns that a table has room for, by the number of cells.
abbrev pub IsRow : ℕ → List Text → Type 0
IsRow n row = length row ≡ n

Wider-refl : (ws : List ℕ) → Wider ws ws
Wider-refl [] = tt
Wider-refl (w ∷ ws) = (omega arith, Wider-refl ws)

Wider-trans : (us vs ws : List ℕ) → Wider us vs → Wider vs ws → Wider us ws
Wider-trans [] [] ws h k = k
Wider-trans [] (v ∷ vs) ws h k = absurd h
Wider-trans (u ∷ us) [] ws h k = absurd h
Wider-trans (u ∷ us) (v ∷ vs) [] h k = absurd k
Wider-trans (u ∷ us) (v ∷ vs) (w ∷ ws) h k = (omega arith, Wider-trans us vs ws h.1 k.1)

widen-Wider : (ws : List ℕ) (row : List Text) → length row ≡ length ws → Wider ws (widen ws row)
widen-Wider [] [] h = tt
widen-Wider [] (c ∷ row) h = absurd (omega arith)
widen-Wider (w ∷ ws) [] h = absurd (omega arith)
widen-Wider (w ∷ ws) (c ∷ row) h = (omega arith, widen-Wider ws row (omega arith))

widen-Fits : (ws : List ℕ) (row : List Text) → length row ≡ length ws → Fits (widen ws row) row
widen-Fits [] [] h = tt
widen-Fits [] (c ∷ row) h = absurd (omega arith)
widen-Fits (w ∷ ws) [] h = absurd (omega arith)
widen-Fits (w ∷ ws) (c ∷ row) h = (omega arith, widen-Fits ws row (omega arith))

length-widen :
    (ws : List ℕ) (row : List Text) → length row ≡ length ws → length (widen ws row) ≡ length ws
length-widen [] [] h = refl
length-widen [] (c ∷ row) h = absurd (omega arith)
length-widen (w ∷ ws) [] h = absurd (omega arith)
length-widen (w ∷ ws) (c ∷ row) h = omega (arith, length-widen ws row (omega arith))

widths-Wider :
    (n : ℕ) (ws : List ℕ) (rows : List (List Text))
    → length ws ≡ n
    → All (IsRow n) rows
    → Wider ws (widths ws rows)
widths-Wider n ws [] h a = Wider-refl ws
widths-Wider n ws (row ∷ rows) h (r, a) =
    Wider-trans ws (widen ws row) (widths (widen ws row) rows) (widen-Wider ws row (omega arith))
      (widths-Wider n (widen ws row) rows (omega (arith, length-widen ws row (omega arith))) a)

widths-Fits :
    (n : ℕ) (ws : List ℕ) (rows : List (List Text)) (k : ℕ) (row : List Text)
    → length ws ≡ n
    → All (IsRow n) rows
    → get_elem? rows k ≡ some row
    → Fits (widths ws rows) row
widths-Fits n ws [] k row h a e = absurd (ground arith)
widths-Fits n ws (r ∷ rows) zero row h (l, a) e =
    let same : r ≡ row = ground arith in
    Fits-le (widen ws r) (widths (widen ws r) rows) row
      (rw (← same) (widen-Fits ws r (omega arith)))
      (widths-Wider n (widen ws r) rows (omega (arith, length-widen ws r (omega arith))) a)
widths-Fits n ws (r ∷ rows) (suc k) row h (l, a) e =
    widths-Fits n (widen ws r) rows k row (omega (arith, length-widen ws r (omega arith))) a e

length-zeros : (n : ℕ) → length (zeros n) ≡ n
length-zeros zero = refl
length-zeros (suc n) = omega (arith, length-zeros n)

-- In every row of a table, the cell of a column stands, before trailing blanks are trimmed, where
-- the column begins: at an offset that is the same in all rows.
pub line-widths :
    (n : ℕ) (rows : List (List Text)) (k i : ℕ) (row : List Text) (cell : Text)
    → All (IsRow n) rows
    → get_elem? rows k ≡ some row
    → get_elem? row i ≡ some cell
    → take
        (length cell)
        (drop (offset i (widths (zeros n) rows)) (line (widths (zeros n) rows) row))
      ≡ cell
line-widths n rows k i row cell a e f =
    line-cell (widths (zeros n) rows) row i cell
      (widths-Fits n (zeros n) rows k row (length-zeros n) a e) f
