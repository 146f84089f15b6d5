-- ===== src/Base/Parsing.antt =====
-- What the source uses of the standard library on text: lines, words, numbers.
pub mod Decimal
pub mod Words
use travelmode.Base.Tests.{ltb, leb, nat_beq, if◌then◌else◌}
use travelmode.Base.Lists.{is_empty, retain, any}
use travelmode.Base.Texts.{Text, Pieces, split_by, text_beq}
use Prim.Native.Nat.{ℕ, zero, suc, ◌+◌, ◌-◌, ◌*◌, ◌/◌, ◌%◌}
use mathlib.Core.Bool.{Bool, true, false, not, ◌&&◌, ◌||◌}
use mathlib.Core.List.{List, [], ◌∷◌, ◌++◌, map}
use mathlib.Core.Option.{Option, none, some}

-- `char::is_whitespace`.
abbrev pub is_whitespace : ℕ → Bool
is_whitespace c =
    (leb 9 c && leb c 13)
    || nat_beq c 32
    || nat_beq c 0x85
    || nat_beq c 0xa0
    || nat_beq c 0x1680
    || (leb 0x2000 c && leb c 0x200a)
    || nat_beq c 0x2028
    || nat_beq c 0x2029
    || nat_beq c 0x202f
    || nat_beq c 0x205f
    || nat_beq c 0x3000

abbrev pub pieces : Pieces → List Text
pieces (p, ps) = p ∷ ps

unfoldable pub split_whitespace : Text → List Text
split_whitespace s = retain (λ p. not (is_empty p)) (pieces (split_by is_whitespace s))

-- `str::split` by one character.
unfoldable pub split : ℕ → Text → List Text
split d s = pieces (split_by (λ c. nat_beq c d) s)

abbrev strip_cr : Text → Text
strip_cr [] = []
strip_cr (c ∷ []) = if nat_beq c 13 then [] else c ∷ []
strip_cr (c ∷ d ∷ s) = c ∷ strip_cr (d ∷ s)

-- Every line but one that no newline ends loses a carriage return.
abbrev line_list : Text → List Text → List Text
line_list p [] = if is_empty p then [] else p ∷ []
line_list p (q ∷ ps) = strip_cr p ∷ line_list q ps

unfoldable pub lines : Text → List Text
lines s = let (p, ps) = split_by (λ c. nat_beq c 10) s in line_list p ps

-- `split_once`: the text before and after the first `d`.
unfoldable pub split_once : ℕ → Text → Option (Text × Text)
split_once d [] = none
split_once d (c ∷ s) =
    let rest : Option (Text × Text) = elim (split_once d s) [
      | none ↦ none
      | some (a, b) ↦ some (c ∷ a, b)
    ] in
    if nat_beq c d then some ([], s) else rest

unfoldable pub contains : ℕ → Text → Bool
contains d s = any (λ c. nat_beq c d) s

-- The last piece of `rsplit(d)`'s view: what follows the last `d`, or all.
unfoldable pub after_last : ℕ → Text → Text
after_last d [] = []
after_last d (c ∷ s) = if contains d s then after_last d s else if nat_beq c d then s else c ∷ s

unfoldable pub ends_with : ℕ → Text → Bool
ends_with d [] = false
ends_with d (c ∷ []) = nat_beq c d
ends_with d (c ∷ e ∷ s) = ends_with d (e ∷ s)

unfoldable pub strip_prefix : Text → Text → Option Text
strip_prefix [] s = some s
strip_prefix (c ∷ p) [] = none
strip_prefix (c ∷ p) (d ∷ s) = if nat_beq c d then strip_prefix p s else none

-- `strip_suffix` by one character.
unfoldable pub strip_last : ℕ → Text → Option Text
strip_last d [] = none
strip_last d (c ∷ []) = if nat_beq c d then some [] else none
strip_last d (c ∷ e ∷ s) = elim (strip_last d (e ∷ s)) [ none ↦ none | some t ↦ some (c ∷ t) ]

-- The value of a digit, not below the radix for what is none.
abbrev pub digit : ℕ → ℕ
digit c =
    if leb b'0' c && leb c b'9'
    then c - b'0'
    else if leb b'a' c && leb c b'z'
    then c - b'a' + 10
    else if leb b'A' c && leb c b'Z'
    then c - b'A' + 10
    else 36

-- One digit more, below `bound`.
abbrev pub add_digit : ℕ → ℕ → ℕ → ℕ → Option ℕ
add_digit radix bound acc c =
    if ltb (digit c) radix
    then if ltb (acc * radix + digit c) bound then some (acc * radix + digit c) else none
    else none

unfoldable pub parse_digits : ℕ → ℕ → ℕ → Text → Option ℕ
parse_digits radix bound acc [] = some acc
parse_digits radix bound acc (c ∷ s) = elim (add_digit radix bound acc c) [
  | none ↦ none
  | some n ↦ parse_digits radix bound n s
]

-- `from_str_radix` of an unsigned type with values below `bound`; a sign `+` may stand in front.
unfoldable pub parse_uint : ℕ → ℕ → Text → Option ℕ
unfolding parse_digits
parse_uint radix bound [] = none
parse_uint radix bound (c ∷ s) =
    if nat_beq c b'+'
    then if is_empty s then none else parse_digits radix bound 0 s
    else parse_digits radix bound 0 (c ∷ s)

-- Decimal digits, `to_string` of an unsigned number. The fuel falls with each digit.
unfoldable pub show_digits : ℕ → ℕ → Text
show_digits zero n = []
show_digits (suc fuel) n =
    let front = show_digits fuel (n / 10) in
    if ltb n 10 then (b'0' + n) ∷ [] else front ++ (b'0' + n % 10) ∷ []

unfoldable pub show_ℕ : ℕ → Text
unfolding show_digits
show_ℕ n = show_digits (suc n) n
