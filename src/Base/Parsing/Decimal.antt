-- ===== src/Base/Parsing/Decimal.antt =====
-- Printing a number in decimal and parsing it again.
use travelmode.Base.Tests.{ltb, leb, Option-cases, Bool-cases}
use travelmode.Base.Lists.{is_empty, All, All-append}
use travelmode.Base.Texts.{Text}
use travelmode.Base.Parsing.{add_digit, parse_digits, parse_uint, show_digits, show_ℕ}
use Prim.Native.Nat.{ℕ, zero, suc, ◌+◌, ◌*◌, ◌/◌, ◌%◌, ◌<◌}
use mathlib.Core.Path.{◌≡◌, refl, ap, ◌∙◌}
use mathlib.Core.Logic.{inl, inr}
use mathlib.Core.Bool.{Bool, true, false, ◌&&◌}
use mathlib.Core.List.{[], ◌∷◌, ◌++◌}
use mathlib.Core.Option.{some}
use native.Mathlib.Omega.{arith}

abbrev pub is_digit : ℕ → Bool
is_digit c = leb b'0' c && leb c b'9'

parse_digits-snoc :
    (bound acc n c : ℕ) (s : Text)
    → parse_digits 10 bound acc s ≡ some n
    → parse_digits 10 bound acc (s ++ c ∷ []) ≡ add_digit 10 bound n c
unfolding parse_digits
parse_digits-snoc bound acc n c [] h = ground arith
parse_digits-snoc bound acc n c (d ∷ s) h = elim (Option-cases (add_digit 10 bound acc d)) [
  | inl e ↦ ground (arith, e)
  | inr (m, e) ↦ ground (arith, e, parse_digits-snoc bound m n c s)
]

add_digit-low :
    (bound n k : ℕ)
    → k < 10
    → n * 10 + k < bound
    → add_digit 10 bound n (b'0' + k) ≡ some (n * 10 + k)
add_digit-low bound n k h l = ground arith

add_digit-div : (bound n : ℕ) → n < bound → add_digit 10 bound (n / 10) (b'0' + n % 10) ≡ some n
add_digit-div bound n h =
    add_digit-low bound (n / 10) (n % 10) (omega arith) (omega arith) ∙ ap some (omega arith)

is_empty-snoc : (s : Text) (c : ℕ) → is_empty (s ++ c ∷ []) ≡ false
is_empty-snoc [] c = refl
is_empty-snoc (d ∷ s) c = refl

last_digit : (n : ℕ) → is_digit (b'0' + n % 10) ≡ true
last_digit n = ground arith

parse-show_digits :
    (fuel n bound : ℕ)
    → n < fuel
    → n < bound
    → parse_digits 10 bound 0 (show_digits fuel n) ≡ some n
unfolding show_digits
parse-show_digits zero n bound h l = absurd (omega arith)
parse-show_digits (suc fuel) n bound h l = elim (Bool-cases (ltb n 10)) [
  | inl e ↦ rw e (unfold parse_digits in ground arith)
  | inr e ↦ rw e (
      parse_digits-snoc bound 0 (n / 10) (b'0' + n % 10) (show_digits fuel (n / 10))
        (parse-show_digits fuel (n / 10) bound (ground arith) (ground arith))
      ∙ add_digit-div bound n l)
]

show_digits-ne-nil : (fuel n : ℕ) → is_empty (show_digits (suc fuel) n) ≡ false
unfolding show_digits
show_digits-ne-nil fuel n = elim (Bool-cases (ltb n 10)) [
  | inl e ↦ rw e
  | inr e ↦ rw e (is_empty-snoc (show_digits fuel (n / 10)) (b'0' + n % 10))
]

show_digits-digits : (fuel n : ℕ) → All (λ c. is_digit c ≡ true) (show_digits fuel n)
unfolding show_digits
show_digits-digits zero n = tt
show_digits-digits (suc fuel) n = elim (Bool-cases (ltb n 10)) [
  | inl e ↦ rw e (ground arith, tt)
  | inr e ↦ rw e (
      All-append (λ c. is_digit c ≡ true) (show_digits fuel (n / 10)) ((b'0' + n % 10) ∷ [])
        (show_digits-digits fuel (n / 10)) (last_digit n, tt))
]

pub show_ℕ-digits : (n : ℕ) → All (λ c. is_digit c ≡ true) (show_ℕ n)
unfolding show_ℕ
show_ℕ-digits n = show_digits-digits (suc n) n

parse_uint-digits :
    (bound : ℕ) (s : Text)
    → is_empty s ≡ false
    → All (λ c. is_digit c ≡ true) s
    → parse_uint 10 bound s ≡ parse_digits 10 bound 0 s
unfolding parse_uint
parse_uint-digits bound [] h a = cc
parse_uint-digits bound (c ∷ s) h a = ground (arith, a.0)

-- What `to_string` prints of a number in range, `parse` reads back.
pub parse-show_ℕ : (n bound : ℕ) → n < bound → parse_uint 10 bound (show_ℕ n) ≡ some n
unfolding show_ℕ
parse-show_ℕ n bound h =
    parse_uint-digits bound (show_digits (suc n) n) (show_digits-ne-nil n n)
      (show_digits-digits (suc n) n)
    ∙ parse-show_digits (suc n) n bound (omega arith) h

pub show_ℕ_inj : (n m : ℕ) → show_ℕ n ≡ show_ℕ m → n ≡ m
show_ℕ_inj n m h =
    ground
      (arith, parse-show_ℕ n (n + m + 1) (omega arith), parse-show_ℕ m (n + m + 1) (omega arith))
