-- ===== src/Base/Lists.antt =====
-- Lists measured and indexed by native numbers, and searched by Boolean tests.
use Prim.Native.Nat.{ℕ, zero, suc, ◌+◌, ◌≤◌}
use mathlib.Core.Path.{◌≡◌, refl, ap}
use mathlib.Core.Bool.{Bool, true, false, not, ◌&&◌, ◌||◌}
use mathlib.Core.List.{List, [], ◌∷◌, ◌++◌}
use mathlib.Core.Option.{Option, none, some}
use native.Mathlib.Omega.{arith}
use mathlib.Core.Logic.{inl, inr}
use travelmode.Base.Tests.{if◌then◌else◌, Bool-cases}

module _ {ℓ} {A : Type ℓ} where
  abbrev pub length : List A → ℕ
  length [] = 0
  length (x ∷ xs) = suc (length xs)

  abbrev pub is_empty : List A → Bool
  is_empty [] = true
  is_empty (x ∷ xs) = false

  abbrev pub get_elem? : List A → ℕ → Option A
  get_elem? [] i = none
  get_elem? (x ∷ xs) zero = some x
  get_elem? (x ∷ xs) (suc i) = get_elem? xs i

  abbrev pub take : ℕ → List A → List A
  take zero xs = []
  take (suc n) [] = []
  take (suc n) (x ∷ xs) = x ∷ take n xs

  abbrev pub drop : ℕ → List A → List A
  drop zero xs = xs
  drop (suc n) [] = []
  drop (suc n) (x ∷ xs) = drop n xs

  pub length-append : (xs ys : List A) → length (xs ++ ys) ≡ length xs + length ys
  length-append [] ys = omega arith
  length-append (x ∷ xs) ys = omega (arith, length-append xs ys)

  pub take-append : (xs ys : List A) → take (length xs) (xs ++ ys) ≡ xs
  take-append [] ys = refl
  take-append (x ∷ xs) ys = ap (◌∷◌ x) (take-append xs ys)

  pub drop-append : (xs ys : List A) → drop (length xs) (xs ++ ys) ≡ ys
  drop-append [] ys = refl
  drop-append (x ∷ xs) ys = drop-append xs ys

  -- `Vec::retain`, `Iterator::filter`.
  abbrev pub retain : (A → Bool) → List A → List A
  retain p [] = []
  retain p (x ∷ xs) = let rest = retain p xs in if p x then x ∷ rest else rest

  -- `Iterator::any`.
  abbrev pub any : (A → Bool) → List A → Bool
  any p [] = false
  any p (x ∷ xs) = p x || any p xs

  -- `Iterator::find`.
  abbrev pub find : (A → Bool) → List A → Option A
  find p [] = none
  find p (x ∷ xs) = let rest = find p xs in if p x then some x else rest

  abbrev pub All {κ} : (A → Type κ) → List A → Type κ
  All P [] = Unit
  All P (x ∷ xs) = P x × All P xs

  pub length-retain-le : (p : A → Bool) (xs : List A) → length (retain p xs) ≤ length xs
  length-retain-le p [] = omega arith
  length-retain-le p (x ∷ xs) = ground (arith, length-retain-le p xs)

  -- A filter that drops nothing by count drops nothing.
  pub retain-eq_of_length :
      (p : A → Bool) (xs : List A) → length (retain p xs) ≡ length xs → retain p xs ≡ xs
  retain-eq_of_length p [] h = refl
  retain-eq_of_length p (x ∷ xs) h = ground (arith, retain-eq_of_length p xs, length-retain-le p xs)

  pub any-append : (p : A → Bool) (xs ys : List A) → any p (xs ++ ys) ≡ (any p xs || any p ys)
  any-append p [] ys = refl
  any-append p (x ∷ xs) ys = ground (arith, any-append p xs ys)

  pub All-retain {κ} :
      (P : A → Type κ) (p : A → Bool) (xs : List A) → All P xs → All P (retain p xs)
  All-retain P p [] h = tt
  All-retain P p (x ∷ xs) h = elim (Bool-cases (p x)) [
    | inl e ↦ rw e (h.0, All-retain P p xs h.1)
    | inr e ↦ rw e (All-retain P p xs h.1)
  ]

  pub All-append {κ} : (P : A → Type κ) (xs ys : List A) → All P xs → All P ys → All P (xs ++ ys)
  All-append P [] ys h k = k
  All-append P (x ∷ xs) ys h k = (h.0, All-append P xs ys h.1 k)

  pub any-retain_none :
      (p keep : A → Bool) (xs : List A)
      → ((x : A) → p x ≡ true → keep x ≡ false)
      → any p (retain keep xs) ≡ false
  any-retain_none p keep [] h = refl
  any-retain_none p keep (x ∷ xs) h = ground (arith, h x, any-retain_none p keep xs h)

  pub any-retain_all :
      (p keep : A → Bool) (xs : List A)
      → ((x : A) → p x ≡ true → keep x ≡ true)
      → any p (retain keep xs) ≡ any p xs
  any-retain_all p keep [] h = refl
  any-retain_all p keep (x ∷ xs) h = ground (arith, h x, any-retain_all p keep xs h)

  pub any-eq-false_of_imp :
      (p q : A → Bool) (xs : List A)
      → ((x : A) → p x ≡ true → q x ≡ true)
      → any q xs ≡ false
      → any p xs ≡ false
  any-eq-false_of_imp p q [] h e = refl
  any-eq-false_of_imp p q (x ∷ xs) h e = ground (arith, h x, any-eq-false_of_imp p q xs h)

  pub any-retain-false :
      (p keep : A → Bool) (xs : List A) → any p xs ≡ false → any p (retain keep xs) ≡ false
  any-retain-false p keep [] h = refl
  any-retain-false p keep (x ∷ xs) h = ground (arith, any-retain-false p keep xs)

  -- A test of what a filter keeps.
  pub any-retain :
      (p keep : A → Bool) (xs : List A) → any p (retain keep xs) ≡ any (λ x. keep x && p x) xs
  any-retain p keep [] = refl
  any-retain p keep (x ∷ xs) = ground (arith, any-retain p keep xs)

  pub any-of_imp :
      (p q : A → Bool) (xs : List A)
      → ((x : A) → p x ≡ true → q x ≡ true)
      → any p xs ≡ true
      → any q xs ≡ true
  any-of_imp p q [] h e = absurd (ground arith)
  any-of_imp p q (x ∷ xs) h e = ground (arith, h x, any-of_imp p q xs h)

  -- What passes one test and fails another that nothing passes.
  pub any-but :
      (p q : A → Bool) (xs : List A)
      → any q xs ≡ false
      → any p xs ≡ true
      → any (λ x. not (q x) && p x) xs ≡ true
  any-but p q [] h e = absurd (ground arith)
  any-but p q (x ∷ xs) h e = ground (arith, any-but p q xs)

  -- No entry is related to a later one.
  abbrev pub Unique : (A → A → Bool) → List A → Type 0
  Unique same [] = Unit
  Unique same (x ∷ xs) = (any (same x) xs ≡ false) × Unique same xs

  pub Unique-retain :
      (same : A → A → Bool) (keep : A → Bool) (xs : List A)
      → Unique same xs
      → Unique same (retain keep xs)
  Unique-retain same keep [] u = tt
  Unique-retain same keep (x ∷ xs) u = elim (Bool-cases (keep x)) [
    | inl e ↦ rw e (any-retain-false (same x) keep xs u.0, Unique-retain same keep xs u.1)
    | inr e ↦ rw e (Unique-retain same keep xs u.1)
  ]

  pub Unique-snoc :
      (same : A → A → Bool) (xs : List A) (y : A)
      → Unique same xs
      → All (λ x. same x y ≡ false) xs
      → Unique same (xs ++ y ∷ [])
  Unique-snoc same [] y u h = (refl, tt)
  Unique-snoc same (x ∷ xs) y u h =
      (ground (arith, any-append (same x) xs (y ∷ [])), Unique-snoc same xs y u.1 h.1)

  pub All-of_imp {κ μ} :
      (P : A → Type κ) (Q : A → Type μ) (xs : List A) → ((x : A) → P x → Q x) → All P xs → All Q xs
  All-of_imp P Q [] f h = tt
  All-of_imp P Q (x ∷ xs) f h = (f x h.0, All-of_imp P Q xs f h.1)

  -- What a filter keeps passed it.
  pub All-retain_self : (keep : A → Bool) (xs : List A) → All (λ x. keep x ≡ true) (retain keep xs)
  All-retain_self keep [] = tt
  All-retain_self keep (x ∷ xs) = elim (Bool-cases (keep x)) [
    | inl e ↦ rw e (e, All-retain_self keep xs)
    | inr e ↦ rw e (All-retain_self keep xs)
  ]
