-- ===== src/Base/Tests.antt =====
-- Boolean tests on the native numbers, the conditional, and keys compared by an equivalence.
use Prim.Native.Nat.{ℕ, compare, Ordering}
use mathlib.Core.Path.{◌≡◌, refl, sym, ◌∙◌}
use mathlib.Core.Logic.{◌↔◌, ◌⊎◌, inl, inr}
use mathlib.Core.Bool.{Bool, true, false}
use mathlib.Core.Option.{Option, none, some}
use native.Mathlib.Omega.{arith}

abbrev pub ltb : ℕ → ℕ → Bool
ltb a b = elim (compare a b) [ Ordering.lt ↦ true | _ ↦ false ]

abbrev pub leb : ℕ → ℕ → Bool
leb a b = elim (compare a b) [ Ordering.gt ↦ false | _ ↦ true ]

abbrev pub nat_beq : ℕ → ℕ → Bool
nat_beq a b = elim (compare a b) [ Ordering.eq ↦ true | _ ↦ false ]

infix 1 if◌then◌else◌
abbrev pub if◌then◌else◌ {ℓ} : {A : Type ℓ} → Bool → A → A → A
if true then x else y = x
if false then x else y = y

pub nat_beq_iff : (a b : ℕ) → (nat_beq a b ≡ true) ↔ (a ≡ b)
nat_beq_iff a b = ground arith

pub Bool-cases : (b : Bool) → (b ≡ true) ⊎ (b ≡ false)
Bool-cases true = inl refl
Bool-cases false = inr refl

pub Option-cases {ℓ} : {A : Type ℓ} (o : Option A) → (o ≡ none) ⊎ ((a : A) × (o ≡ some a))
Option-cases none = inl refl
Option-cases (some a) = inr (a, refl)

abbrev pub is_some {ℓ} : {A : Type ℓ} → Option A → Bool
is_some none = false
is_some (some a) = true

-- A type whose values are compared by a Boolean equivalence: `Eq` and `Hash` in the source, which
-- need not be the identity (paths compare by their components).
pub record Key {ℓ} (K : Type ℓ) : Type ℓ where
  pub beq : K → K → Bool
  pub beq_refl : (a : K) → beq a a ≡ true
  pub beq_congr : (a b c : K) → beq a b ≡ true → beq a c ≡ beq b c

infix 50 ◌==◌
abbrev pub ◌==◌ {ℓ} : {K : Type ℓ} ⦃e : Key K⦄ → K → K → Bool
◌==◌ ⦃e⦄ = e.beq

pub nat_beq_refl : (a : ℕ) → nat_beq a a ≡ true
nat_beq_refl a = ground arith

pub nat_beq_congr : (a b c : ℕ) → nat_beq a b ≡ true → nat_beq a c ≡ nat_beq b c
nat_beq_congr a b c h = ground arith

instance abbrev pub nat_key : Key ℕ
nat_key = record { beq = nat_beq; beq_refl = nat_beq_refl; beq_congr = nat_beq_congr }

module _ {ℓ} {K : Type ℓ} ⦃e : Key K⦄ where
  pub beq_sym_true : (a b : K) → e.beq a b ≡ true → e.beq b a ≡ true
  beq_sym_true a b h = sym (e.beq_congr a b a h) ∙ e.beq_refl a

  pub beq_sym : (a b : K) → e.beq a b ≡ e.beq b a
  beq_sym a b = ground (arith, beq_sym_true a b, beq_sym_true b a)

  -- Both arguments may be replaced by equivalent keys.
  pub beq_congr_right : (a b c : K) → e.beq a b ≡ true → e.beq c a ≡ e.beq c b
  beq_congr_right a b c h = beq_sym c a ∙ e.beq_congr a b c h ∙ beq_sym b c
