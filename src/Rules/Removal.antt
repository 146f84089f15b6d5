-- ===== src/Rules/Removal.antt =====
-- What `remove_id`, the search and removal of crates/daemon/src/rules.rs, does to a list of rules.
use travelmode.Base.{
  ℕ, ◌≡◌, Bool, true, false, ◌||◌, List, [], ◌∷◌, some, arith, nat_beq, any, any-eq-false_of_imp,
  Bool-cases, Unique, Option-cases, inl, inr, ◌⊎◌,
}
use travelmode.Types.{Rule}
use travelmode.Rules.{remove_id}

-- A test of the list is the test of the removed rule or of the rest.
pub any-remove_id :
    (id : ℕ) (p : Rule → Bool) (rs : List Rule) (r : Rule) (rest : List Rule)
    → remove_id id rs ≡ some (r, rest)
    → any p rs ≡ (p r || any p rest)
unfolding remove_id
any-remove_id id p [] r rest h = cc
any-remove_id id p (x ∷ rs) r rest h = elim (Option-cases (remove_id id rs)) [
  | inl e ↦ ground arith
  | inr ((y, l), e) ↦ ground (arith, any-remove_id id p rs y l e)
]

-- The two ways in which a removal comes about.
remove_id-cases :
    (id : ℕ) (x : Rule) (rs : List Rule) (r : Rule) (rest : List Rule)
    → remove_id id (x ∷ rs) ≡ some (r, rest)
    → (r ≡ x) × (rest ≡ rs) ⊎ ((l : List Rule) × (remove_id id rs ≡ some (r, l)) × (rest ≡ x ∷ l))
unfolding remove_id
remove_id-cases id x rs r rest h = elim (Option-cases (remove_id id rs)) [
  | inl e ↦ inl (ground arith)
  | inr ((y, l), e) ↦ elim (Bool-cases (nat_beq x.id id)) [
    | inl t ↦ inl (ground arith)
    | inr t ↦ inr (l, ground arith, ground arith)
  ]
]

pub Unique-remove_id :
    (same : Rule → Rule → Bool) (id : ℕ) (rs : List Rule) (r : Rule) (rest : List Rule)
    → remove_id id rs ≡ some (r, rest)
    → Unique same rs
    → Unique same rest
Unique-remove_id same id [] r rest h u = absurd (unfold remove_id in cc)
Unique-remove_id same id (x ∷ rs) r rest h u = elim (remove_id-cases id x rs r rest h) [
  | inl (_, e) ↦ rw e u.1
  | inr (l, e, e') ↦
      rw e'
        (ground (arith, any-remove_id id (same x) rs r l e), Unique-remove_id same id rs r l e u.1)
]

-- The rule that is removed is alone in a list of unlike ones: for a test that only rules like it
-- pass, nothing that passes is left.
pub any-rest :
    (same : Rule → Rule → Bool) (id : ℕ) (rs : List Rule) (r : Rule) (rest : List Rule)
    (p : Rule → Bool)
    → ((x : Rule) → p x ≡ true → same r x ≡ true)
    → ((x : Rule) → p x ≡ true → same x r ≡ true)
    → remove_id id rs ≡ some (r, rest)
    → Unique same rs
    → any p rest ≡ false
any-rest same id [] r rest p f g h u = absurd (unfold remove_id in cc)
any-rest same id (x ∷ rs) r rest p f g h u = elim (remove_id-cases id x rs r rest h) [
  | inl (e, e') ↦ rw e' (any-eq-false_of_imp p (same x) rs (λ y py. rw (← e) (f y py)) u.0)
  | inr (l, e, e') ↦
      rw e' (
        ground
          (arith, g x, any-remove_id id (same x) rs r l e, any-rest same id rs r l p f g e u.1))
]

-- The removed rule was in the list, with the id.
pub remove_id-found :
    (id : ℕ) (rs : List Rule) (r : Rule) (rest : List Rule)
    → remove_id id rs ≡ some (r, rest)
    → r.id ≡ id
unfolding remove_id
remove_id-found id [] r rest h = cc
remove_id-found id (x ∷ rs) r rest h = elim (Option-cases (remove_id id rs)) [
  | inl e ↦ ground (arith)
  | inr ((y, l), e) ↦ ground (arith, remove_id-found id rs y l e)
]
