-- ===== src/Rules/Told.antt =====
-- What a client that follows the events knows of the rules: the list that crates/gui/src/state.rs
-- keeps, beside the list of crates/daemon/src/rules.rs.
use travelmode.Base.{
  ℕ, ◌≡◌, Bool, true, false, not, ◌&&◌, List, [], ◌∷◌, ◌++◌, map, some, arith, nat_beq, leb, retain,
  any, All, Unique, any-append, any-retain, any-retain-false, any-of_imp, any-but,
  any-eq-false_of_imp, Bool-cases, inl, inr,
}
use travelmode.Types.{
  Rule, Event, connection_opened, connection_updated, connection_closed, process_started,
  process_exited, rule_added, rule_removed, paused_changed, network_changed,
}
use travelmode.Rules.{remove_id}
use travelmode.Rules.Invariant.{same_id, any_from}
use travelmode.Rules.Removal.{any-remove_id, any-rest, remove_id-found}

abbrev pub has_id : ℕ → Rule → Bool
has_id id r = nat_beq r.id id

-- The rules that a client knows after an event.
unfoldable pub hear_rule : Event → List Rule → List Rule
hear_rule (rule_added rule) rules = retain (λ r. not (has_id rule.id r)) rules ++ rule ∷ []
hear_rule (rule_removed id) rules = retain (λ r. not (has_id id r)) rules
hear_rule (connection_opened conn) rules = rules
hear_rule (connection_updated conn) rules = rules
hear_rule (connection_closed key) rules = rules
hear_rule (paused_changed paused) rules = rules
hear_rule (network_changed network) rules = rules
hear_rule (process_started p) rules = rules
hear_rule (process_exited pid) rules = rules

-- Whatever some rule is, some known rule is.
abbrev pub AreKnown : List Rule → List Rule → Type 0
AreKnown rules known = (p : Rule → Bool) → any p rules ≡ true → any p known ≡ true

-- A rule without the id is not forgotten with it.
pub forget-AreKnown :
    (id : ℕ) (rules known : List Rule)
    → any (has_id id) rules ≡ false
    → AreKnown rules known
    → AreKnown rules (retain (λ r. not (has_id id r)) known)
forget-AreKnown id rules known n h p e = ground (
  arith,
  any-retain p (λ r. not (has_id id r)) known,
  h (λ r. not (has_id id r) && p r) (any-but p (has_id id) rules n e),
)

pub retain-AreKnown : (keep : Rule → Bool) (rules : List Rule) → AreKnown (retain keep rules) rules
retain-AreKnown keep rules p e =
    any-of_imp (λ r. keep r && p r) p rules (λ r h. ground arith)
      (ground (arith, any-retain p keep rules))

trans-AreKnown : (a b c : List Rule) → AreKnown a b → AreKnown b c → AreKnown a c
trans-AreKnown a b c h k p e = k p (h p e)

pub added-AreKnown :
    (rule : Rule) (keep : Rule → Bool) (rules known : List Rule)
    → any_from rule.id rules ≡ false
    → AreKnown rules known
    → AreKnown (retain keep rules ++ rule ∷ []) (hear_rule (rule_added rule) known)
unfolding hear_rule
added-AreKnown rule keep rules known f h p e =
    let fresh : any (has_id rule.id) rules ≡ false =
      any-eq-false_of_imp (has_id rule.id) (λ r. leb rule.id r.id) rules (λ r q. ground arith) f in
    let kept : AreKnown (retain keep rules) (retain (λ r. not (has_id rule.id r)) known) =
      trans-AreKnown (retain keep rules) rules (retain (λ r. not (has_id rule.id r)) known)
        (retain-AreKnown keep rules) (forget-AreKnown rule.id rules known fresh h) in
    ground (
      arith,
      any-append p (retain keep rules) (rule ∷ []),
      any-append p (retain (λ r. not (has_id rule.id r)) known) (rule ∷ []),
      kept p,
    )

pub removed-AreKnown :
    (id : ℕ) (rules known : List Rule) (r : Rule) (rest : List Rule)
    → remove_id id rules ≡ some (r, rest)
    → Unique same_id rules
    → AreKnown rules known
    → AreKnown rest (hear_rule (rule_removed id) known)
unfolding hear_rule
removed-AreKnown id rules known r rest e u h =
    let own : r.id ≡ id = remove_id-found id rules r rest e in
    let none_left : any (has_id id) rest ≡ false =
      any-rest same_id id rules r rest (has_id id) (λ x q. ground arith) (λ x q. ground arith) e
        u in
    forget-AreKnown id rest known none_left
      (λ p q. h p (ground (arith, any-remove_id id p rules r rest e)))

-- The ids of the rules that a filter finds.
abbrev pub ids_of : (Rule → Bool) → List Rule → List ℕ
ids_of dead rules = map (λ (r : Rule). r.id) (retain dead rules)

ids_of-unlike :
    (dead : Rule → Bool) (x : Rule) (rules : List Rule)
    → any (same_id x) rules ≡ false
    → All (λ id. has_id id x ≡ false) (ids_of dead rules)
ids_of-unlike dead x [] h = tt
ids_of-unlike dead x (r ∷ rules) h = elim (Bool-cases (dead r)) [
  | inl e ↦ rw e (ground arith, ids_of-unlike dead x rules (ground arith))
  | inr e ↦ rw e (ids_of-unlike dead x rules (ground arith))
]

gone-cons :
    (x : Rule) (rules : List Rule) (ids : List ℕ)
    → All (λ id. has_id id x ≡ false) ids
    → All (λ id. any (has_id id) rules ≡ false) ids
    → All (λ id. any (has_id id) (x ∷ rules) ≡ false) ids
gone-cons x rules [] h k = tt
gone-cons x rules (id ∷ ids) h k = (ground (arith, h.0, k.0), gone-cons x rules ids h.1 k.1)

-- What a filter finds is gone from the rest.
pub ids_of-gone :
    (dead : Rule → Bool) (rules : List Rule)
    → Unique same_id rules
    → All (λ id. any (has_id id) (retain (λ r. not (dead r)) rules) ≡ false) (ids_of dead rules)
ids_of-gone dead [] u = tt
ids_of-gone dead (x ∷ rules) u = elim (Bool-cases (dead x)) [
  | inl e ↦
      rw e
        (any-retain-false (has_id x.id) (λ r. not (dead r)) rules u.0, ids_of-gone dead rules u.1)
  | inr e ↦ rw e (
      gone-cons x (retain (λ r. not (dead r)) rules) (ids_of dead rules)
        (ids_of-unlike dead x rules u.0) (ids_of-gone dead rules u.1))
]
