-- ===== src/Rules/Replay.antt =====
-- Events on rules that a client of crates/gui/src/state.rs handles late, after it has fetched a newer
-- list: which of them leave what it knows of the list alone.
use travelmode.Base.{
  ℕ, ◌<◌, ◌≤◌, ◌≡◌, Bool, true, false, not, ◌&&◌, List, [], ◌∷◌, ◌++◌, arith, leb, retain, any,
  any-append, any-retain, any-but, any-eq-false_of_imp, any-of_imp, Bool-cases, inl, inr,
}
use travelmode.Types.{
  Rule, Event, connection_opened, connection_updated, connection_closed, process_started,
  process_exited, rule_added, rule_removed, paused_changed, network_changed,
}
use travelmode.Rules.Invariant.{any_from}
use travelmode.Rules.Told.{has_id, hear_rule, AreKnown, forget-AreKnown}

-- The event takes no rule of the list away: a removed id is in none, and a rule of an added one's id
-- is that one.
abbrev pub Spares : List Rule → Event → Type 0
Spares rules (rule_removed id) = any (has_id id) rules ≡ false
Spares rules (rule_added r) =
    (p : Rule → Bool) → any (λ x. has_id r.id x && p x) rules ≡ true → p r ≡ true
Spares rules (connection_opened _) = Unit
Spares rules (connection_updated _) = Unit
Spares rules (connection_closed _) = Unit
Spares rules (paused_changed _) = Unit
Spares rules (network_changed _) = Unit
Spares rules (process_started _) = Unit
Spares rules (process_exited _) = Unit

-- The event is about an id that has been handed out.
abbrev pub IsOld : ℕ → Event → Type 0
IsOld n (rule_removed id) = id < n
IsOld n (rule_added r) = r.id < n
IsOld n (connection_opened _) = Unit
IsOld n (connection_updated _) = Unit
IsOld n (connection_closed _) = Unit
IsOld n (paused_changed _) = Unit
IsOld n (network_changed _) = Unit
IsOld n (process_started _) = Unit
IsOld n (process_exited _) = Unit

hear_added-AreKnown :
    (r : Rule) (rules known : List Rule)
    → Spares rules (rule_added r)
    → AreKnown rules known
    → AreKnown rules (hear_rule (rule_added r) known)
unfolding hear_rule
hear_added-AreKnown r rules known s h p e =
    elim (Bool-cases (any (λ x. has_id r.id x && p x) rules)) [
      | inl t ↦
          ground (arith, s p t, any-append p (retain (λ x. not (has_id r.id x)) known) (r ∷ []))
      | inr t ↦ ground (
        arith,
        any-append p (retain (λ x. not (has_id r.id x)) known) (r ∷ []),
        any-retain p (λ x. not (has_id r.id x)) known,
        h (λ x. not (has_id r.id x) && p x)
            (any-of_imp (λ x. not (has_id r.id x && p x) && p x) (λ x. not (has_id r.id x) && p x)
              rules (λ x q. ground arith) (any-but p (λ x. has_id r.id x && p x) rules t e)),
      )
    ]

-- Such an event may be handled late.
pub hear_rule-AreKnown :
    (e : Event) (rules known : List Rule)
    → Spares rules e
    → AreKnown rules known
    → AreKnown rules (hear_rule e known)
unfolding hear_rule
hear_rule-AreKnown (rule_added r) rules known s h = hear_added-AreKnown r rules known s h
hear_rule-AreKnown (rule_removed id) rules known s h = forget-AreKnown id rules known s h
hear_rule-AreKnown (connection_opened _) rules known s h = h
hear_rule-AreKnown (connection_updated _) rules known s h = h
hear_rule-AreKnown (connection_closed _) rules known s h = h
hear_rule-AreKnown (paused_changed _) rules known s h = h
hear_rule-AreKnown (network_changed _) rules known s h = h
hear_rule-AreKnown (process_started _) rules known s h = h
hear_rule-AreKnown (process_exited _) rules known s h = h

any-not_known :
    (p : Rule → Bool) (rules known : List Rule)
    → AreKnown rules known
    → any p known ≡ false
    → any p rules ≡ false
any-not_known p rules known h e = ground (arith, h p, Bool-cases (any p rules))

-- What is said of a list is said of its part.
pub part-Spares :
    (e : Event) (rules part : List Rule) → AreKnown part rules → Spares rules e → Spares part e
part-Spares (rule_added r) rules part h s = λ p q. s p (h (λ x. has_id r.id x && p x) q)
part-Spares (rule_removed id) rules part h s = any-not_known (has_id id) part rules h s
part-Spares (connection_opened _) rules part h s = tt
part-Spares (connection_updated _) rules part h s = tt
part-Spares (connection_closed _) rules part h s = tt
part-Spares (paused_changed _) rules part h s = tt
part-Spares (network_changed _) rules part h s = tt
part-Spares (process_started _) rules part h s = tt
part-Spares (process_exited _) rules part h s = tt

-- An older event spares a rule with a new id, too.
pub append-Spares :
    (e : Event) (rules : List Rule) (new : Rule)
    → IsOld new.id e
    → Spares rules e
    → Spares (rules ++ new ∷ []) e
append-Spares (rule_added r) rules new o s =
    λ p q. s p (ground (arith, any-append (λ x. has_id r.id x && p x) rules (new ∷ [])))
append-Spares (rule_removed id) rules new o s =
    ground (arith, any-append (has_id id) rules (new ∷ []))
append-Spares (connection_opened _) rules new o s = tt
append-Spares (connection_updated _) rules new o s = tt
append-Spares (connection_closed _) rules new o s = tt
append-Spares (paused_changed _) rules new o s = tt
append-Spares (network_changed _) rules new o s = tt
append-Spares (process_started _) rules new o s = tt
append-Spares (process_exited _) rules new o s = tt

-- The event of a rule with a fresh id spares it and the older ones.
pub added-Spares :
    (rules : List Rule) (new : Rule)
    → any_from new.id rules ≡ false
    → Spares (rules ++ new ∷ []) (rule_added new)
added-Spares rules new f p q =
    let none_other : any (λ x. has_id new.id x && p x) rules ≡ false =
      any-eq-false_of_imp (λ x. has_id new.id x && p x) (λ x. leb new.id x.id) rules
        (λ x t. ground arith) f in
    ground (arith, any-append (λ x. has_id new.id x && p x) rules (new ∷ []))

pub IsOld-le : (e : Event) (m n : ℕ) → m ≤ n → IsOld m e → IsOld n e
IsOld-le (rule_added r) m n h o = omega arith
IsOld-le (rule_removed id) m n h o = omega arith
IsOld-le (connection_opened _) m n h o = tt
IsOld-le (connection_updated _) m n h o = tt
IsOld-le (connection_closed _) m n h o = tt
IsOld-le (paused_changed _) m n h o = tt
IsOld-le (network_changed _) m n h o = tt
IsOld-le (process_started _) m n h o = tt
IsOld-le (process_exited _) m n h o = tt
