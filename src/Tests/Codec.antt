-- ===== src/Tests/Codec.antt =====
-- A concrete text form of a rule store, which stands for serde_json in the tests of the rule store.
use travelmode.Base.{
  ℕ, zero, suc, ◌-◌, ◌+◌, ◌*◌, ◌≡◌, refl, Bool, true, false, List, [], ◌∷◌, ◌++◌, Option, none,
  some, arith, length, take, drop, take-append, drop-append, Text, ltb, nat_beq, ℤ, pos, negsuc,
  if◌then◌else◌,
}
use travelmode.Types.{Rule, RuleAction, allow, block}
use travelmode.Rules.{Persisted, Platform}
use travelmode.Rules.Expiry.{max_seconds, nanos, IsDocumented}

infixl 5 ◌>>=◌
abbrev ◌>>=◌ {ℓ κ} : {A : Type ℓ} {B : Type κ} → Option A → (A → Option B) → Option B
none >>= f = none
some a >>= f = f a

put_text : Text → Text → Text
put_text t k = length t ∷ t ++ k

get_text : Text → Option (Text × Text)
get_text [] = none
get_text (n ∷ s) = some (take n s, drop n s)

get-put_text : (t k : Text) → get_text (put_text t k) ≡ some (t, k)
unfolding put_text get_text
get-put_text t k = ground (arith, take-append t k, drop-append t k)

abbrev of_bool : Bool → ℕ
of_bool false = 0
of_bool true = 1

abbrev of_action : RuleAction → ℕ
of_action allow = 0
of_action block = 1

abbrev to_action : ℕ → RuleAction
to_action n = if nat_beq n 1 then block else allow

put_expiry : Option ℕ → Text → Text
put_expiry none k = 0 ∷ 0 ∷ k
put_expiry (some t) k = 1 ∷ t ∷ k

put_rule : Rule → Text → Text
put_rule r k =
    r.id
    ∷ of_action r.action
    ∷ of_bool r.persistent
    ∷ r.updated_at
    ∷ put_expiry r.expires_at (put_text r.name (put_text r.exe_path.display (put_text r.profile k)))

get_fields : ℕ → ℕ → ℕ → ℕ → Option ℕ → Text → Option (Rule × Text)
get_fields id a p u x s = do
  (name, s1) ← get_text s
  (exe, s2) ← get_text s1
  (profile, s3) ← get_text s2
  some (
    record {
      id = id;
      name = name;
      exe_path = record { display = exe };
      action = to_action a;
      persistent = nat_beq p 1;
      expires_at = x;
      profile = profile;
      updated_at = u;
    },
    s3,
  )

get_rule : Text → Option (Rule × Text)
get_rule (id ∷ a ∷ p ∷ u ∷ e ∷ x ∷ s) = get_fields id a p u (if nat_beq e 1 then some x else none) s
get_rule _ = none

get-put_rule : (r : Rule) (k : Text) → get_rule (put_rule r k) ≡ some (r, k)
unfolding put_rule get_rule get_fields put_expiry
get-put_rule r k = ground (
  arith,
  get-put_text r.name (put_text r.exe_path.display (put_text r.profile k)),
  get-put_text r.exe_path.display (put_text r.profile k),
  get-put_text r.profile k,
)

put_rules : List Rule → Text
put_rules [] = []
put_rules (r ∷ rs) = put_rule r (put_rules rs)

get_rules : ℕ → Text → Option (List Rule)
get_rules zero s = some []
get_rules (suc n) s = do (r, s') ← get_rule s; rs ← get_rules n s'; some (r ∷ rs)

get-put_rules : (rs : List Rule) → get_rules (length rs) (put_rules rs) ≡ some rs
unfolding put_rules get_rules
get-put_rules [] = refl
get-put_rules (r ∷ rs) = ground (arith, get-put_rule r (put_rules rs), get-put_rules rs)

unfoldable pub to_text : Persisted → Option Text
unfolding put_rules put_rule put_expiry put_text
to_text q = some (q.next_id ∷ length q.rules ∷ put_rules q.rules)

unfoldable pub from_text : Text → Option Persisted
unfolding get_rules get_rule get_fields get_text
from_text (n ∷ c ∷ s) = do rs ← get_rules c s; some (record { next_id = n; rules = rs })
from_text _ = none

pub parses : (q : Persisted) (t : Text) → to_text q ≡ some t → from_text t ≡ some q
unfolding to_text from_text
parses q t h = ground (arith, get-put_rules q.rules)

-- The last second that chrono represents.
abbrev pub latest : ℕ
latest = 8210266876799000000000

unfoldable pub seconds : ℤ → Option ℤ
seconds (pos n) = if ltb max_seconds n then none else some (pos (n * nanos))
seconds (negsuc n) = if ltb n max_seconds then some (negsuc (n * nanos + (nanos - 1))) else none

unfoldable pub checked_add_signed : ℕ → ℤ → Option ℕ
checked_add_signed t (pos d) = if ltb latest (t + d) then none else some (t + d)
checked_add_signed t (negsuc d) = if ltb d t then some (t - suc d) else none

abbrev pub plain : Platform
plain = record {
  to_string_pretty = to_text;
  from_str = from_text;
  seconds = seconds;
  checked_add_signed = checked_add_signed;
}

pub plain-IsDocumented : IsDocumented plain latest
unfolding seconds checked_add_signed
plain-IsDocumented = record {
  seconds_in_range = λ n h. ground arith;
  seconds_above = λ n h. ground arith;
  seconds_negative = λ n h. ground arith;
  seconds_below = λ n h. ground arith;
  add_in_range = λ t d h. ground arith;
  add_above = λ t d h. ground arith;
  add_negative = λ t d h k. ground arith;
}
