-- ===== src/Conntrack/Key.antt =====
-- The flow key of crates/daemon/src/conntrack.rs identifies the flow.
use mathlib.Core.List.{append_assoc}
use mathlib.Core.Path.{subst}
use travelmode.Base.Parsing.{show_ℕ}
use travelmode.Base.Parsing.Decimal.{is_digit, show_ℕ-digits, show_ℕ_inj}
use travelmode.Base.{
  ℕ, ◌≡◌, ◌≢◌, refl, true, false, [], ◌∷◌, ◌++◌, Text, arith, All, All-append, sym, ◌∙◌,
}
use travelmode.Types.{Protocol, tcp, udp, other, IpAddr}
use travelmode.Conntrack.{AddrText, flow_key, proto_name}

abbrev pub Lacks : ℕ → Text → Type 0
Lacks d = All (λ c. c ≢ d)

-- Texts around the first, or the last, separator are determined.
split_first :
    (d : ℕ) (a a' b b' : Text)
    → Lacks d a
    → Lacks d a'
    → a ++ (d ∷ b) ≡ a' ++ (d ∷ b')
    → (a ≡ a') × (b ≡ b')
split_first d [] [] b b' l l' e = ground arith
split_first d [] (c ∷ a') b b' l l' e = absurd (ground arith)
split_first d (c ∷ a) [] b b' l l' e = absurd (ground arith)
split_first d (c ∷ a) (c' ∷ a') b b' l l' e = ground (arith, split_first d a a' b b' l.1 l'.1)

-- No text with a separator in it is one that lacks it.
Lacks-no_cons : (d : ℕ) (a b : Text) → Lacks d (a ++ (d ∷ b)) → ⊥
Lacks-no_cons d [] b l = l.0 refl
Lacks-no_cons d (c ∷ a) b l = Lacks-no_cons d a b l.1

split_last :
    (d : ℕ) (a a' b b' : Text)
    → Lacks d b
    → Lacks d b'
    → a ++ (d ∷ b) ≡ a' ++ (d ∷ b')
    → (a ≡ a') × (b ≡ b')
split_last d [] [] b b' l l' e = ground arith
split_last d [] (c ∷ a') b b' l l' e =
    absurd (Lacks-no_cons d a' b' (subst (Lacks d) {x = b} {y = a' ++ (d ∷ b')} (ground arith) l))
split_last d (c ∷ a) [] b b' l l' e =
    absurd (Lacks-no_cons d a b (subst (Lacks d) {x = b'} {y = a ++ (d ∷ b)} (ground arith) l'))
split_last d (c ∷ a) (c' ∷ a') b b' l l' e = ground (arith, split_last d a a' b b' l l')

digits-Lacks : (d : ℕ) (s : Text) → is_digit d ≡ false → All (λ c. is_digit c ≡ true) s → Lacks d s
digits-Lacks d [] h a = tt
digits-Lacks d (c ∷ s) h a = (λ e. ground arith, digits-Lacks d s h a.1)

-- `Display` of addresses writes no dash, and different addresses differently.
pub record IsFaithful (a : AddrText) : Type 0 where
  pub no_dash : (ip : IpAddr) → Lacks b'-' (a.show ip)
  pub show_inj : (x y : IpAddr) → a.show x ≡ a.show y → x ≡ y

end_point :
    (a : AddrText) (x y : IpAddr) (n m : ℕ)
    → IsFaithful a
    → a.show x ++ (b':' ∷ show_ℕ n) ≡ a.show y ++ (b':' ∷ show_ℕ m)
    → (x ≡ y) × (n ≡ m)
end_point a x y n m f e =
    let (p, q) =
      split_last b':' (a.show x) (a.show y) (show_ℕ n) (show_ℕ m)
        (digits-Lacks b':' (show_ℕ n) refl (show_ℕ-digits n))
        (digits-Lacks b':' (show_ℕ m) refl (show_ℕ-digits m)) e in
    (f.show_inj x y p, show_ℕ_inj n m q)

proto-Lacks : (p : Protocol) → Lacks b':' (proto_name p)
proto-Lacks tcp = omega arith
proto-Lacks udp = omega arith
proto-Lacks other = tt

proto_inj : (p q : Protocol) → proto_name p ≡ proto_name q → p ≡ q
proto_inj tcp q e = ground arith
proto_inj udp q e = ground arith
proto_inj other q e = ground arith

local-Lacks :
    (a : AddrText) (x : IpAddr) (n : ℕ) → IsFaithful a → Lacks b'-' (a.show x ++ (b':' ∷ show_ℕ n))
local-Lacks a x n f =
    All-append (λ c. c ≢ b'-') (a.show x) (b':' ∷ show_ℕ n) (f.no_dash x)
      (omega arith, digits-Lacks b'-' (show_ℕ n) refl (show_ℕ-digits n))

-- Where addresses have distinct text forms without a dash, two flows with the same key have the
-- same protocol, addresses and ports.
pub flow_key_inj :
    (a : AddrText) (p q : Protocol) (x y x' y' : IpAddr) (n m n' m' : ℕ)
    → IsFaithful a
    → flow_key a p x n y m ≡ flow_key a q x' n' y' m'
    → (p ≡ q) × (x ≡ x') × (n ≡ n') × (y ≡ y') × (m ≡ m')
unfolding flow_key
flow_key_inj a p q x y x' y' n m n' m' f e =
    let (pe, rest) =
      split_first b':' (proto_name p) (proto_name q) _ _ (proto-Lacks p) (proto-Lacks q) e in
    let (le, re) =
      split_first b'-' (a.show x ++ (b':' ∷ show_ℕ n)) (a.show x' ++ (b':' ∷ show_ℕ n'))
        (a.show y ++ (b':' ∷ show_ℕ m)) (a.show y' ++ (b':' ∷ show_ℕ m')) (local-Lacks a x n f)
        (local-Lacks a x' n' f)
        (append_assoc (a.show x) (b':' ∷ show_ℕ n) _
          ∙ rest
          ∙ sym (append_assoc (a.show x') (b':' ∷ show_ℕ n') _)) in
    let (xe, ne) = end_point a x x' n n' f le in
    let (ye, me) = end_point a y y' m m' f re in (proto_inj p q pe, xe, ne, ye, me)
