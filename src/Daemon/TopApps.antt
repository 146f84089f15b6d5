-- ===== src/Daemon/TopApps.antt =====
-- `top_apps` of crates/daemon/src/main.rs. The map of applications is in the order in which their
-- first connections come; `sort_by_key` is a stable insertion sort.
use travelmode.Base.Map
use travelmode.Base.Map.{Map}
use travelmode.Base.{
  ℕ, ◌+◌, ◌%◌, ◌≡◌, refl, true, false, List, [], ◌∷◌, map, none, some, Text, text, text_key, leb,
  add_u64, add_u32, u64_mod, arith, if◌then◌else◌, Bool-cases, inl, inr,
}
use mathlib.Core.Option
use travelmode.Types.{ConnectionInfo, AppUsage}
use travelmode.Rules.{is_blocked}
use travelmode.State.{DaemonState}

-- `conn.exe`, else the process name, else "unknown".
abbrev pub usage_key : ConnectionInfo → Text
usage_key conn = elim conn.exe [
  | some p ↦ p.display
  | none ↦ Option.get_or conn.process_name (text "unknown")
]

abbrev pub new_usage : ConnectionInfo → AppUsage
new_usage conn = record {
  name = Option.get_or conn.process_name (text "unknown");
  exe = conn.exe;
  bytes_sent = 0;
  bytes_recv = 0;
  connections = 0;
  blocked = false;
}

abbrev pub count_usage : ConnectionInfo → AppUsage → AppUsage
count_usage conn u = record u {
  bytes_sent = add_u64 u.bytes_sent conn.bytes_sent;
  bytes_recv = add_u64 u.bytes_recv conn.bytes_recv;
  connections = add_u32 u.connections 1;
}

unfoldable pub tally : List ConnectionInfo → Map Text AppUsage → Map Text AppUsage
tally [] apps = apps
tally (conn ∷ conns) apps =
    tally conns (Map.update_or (usage_key conn) (new_usage conn) (count_usage conn) apps)

abbrev pub total : AppUsage → ℕ
total u = add_u64 u.bytes_sent u.bytes_recv

-- Largest totals first; equal ones keep their order.
unfoldable pub insert_app : AppUsage → List AppUsage → List AppUsage
insert_app u [] = u ∷ []
insert_app u (v ∷ vs) = if leb (total v) (total u) then u ∷ v ∷ vs else v ∷ insert_app u vs

unfoldable pub sort_apps : List AppUsage → List AppUsage
unfolding insert_app
sort_apps [] = []
sort_apps (u ∷ us) = insert_app u (sort_apps us)

abbrev pub mark : DaemonState → ℕ → AppUsage → AppUsage
mark s now u = record u {
  blocked = elim u.exe [ none ↦ false | some exe ↦ is_blocked s.rules exe now ];
}

unfoldable pub top_apps : DaemonState → ℕ → List AppUsage
unfolding sort_apps tally
top_apps s now = sort_apps (map (mark s now) (Map.values (tally (Map.values s.connections) [])))

-- Sums over lists.
abbrev pub sum_by {ℓ} : {A : Type ℓ} → (A → ℕ) → List A → ℕ
sum_by f [] = 0
sum_by f (x ∷ xs) = f x + sum_by f xs

sum_by-insert_app :
    (f : AppUsage → ℕ) (u : AppUsage) (us : List AppUsage)
    → sum_by f (insert_app u us) ≡ f u + sum_by f us
unfolding insert_app
sum_by-insert_app f u [] = refl
sum_by-insert_app f u (v ∷ vs) = ground (arith, sum_by-insert_app f u vs)

sum_by-sort_apps : (f : AppUsage → ℕ) (us : List AppUsage) → sum_by f (sort_apps us) ≡ sum_by f us
unfolding sort_apps
sum_by-sort_apps f [] = refl
sum_by-sort_apps f (u ∷ us) =
    ground (arith, sum_by-insert_app f u (sort_apps us), sum_by-sort_apps f us)

-- A counter of bytes, with what one connection adds to it.
pub record IsCounter (f : AppUsage → ℕ) (g : ConnectionInfo → ℕ) : Type 0 where
  pub start : (c : ConnectionInfo) → f (new_usage c) ≡ 0
  pub add : (c : ConnectionInfo) (u : AppUsage) → f (count_usage c u) ≡ add_u64 (f u) (g c)
  pub marked : (s : DaemonState) (now : ℕ) (u : AppUsage) → f (mark s now u) ≡ f u

module _ (f : AppUsage → ℕ) (g : ConnectionInfo → ℕ) (h : IsCounter f g) where
  sum_by-update_or :
      (k : Text) (c : ConnectionInfo) (m : Map Text AppUsage)
      → sum_by f (Map.values (Map.update_or k (new_usage c) (count_usage c) m)) % u64_mod
        ≡ (sum_by f (Map.values m) + g c) % u64_mod
  unfolding Map.values Map.update_or
  sum_by-update_or k c [] = omega (arith, h.start c, h.add c (new_usage c))
  sum_by-update_or k c ((j, u) ∷ m) = ground (arith, h.add c u, sum_by-update_or k c m)

  sum_by-tally :
      (cs : List ConnectionInfo) (m : Map Text AppUsage)
      → sum_by f (Map.values (tally cs m)) % u64_mod
        ≡ (sum_by f (Map.values m) + sum_by g cs) % u64_mod
  unfolding tally
  sum_by-tally [] m = omega arith
  sum_by-tally (c ∷ cs) m = omega (
    arith,
    sum_by-update_or (usage_key c) c m,
    sum_by-tally cs (Map.update_or (usage_key c) (new_usage c) (count_usage c) m),
  )

  sum_by-mark :
      (s : DaemonState) (now : ℕ) (us : List AppUsage)
      → sum_by f (map (mark s now) us) ≡ sum_by f us
  sum_by-mark s now [] = refl
  sum_by-mark s now (u ∷ us) = omega (arith, h.marked s now u, sum_by-mark s now us)

  sum_by-top_apps :
      (s : DaemonState) (now : ℕ)
      → sum_by f (top_apps s now) % u64_mod ≡ sum_by g (Map.values s.connections) % u64_mod
  unfolding top_apps Map.values
  sum_by-top_apps s now =
      let apps : List AppUsage = Map.values (tally (Map.values s.connections) []) in
      omega (
        arith,
        sum_by-sort_apps f (map (mark s now) apps),
        sum_by-mark s now apps,
        sum_by-tally (Map.values s.connections) [],
      )

-- No traffic is lost or counted twice: modulo 2^64 the bytes sent and the bytes received of the
-- applications add up to those of the tracked connections.
pub top_apps-sums :
    (s : DaemonState) (now : ℕ)
    → (sum_by (λ u. u.bytes_sent) (top_apps s now) % u64_mod
        ≡ sum_by (λ c. c.bytes_sent) (Map.values s.connections) % u64_mod)
      × (sum_by (λ u. u.bytes_recv) (top_apps s now) % u64_mod
          ≡ sum_by (λ c. c.bytes_recv) (Map.values s.connections) % u64_mod)
top_apps-sums s now = (
  sum_by-top_apps (λ u. u.bytes_sent) (λ c. c.bytes_sent)
      (record { start = λ c. refl; add = λ c u. refl; marked = λ t n u. refl }) s now,
  sum_by-top_apps (λ u. u.bytes_recv) (λ c. c.bytes_recv)
      (record { start = λ c. refl; add = λ c u. refl; marked = λ t n u. refl }) s now,
)

-- Every entry is at most the one before it.
abbrev pub IsBelow : AppUsage → List AppUsage → Type 0
IsBelow u [] = Unit
IsBelow u (v ∷ vs) = leb (total v) (total u) ≡ true

abbrev pub IsSorted : List AppUsage → Type 0
IsSorted [] = Unit
IsSorted (u ∷ us) = IsBelow u us × IsSorted us

insert_app-IsBelow :
    (u v : AppUsage) (us : List AppUsage)
    → leb (total v) (total u) ≡ true
    → IsBelow u us
    → IsBelow u (insert_app v us)
unfolding insert_app
insert_app-IsBelow u v [] e h = e
insert_app-IsBelow u v (w ∷ us) e h = elim (Bool-cases (leb (total w) (total v))) [
  | inl t ↦ rw t e
  | inr t ↦ rw t h
]

leb-other : (m n : ℕ) → leb m n ≡ false → leb n m ≡ true
leb-other m n e = ground arith

insert_app-IsSorted : (u : AppUsage) (us : List AppUsage) → IsSorted us → IsSorted (insert_app u us)
unfolding insert_app
insert_app-IsSorted u [] h = (tt, tt)
insert_app-IsSorted u (v ∷ us) (b, h) = elim (Bool-cases (leb (total v) (total u))) [
  | inl e ↦ rw e (e, (b, h))
  | inr e ↦
      rw e
        (insert_app-IsBelow v u us (leb-other (total v) (total u) e) b, insert_app-IsSorted u us h)
]

sort_apps-IsSorted : (us : List AppUsage) → IsSorted (sort_apps us)
unfolding sort_apps
sort_apps-IsSorted [] = tt
sort_apps-IsSorted (u ∷ us) = insert_app-IsSorted u (sort_apps us) (sort_apps-IsSorted us)

-- The list of applications comes in descending order of traffic.
pub top_apps-IsSorted : (s : DaemonState) (now : ℕ) → IsSorted (top_apps s now)
unfolding top_apps
top_apps-IsSorted s now =
    sort_apps-IsSorted (map (mark s now) (Map.values (tally (Map.values s.connections) [])))
