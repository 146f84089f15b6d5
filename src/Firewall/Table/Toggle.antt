-- ===== src/Firewall/Table/Toggle.antt =====
-- The queue rule after pausing and resuming: crates/daemon/src/firewall.rs.
use travelmode.Base.{
  ℕ, ◌+◌, ◌≡◌, ◌≢◌, Bool, true, false, not, List, [], ◌∷◌, Option, none, some, arith, ltb,
  Bool-cases, Option-cases, inl, inr, if◌then◌else◌,
}
use travelmode.Firewall.Table.{
  Nft, delete_args, pause_args, resume_args, table_script, best_effort, setup, pause, resume,
  toggle_task,
}

-- What the manual of nft says of the commands that the daemon gives, where `has_table` tells whether
-- the daemon's table is there and `queues` counts the queue rules in its chain.
pub record IsDocumented {R : Type 0} (n : Nft R) (has_table : R → Bool) (queues : R → ℕ)
    : Type 0 where
  -- A rule stands in a table.
  pub tableless : (r : R) → has_table r ≡ false → queues r ≡ 0
  pub deleted : (r r' : R) → n.nft delete_args r ≡ some r' → has_table r' ≡ false
  pub flushed : (r r' : R) → n.nft pause_args r ≡ some r' → queues r' ≡ 0
  pub added : (q : ℕ) (r r' : R) → n.nft (resume_args q) r ≡ some r' → queues r' ≡ queues r + 1
  pub installed :
      (b : Bool) (q : ℕ) (r r' : R)
      → n.nft_stdin (table_script b q) r ≡ some r'
      → queues r' ≡ queues r + (if b then 1 else 0)

-- The daemon may change the rule set, as root may: nft deletes the table whenever it is there.
pub record IsPermitted {R : Type 0} (n : Nft R) (has_table : R → Bool) : Type 0 where
  pub deletable : (r : R) → has_table r ≡ true → n.nft delete_args r ≢ none

module _ {R : Type 0} (n : Nft R) (has_table : R → Bool) (queues : R → ℕ)
    (d : IsDocumented n has_table queues) (root : IsPermitted n has_table) where
  abbrev is_queued : R → Bool
  is_queued r = ltb 0 (queues r)

  pub best_effort-deleted : (r : R) → queues (best_effort n delete_args r) ≡ 0
  best_effort-deleted r = elim (Option-cases (n.nft delete_args r)) [
    | inl e ↦
        rw (e, best_effort)
          (elim (Bool-cases (has_table r)) [
            | inl t ↦ absurd (root.deletable r t e)
            | inr t ↦ d.tableless r t
          ])
    | inr (r', e) ↦ rw (e, best_effort) (d.tableless r' (d.deleted r r' e))
  ]

  setup-is_queued :
      (q h : ℕ) (paused : Bool) (r r' : R)
      → setup n q paused r ≡ (some h, r')
      → (ltb 0 (queues r') ≡ not paused) × (h ≡ q)
  unfolding setup
  setup-is_queued q h paused r r' e =
      let r0 : R = best_effort n delete_args r in
      elim (Option-cases (n.nft_stdin (table_script (not paused) q) r0)) [
        | inl f ↦ absurd (ground arith)
        | inr (r1, f) ↦ (
          ground (arith, d.installed (not paused) q r0 r1 f, best_effort-deleted r),
          ground arith,
        )
      ]

-- The tasks of several requests, run in the order of the requests; `none` when a command fails.
unfoldable pub toggle_tasks : {R : Type 0} → Nft R → ℕ → List Bool → R → Option R
unfolding toggle_task
toggle_tasks n q [] r = some r
toggle_tasks n q (paused ∷ rest) r = elim (toggle_task n q paused r) [
  | none ↦ none
  | some r' ↦ toggle_tasks n q rest r'
]

-- The state that the last request asked for.
abbrev pub last_of : Bool → List Bool → Bool
last_of paused [] = paused
last_of paused (p ∷ ps) = last_of p ps

toggle_tasks-last :
    {R : Type 0} (n : Nft R) (has_table : R → Bool) (queues : R → ℕ) (q : ℕ) (paused : Bool)
    (ps : List Bool) (r r' : R)
    → IsDocumented n has_table queues
    → ltb 0 (queues r) ≡ not paused
    → toggle_tasks n q ps r ≡ some r'
    → ltb 0 (queues r') ≡ not (last_of paused ps)
unfolding toggle_tasks toggle_task pause resume
toggle_tasks-last n has_table queues q paused [] r r' d h e = ground arith
toggle_tasks-last n has_table queues q paused (true ∷ ps) r r' d h e =
    elim (Option-cases (n.nft pause_args r)) [
      | inl f ↦ absurd (ground arith)
      | inr (r1, f) ↦
          toggle_tasks-last n has_table queues q true ps r1 r' d (ground (arith, d.flushed r r1 f))
            (ground arith)
    ]
toggle_tasks-last n has_table queues q paused (false ∷ ps) r r' d h e =
    elim (Option-cases (n.nft (resume_args q) r)) [
      | inl f ↦ absurd (ground arith)
      | inr (r1, f) ↦
          toggle_tasks-last n has_table queues q false ps r1 r' d (ground (arith, d.added q r r1 f))
            (ground arith)
    ]

-- Where nft does what its manual says, for a daemon that may change the rule set: after a set-up that
-- succeeds, whether or not an older table was there to delete, and after any requests whose tasks run
-- in order and succeed, packets are queued exactly when the last request, or else the set-up, did not
-- pause.
pub setup-toggle_tasks :
    {R : Type 0} (n : Nft R) (has_table : R → Bool) (queues : R → ℕ) (q h : ℕ) (paused : Bool)
    (ps : List Bool) (r r' r'' : R)
    → IsDocumented n has_table queues
    → IsPermitted n has_table
    → setup n q paused r ≡ (some h, r')
    → toggle_tasks n h ps r' ≡ some r''
    → ltb 0 (queues r'') ≡ not (last_of paused ps)
setup-toggle_tasks n has_table queues q h paused ps r r' r'' d root e f =
    toggle_tasks-last n has_table queues h paused ps r' r'' d
      (setup-is_queued n has_table queues d root q h paused r r' e).0 f
