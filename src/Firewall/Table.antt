-- ===== src/Firewall/Table.antt =====
-- The nftables handle of crates/daemon/src/firewall.rs: `Firewall` and `table_script`. The program
-- `nft` is external: `Nft` is what it makes of the machine's rule set, `none` when it fails.
pub mod Toggle
use travelmode.Base.Parsing.{show_ℕ}
use travelmode.Base.{
  ℕ, Bool, true, false, not, List, [], ◌∷◌, ◌++◌, Option, none, some, Text, text, if◌then◌else◌,
}

pub record Nft (R : Type 0) : Type 0 where
  pub nft : List Text → R → Option R
  pub nft_stdin : Text → R → Option R

abbrev pub delete_args : List Text
delete_args = text "delete" ∷ text "table" ∷ text "inet" ∷ text "travelmode" ∷ []

abbrev pub pause_args : List Text
pause_args = text "flush" ∷ text "chain" ∷ text "inet" ∷ text "travelmode" ∷ text "output" ∷ []

abbrev pub resume_args : ℕ → List Text
resume_args queue_num =
    text "add"
    ∷ text "rule"
    ∷ text "inet"
    ∷ text "travelmode"
    ∷ text "output"
    ∷ text "ct"
    ∷ text "state"
    ∷ text "new"
    ∷ text "queue"
    ∷ text "num"
    ∷ show_ℕ queue_num
    ∷ text "bypass"
    ∷ []

unfoldable pub table_script : Bool → ℕ → Text
table_script with_queue_rule queue_num =
    text
      "table inet travelmode {\n    chain output {\n        type filter hook output priority 0; policy accept;"
    ++ (if with_queue_rule
        then text "\n        ct state new queue num " ++ show_ℕ queue_num ++ text " bypass"
        else [])
    ++ text "\n    }\n}\n"

module _ {R : Type 0} (n : Nft R) where
  -- A failed command leaves the rule set as it was.
  abbrev pub best_effort : List Text → R → R
  best_effort args r = elim (n.nft args r) [ none ↦ r | some r' ↦ r' ]

  -- The queue number of the handle, if the set-up succeeds.
  unfoldable pub setup : ℕ → Bool → R → Option ℕ × R
  unfolding table_script
  setup queue_num paused r =
      let r' : R = best_effort delete_args r in
      elim (n.nft_stdin (table_script (not paused) queue_num) r') [
        | none ↦ (none, r')
        | some r'' ↦ (some queue_num, r'')
      ]

  unfoldable pub pause : R → Option R
  pause r = n.nft pause_args r

  unfoldable pub resume : ℕ → R → Option R
  resume queue_num r = n.nft (resume_args queue_num) r

  unfoldable pub teardown : R → R
  teardown r = best_effort delete_args r

  -- The task that a request to pause or to resume spawns.
  unfoldable pub toggle_task : ℕ → Bool → R → Option R
  unfolding pause resume
  toggle_task queue_num paused r = if paused then pause r else resume queue_num r
