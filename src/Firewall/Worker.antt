-- ===== src/Firewall/Worker.antt =====
-- The worker of the packet queue: `queue_loop` and `spawn_queue_worker` of
-- crates/daemon/src/firewall.rs. The crate nfq is external: `Queue` says how its calls come out.
pub mod Filtering
use travelmode.Base.Parsing.{show_ℕ}
use travelmode.Base.{
  ℕ, ◌+◌, ◌≡◌, ◌≢◌, refl, Bool, true, false, not, ◌&&◌, List, [], ◌∷◌, ◌++◌, Option, none, some,
  Text, text, arith, length, Option-cases, inl, inr, if◌then◌else◌,
}
use travelmode.Conntrack.{AddrText}
use travelmode.State.{DaemonState}
use travelmode.Firewall.Verdict.{Verdict, Arrival, decide}
use travelmode.Firewall.Verdict.Exact.{decide_total}

-- What a turn of the loop completes: `recv` gives a message, to be answered with an error or none,
-- or fails.
pub data Turn : Type 0 where
  message : Arrival → Option Text → Turn
  recv_failed : Text → Turn

-- Why binding was refused: with EPERM or EBUSY, or otherwise.
pub data Refusal : Type 0 where
  taken : Text → Refusal
  refused : Text → Refusal

pub record Queue : Type 0 where
  pub open_error : Option Text
  pub bind_error : Option Refusal
  pub turns : List Turn

-- How the loop stands: it waits for the next message, it has returned an error, or it panicked.
pub data Standing : Type 0 where
  receiving panicked : Standing
  stopped : Text → Standing

-- The verdicts that have been given, and the state.
pub record Worked : Type 0 where
  pub verdicts : List Verdict
  pub standing : Standing
  pub state : DaemonState

abbrev given : Verdict → Worked → Worked
given v w = record w { verdicts = v ∷ w.verdicts }

unfoldable pub receive_loop : AddrText → List Turn → DaemonState → Worked
receive_loop a [] s = record { verdicts = []; standing = receiving; state = s }
receive_loop a (recv_failed e ∷ ts) s = record { verdicts = []; standing = stopped e; state = s }
receive_loop a (message p error ∷ ts) s = elim (decide a s p) [
  | none ↦ record { verdicts = []; standing = panicked; state = s }
  | some (verdict, s') ↦ elim error [
    | some e ↦ record { verdicts = []; standing = stopped e; state = s' }
    | none ↦ given verdict (receive_loop a ts s')
  ]
]

abbrev bind_message : ℕ → Refusal → Text
bind_message queue_num (refused e) = e
bind_message queue_num (taken e) =
    e
    ++ text " — cannot bind NFQUEUE "
    ++ show_ℕ queue_num
    ++ text "; is another travelmoded still running?"

unfoldable pub queue_loop : AddrText → Queue → DaemonState → Worked
unfolding receive_loop
queue_loop a q s = elim q.open_error [
  | some e ↦ record { verdicts = []; standing = stopped e; state = s }
  | none ↦ elim q.bind_error [
    | some e ↦ record {
      verdicts = [];
      standing = stopped (bind_message s.config.queue_num e);
      state = s;
    }
    | none ↦ receive_loop a q.turns (record s { filtering_active = true })
  ]
]

abbrev pub after_loop : Worked → Worked
after_loop w = elim w.standing [
  | receiving ↦ w
  | panicked ↦ w
  | stopped e ↦ record w { state = record w.state { filtering_active = false } }
]

-- The error that stops the loop is only logged.
unfoldable pub spawn_queue_worker : AddrText → Queue → DaemonState → Worked
unfolding queue_loop
spawn_queue_worker a q s = after_loop (queue_loop a q s)

-- Whether all the calls so far have succeeded.
abbrev pub all_well : List Turn → Bool
all_well [] = true
all_well (recv_failed e ∷ ts) = false
all_well (message p none ∷ ts) = all_well ts
all_well (message p (some e) ∷ ts) = false

abbrev pub is_bound : Queue → Bool
is_bound q = elim q.open_error [
  | some _ ↦ false
  | none ↦ elim q.bind_error [ some _ ↦ false | none ↦ true ]
]

-- The number of messages that were answered.
abbrev pub answered : List Turn → ℕ
answered [] = 0
answered (recv_failed e ∷ ts) = 0
answered (message p none ∷ ts) = answered ts + 1
answered (message p (some e) ∷ ts) = 0
