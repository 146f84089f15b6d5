-- ===== src/Firewall/Worker/Filtering.antt =====
-- What the worker of crates/daemon/src/firewall.rs reports of itself.
use travelmode.Base.{
  ℕ, ◌+◌, ◌≡◌, ◌≢◌, ◌∙◌, refl, Bool, true, false, ◌&&◌, List, [], ◌∷◌, Option, none, some, Text,
  arith, length, Option-cases, Bool-cases, inl, inr, if◌then◌else◌,
}
use travelmode.Types.{Protocol}
use travelmode.World.{World}
use travelmode.Conntrack.{AddrText}
use travelmode.Attrib.{lookup}
use travelmode.Rules.{is_blocked}
use travelmode.State.{DaemonState, attribute, Attribution, is_paused}
use travelmode.Firewall.Packet.{Parsed, panicked, rejected, accepted, parse_packet}
use travelmode.Firewall.Verdict.{
  Verdict, Arrival, Packet, destination, judge, judge_owner, judge_packet, answer, decide,
}
use travelmode.Firewall.Verdict.Exact.{decide_total}
use travelmode.Firewall.Worker
use travelmode.Firewall.Worker.{
  Turn, message, recv_failed, Queue, Worked, Standing, Refusal, receiving, stopped, receive_loop,
  queue_loop, spawn_queue_worker, after_loop, all_well, is_bound, answered,
}

attribute-filtering_active :
    (w : World) (s : DaemonState) (proto : Protocol) (port : ℕ)
    → (attribute w s proto port).1.filtering_active ≡ s.filtering_active
unfolding attribute
attribute-filtering_active w s proto port = elim (Option-cases (lookup w s.attrib proto port).0) [
  | inl e ↦ rw (e, attribute) refl
  | inr (pid, e) ↦ rw (e, attribute) refl
]

judge_owner-filtering_active :
    (p : Arrival) (dst : Text) (o : Attribution) (s : DaemonState)
    → (judge_owner p dst (o, s)).1.filtering_active ≡ s.filtering_active
unfolding judge_owner judge
judge_owner-filtering_active p dst (some pid, name, some exe) s =
    elim (Bool-cases (is_blocked s.rules exe p.now)) [ inl e ↦ rw e refl | inr e ↦ rw e refl ]
judge_owner-filtering_active p dst (some pid, name, none) s = refl
judge_owner-filtering_active p dst (none, name, exe) s = refl

answer-filtering_active :
    (a : AddrText) (s s' : DaemonState) (p : Arrival) (r : Parsed Packet) (v : Verdict)
    → answer a s p r ≡ some (v, s')
    → s'.filtering_active ≡ s.filtering_active
unfolding answer judge_packet
answer-filtering_active a s s' p panicked v h = absurd (ground arith)
answer-filtering_active a s s' p rejected v h = ground arith
answer-filtering_active a s s' p (accepted (proto, port, addr, remote_port)) v h =
    let owned : Attribution × DaemonState = attribute p.world s proto port in
    ground (
      arith,
      judge_owner-filtering_active p (destination a addr remote_port) owned.0 owned.1,
      attribute-filtering_active p.world s proto port,
    )

decide-filtering_active :
    (a : AddrText) (s s' : DaemonState) (p : Arrival) (v : Verdict)
    → decide a s p ≡ some (v, s')
    → s'.filtering_active ≡ s.filtering_active
unfolding decide is_paused
decide-filtering_active a s s' p v h = elim (Bool-cases s.paused) [
  | inl e ↦ ground arith
  | inr e ↦ answer-filtering_active a s s' p (parse_packet p.payload) v (ground arith)
]

-- The worker after a run of the loop: what it reports, and how many verdicts it gave.
pub record Reports (w : Worked) (active : Bool) (count : ℕ) : Type 0 where
  pub flag : w.state.filtering_active ≡ active
  pub verdicts : length w.verdicts ≡ count
  pub alive : w.standing ≢ Worker.panicked

given-Reports :
    (v : Verdict) (w : Worked) (active : Bool) (count : ℕ)
    → Reports (after_loop w) active count
    → Reports (after_loop (record w { verdicts = v ∷ w.verdicts })) active (count + 1)
given-Reports v w active count h = stands w.standing refl
  where
    stands :
        (o : Standing)
        → w.standing ≡ o
        → Reports (after_loop (record w { verdicts = v ∷ w.verdicts })) active (count + 1)
    stands receiving e = ground arith
    stands Worker.panicked e = ground arith
    stands (stopped why) e = ground arith

receive_loop-Reports :
    (a : AddrText) (ts : List Turn) (s : DaemonState)
    → s.filtering_active ≡ true
    → Reports (after_loop (receive_loop a ts s)) (all_well ts) (answered ts)
unfolding receive_loop
receive_loop-Reports a [] s h = record { flag = h; verdicts = refl; alive = λ e. ground arith }
receive_loop-Reports a (recv_failed e ∷ ts) s h = record {
  flag = refl;
  verdicts = refl;
  alive = λ e. ground arith;
}
receive_loop-Reports a (message p (some why) ∷ ts) s h = elim (Option-cases (decide a s p)) [
  | inl n ↦ absurd (decide_total a s p n)
  | inr ((v, s'), n) ↦
      rw (n, receive_loop) (record { flag = refl; verdicts = refl; alive = λ e. ground arith })
]
receive_loop-Reports a (message p none ∷ ts) s h = elim (Option-cases (decide a s p)) [
  | inl n ↦ absurd (decide_total a s p n)
  | inr ((v, s'), n) ↦
      rw (n, receive_loop)
        (given-Reports v (receive_loop a ts s') (all_well ts) (answered ts)
          (receive_loop-Reports a ts s' (decide-filtering_active a s s' p v n ∙ h)))
]

-- Spawned while filtering is off, the worker reports it as active exactly while the queue is open
-- and bound and none of the calls on it has failed; every message before a failure gets one
-- verdict, and no packet makes the worker panic.
pub spawn_queue_worker-Reports :
    (a : AddrText) (q : Queue) (s : DaemonState)
    → s.filtering_active ≡ false
    → Reports
        (spawn_queue_worker a q s)
        (is_bound q && all_well q.turns)
        (if is_bound q then answered q.turns else 0)
unfolding spawn_queue_worker queue_loop
spawn_queue_worker-Reports a q s h = opened q.open_error refl
  where
    bound :
        (o : Option Refusal)
        → q.open_error ≡ none
        → q.bind_error ≡ o
        → Reports
            (spawn_queue_worker a q s)
            (is_bound q && all_well q.turns)
            (if is_bound q then answered q.turns else 0)
    bound none e f =
        rw (e, spawn_queue_worker, f, spawn_queue_worker)
          (receive_loop-Reports a q.turns (record s { filtering_active = true }) refl)
    bound (some why) e f =
        rw (e, spawn_queue_worker, f, spawn_queue_worker)
          (record { flag = refl; verdicts = refl; alive = λ c. ground arith })

    opened :
        (o : Option Text)
        → q.open_error ≡ o
        → Reports
            (spawn_queue_worker a q s)
            (is_bound q && all_well q.turns)
            (if is_bound q then answered q.turns else 0)
    opened none e = bound q.bind_error e refl
    opened (some why) e =
        rw (e, spawn_queue_worker)
          (record { flag = refl; verdicts = refl; alive = λ c. ground arith })
