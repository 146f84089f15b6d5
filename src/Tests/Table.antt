-- ===== src/Tests/Table.antt =====
-- The nftables handle with a rule set that is the number of the queue rules in its table, if any.
use travelmode.Base.{
  ℕ, ◌+◌, ◌≡◌, ◌≢◌, refl, suc, true, false, not, [], ◌∷◌, Bool, Option, none, some, text, text_beq,
  texts_beq, ltb, arith, if◌then◌else◌,
}
use travelmode.Base.Parsing.{show_ℕ}
use travelmode.Firewall.Table.{Nft, delete_args, pause_args, resume_args, table_script, setup}
use travelmode.Config
use travelmode.State
use travelmode.Firewall.Worker.{Queue, message, recv_failed, spawn_queue_worker}
use travelmode.Firewall.Worker.Filtering.{Reports, spawn_queue_worker-Reports}
use travelmode.Daemon.{no_network}
use travelmode.Daemon.Tasks.{reap}
use travelmode.Daemon.Main.{Exit, main, step, toggle}
use travelmode.Daemon.Main.Cleanup.{main-queues}
use travelmode.Tests.World.{addresses}
use travelmode.Tests.Daemon.{setting, arrival}
use travelmode.Tests.Flows.{restarted}
use travelmode.Firewall.Table.Toggle.{
  IsDocumented, IsPermitted, toggle_tasks, last_of, setup-toggle_tasks,
}

-- The number of queue rules in the table, if there is a table.
abbrev has_table : Option ℕ → Bool
has_table none = false
has_table (some k) = true

abbrev queues : Option ℕ → ℕ
queues none = 0
queues (some k) = k

-- Every command but the script fails without a table; the script makes one where there is none.
abbrev counting : Nft (Option ℕ)
counting = record {
  nft = λ args r. elim r [
    | none ↦ none
    | some k ↦
        if texts_beq args delete_args
        then some none
        else if texts_beq args pause_args
        then some (some 0)
        else some (some (suc k))
  ];
  nft_stdin =
      λ t r. some (some (if text_beq t (table_script false 0) then queues r else suc (queues r)));
}

counting-IsDocumented : IsDocumented counting has_table queues
unfolding table_script
counting-IsDocumented = record {
  tableless = tableless;
  deleted = deleted;
  flushed = flushed;
  added = added;
  installed = installed;
}
  where
    tableless : (r : Option ℕ) → has_table r ≡ false → queues r ≡ 0
    tableless none e = refl
    tableless (some k) e = absurd (ground arith)

    deleted : (r r' : Option ℕ) → counting.nft delete_args r ≡ some r' → has_table r' ≡ false
    deleted none r' e = absurd (ground arith)
    deleted (some k) none e = refl
    deleted (some k) (some l) e = absurd (ground arith)

    flushed : (r r' : Option ℕ) → counting.nft pause_args r ≡ some r' → queues r' ≡ 0
    flushed none r' e = absurd (ground arith)
    flushed (some k) none e = refl
    flushed (some k) (some l) e = ground arith

    added :
        (q : ℕ) (r r' : Option ℕ)
        → counting.nft (resume_args q) r ≡ some r'
        → queues r' ≡ queues r + 1
    added q none r' e = absurd (ground arith)
    added q (some k) none e = absurd (ground arith)
    added q (some k) (some l) e = ground arith

    installed :
        (b : Bool) (q : ℕ) (r r' : Option ℕ)
        → counting.nft_stdin (table_script b q) r ≡ some r'
        → queues r' ≡ queues r + (if b then 1 else 0)
    installed b q r none e = absurd (ground arith)
    installed true q r (some l) e = ground arith
    installed false q r (some l) e = ground arith

counting-IsPermitted : IsPermitted counting has_table
counting-IsPermitted = record { deletable = deletable }
  where
    deletable : (r : Option ℕ) → has_table r ≡ true → counting.nft delete_args r ≢ none
    deletable none t e = absurd (ground arith)
    deletable (some k) t e = absurd (ground arith)

-- No older table is there, so the first deletion fails.
setup-toggle_tasks_example : ltb 0 1 ≡ not (last_of false (true ∷ false ∷ []))
unfolding table_script setup toggle_tasks show_ℕ
setup-toggle_tasks_example =
    setup-toggle_tasks counting has_table queues 3 3 false (true ∷ false ∷ []) none (some 1)
      (some 1) counting-IsDocumented counting-IsPermitted refl refl

-- A table of an earlier run is there; the daemon's own is deleted again when the socket fails.
main-queues_example :
    queues (
      Exit.nft_rules (
        main counting addresses setting Config.default
          (record { target = none; tmp = none })
          true
          (record { open_error = none; bind_error = none; turns = [] })
          no_network
          (record {
            has_parent = true;
            mkdir_ok = true;
            exists = true;
            unlink_ok = true;
            bind_ok = false;
          })
          (toggle true ∷ step (reap setting) ∷ toggle false ∷ [])
          []
          (some 5)))
    ≡ 0
main-queues_example =
    main-queues counting has_table queues addresses setting Config.default
      (record { target = none; tmp = none }) true
      (record { open_error = none; bind_error = none; turns = [] }) no_network
      (record {
        has_parent = true;
        mkdir_ok = true;
        exists = true;
        unlink_ok = true;
        bind_ok = false;
      })
      (toggle true ∷ step (reap setting) ∷ toggle false ∷ []) [] (some 5) counting-IsDocumented
      counting-IsPermitted

-- Two packets are answered before receiving fails.
abbrev queue : Queue
queue = record {
  open_error = none;
  bind_error = none;
  turns = message arrival none ∷ message arrival none ∷ recv_failed (text "gone") ∷ [];
}

spawn_queue_worker-Reports_example : Reports (spawn_queue_worker addresses queue restarted) false 2
unfolding State.new
spawn_queue_worker-Reports_example = spawn_queue_worker-Reports addresses queue restarted refl
