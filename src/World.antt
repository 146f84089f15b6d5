-- ===== src/World.antt =====
-- What the daemon reads from outside at one moment: /proc, and the third-party crate procfs.
-- A handler reads one `World`; what changes while it runs is not modelled.
use travelmode.Base.{ℕ, Bool, List, Option, Text, FilePath}

-- `procfs::process::Process`: each accessor may fail. A file descriptor that can be read is a
-- socket or not.
pub record Stat : Type 0 where
  pub pid : ℕ
  pub comm : Text
  pub ppid : ℕ

pub record Process : Type 0 where
  pub fd : Option (List (Option Bool))
  pub stat : Option Stat
  pub uid : Option ℕ
  pub exe : Option FilePath

pub record World : Type 0 where
  -- `read_to_string` of a file by its path.
  pub read_file : Text → Option Text
  -- The names of the entries of /proc, and the link targets under /proc/<name>/fd.
  pub proc_names : Option (List Text)
  pub fd_targets : Text → Option (List (Option Text))
  -- `all_processes`, with entries that fail, and `Process::new`.
  pub all_processes : Option (List (Option Process))
  pub process : ℕ → Option Process
