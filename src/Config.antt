-- ===== src/Config.antt =====
-- Daemon configuration: crates/daemon/src/config.rs. Parsing TOML into the record is third-party.
use travelmode.Base.{ℕ, Bool, true, Option, none, some, Text, text, FilePath, if◌then◌else◌}

pub record Config : Type 0 where
  pub socket_path : FilePath
  pub rules_file : FilePath
  pub log_level : Text
  pub fail_open : Bool
  pub conntrack_poll_secs : ℕ
  pub process_poll_secs : ℕ
  pub queue_num : ℕ

abbrev pub default : Config
default = record {
  socket_path = record { display = text "/run/travelmode/daemon.sock" };
  rules_file = record { display = text "/etc/travelmode/rules.json" };
  log_level = text "info";
  fail_open = true;
  conntrack_poll_secs = 1;
  process_poll_secs = 2;
  queue_num = 0;
}

-- The configuration files as they are read: missing, unreadable, or a text.
pub data ReadResult : Type 0 where
  contents : Text → ReadResult
  not_found : ReadResult
  unreadable : ReadResult

module _ (from_toml : Text → Option Config) (read_file : FilePath → ReadResult) where
  unfoldable pub load_from : FilePath → Config
  load_from path = elim (read_file path) [
    | contents t ↦ elim (from_toml t) [ none ↦ default | some cfg ↦ cfg ]
    | not_found ↦ default
    | unreadable ↦ default
  ]

  unfoldable pub load_default_location : (FilePath → Bool) → Config
  unfolding load_from
  load_default_location exists =
      let candidate : FilePath = record { display = text "/etc/travelmode/config.toml" } in
      if exists candidate then load_from candidate else default

  unfoldable pub load : (FilePath → Bool) → Option FilePath → Config
  unfolding load_default_location
  load exists none = load_default_location exists
  load exists (some path) = load_from path
