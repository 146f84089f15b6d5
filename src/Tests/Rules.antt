-- ===== src/Tests/Rules.antt =====
-- The rule store at concrete inputs; the runs follow the tests of crates/daemon/src/rules.rs.
use travelmode.Base.{
  ℕ, ◌+◌, ◌-◌, ◌*◌, ◌≡◌, refl, true, false, [], Option, none, some, arith, text, Text, FilePath,
  u64_mod, ◌⊎◌, not, ◌&&◌, if◌then◌else◌, path_beq,
}
use mathlib.Core.Option
use travelmode.Types.{Rule, RuleInput, RuleAction, block, action_beq}
use travelmode.Rules.{
  SaveRun, complete, failed, RuleStore, is_expired, is_blocked, add, remove, reap_expired, load,
  save, new_rule, put_rule, save_locked,
}
use travelmode.Rules.Invariant.{IsValid}
use travelmode.Rules.Blocking.{is_blocked-add, is_blocked-remove}
use travelmode.Rules.Reload.{Succeeds, persisted, save_atomic, is_blocked-load}
use travelmode.Rules.Expiry.{nanos, add_panics}
use travelmode.Tests.Codec.{
  latest, plain, plain-IsDocumented, parses, to_text, from_text, seconds, checked_add_signed,
}

program : Unit {0}
unfolding path_beq is_expired is_blocked add remove reap_expired load save save_locked seconds
    checked_add_signed to_text from_text
program = tt

abbrev path : FilePath
path = record { display = text "/etc/travelmode/rules.json" }

abbrev curl : FilePath
curl = record { display = text "/usr/bin/curl" }

abbrev wget : FilePath
wget = record { display = text "/usr/bin/wget" }

abbrev input : FilePath → RuleAction → Option ℕ → RuleInput
input exe action ttl = record {
  name = text "app";
  exe_path = exe;
  action = action;
  persistent = false;
  ttl_secs = ttl;
}

abbrev good_run : SaveRun
good_run = record { mkdir_ok = true; write = complete; rename_ok = true }

-- The disk is full: half of the text stands in the temporary file.
abbrev bad_run : SaveRun
bad_run = record { mkdir_ok = true; write = failed (some (text "{")); rename_ok = true }

abbrev start : RuleStore
start = record { next_id = 1; rules = []; path = path; disk = record { target = none; tmp = none } }

abbrev noon : ℕ
noon = 1700000000000000000

abbrev curl_rule : Rule
curl_rule = new_rule (input curl block none) noon none 1

abbrev one : RuleStore
one = save_locked plain good_run (put_rule curl_rule start)

one-IsValid : IsValid one
unfolding program
one-IsValid = record { bounded = refl; ids = (refl, tt); targets = (refl, tt) }

-- A rule for the same program by another spelling of its path replaces the first.
respelled :
    (is_blocked one (record { display = text "/usr//bin/./curl/" }) noon ≡ true)
    × (is_blocked one wget noon ≡ false)
unfolding program
respelled = (refl, refl)

is_blocked-add_example : is_blocked one curl noon ≡ (
    if action_beq block block && path_beq curl curl
    then not (is_expired curl_rule noon)
    else is_blocked start curl noon)
unfolding program
is_blocked-add_example =
    is_blocked-add plain good_run start one (input curl block none) noon curl_rule curl noon refl

is_blocked-remove_example :
    is_blocked (save_locked plain good_run (record one { rules = [] })) curl noon
    ≡ (if action_beq block block && path_beq curl curl then false else is_blocked one curl noon)
unfolding program
is_blocked-remove_example =
    is_blocked-remove plain good_run one (save_locked plain good_run (record one { rules = [] })) 1
      curl_rule curl noon one-IsValid refl

abbrev hour_rule : Rule
hour_rule = new_rule (input curl block (some 3600)) noon (some (noon + 3600 * nanos)) 1

add_panics_example : add plain good_run start (input curl block (some 9300000000000000)) noon ≡ none
add_panics_example =
    add_panics plain latest plain-IsDocumented good_run start
      (input curl block (some 9300000000000000)) noon 9300000000000000 refl (omega arith)
      (omega arith)

abbrev wrapped_rule : Rule
wrapped_rule = new_rule (input curl block (some (u64_mod - 1))) noon (some (noon - nanos)) 1

save_atomic_example :
    ((save plain bad_run one).disk.target ≡ one.disk.target)
    ⊎ ((save plain bad_run one).disk.target ≡ plain.to_string_pretty (persisted one))
save_atomic_example = save_atomic plain bad_run one

Succeeds-good_run : Succeeds good_run
Succeeds-good_run = record { mkdir = refl; written = refl; renamed = refl }

abbrev one_text : Text
one_text = Option.get_or (to_text (persisted one)) []

is_blocked-load_example :
    is_blocked (load plain path (save plain good_run one).disk true noon) curl noon
    ≡ is_blocked one curl noon
unfolding program
is_blocked-load_example =
    is_blocked-load plain parses good_run one one_text path noon noon curl Succeeds-good_run refl
      (omega arith)
