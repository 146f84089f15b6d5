-- ===== src/Cli/Requests.antt =====
-- What a command of crates/cli/src/main.rs that succeeds has asked of the daemon.
use travelmode.Base.{ℕ, ◌≡◌, refl, Bool, false, List, Option, some, Text, FilePath, arith}
use travelmode.Types.{block}
use travelmode.Ipc.{Request, add_rule, Response, ok, Outcome, success, failure}
use travelmode.Cli.Resolve.{Shell, resolve_exe}
use travelmode.Cli.{
  Net, roundtrip, Printed, simple_request, rule_input, resolve_rule, add_resolved, run, block_app,
  judge_response,
}

judge_response-ok :
    (n : Net) (r : Response) (out : List Printed) (o : Outcome Text Response)
    → o ≡ success r
    → judge_response n r ≡ (out, success tt)
    → o ≡ success ok
judge_response-ok n ok out o e h = e
judge_response-ok n _ out o e h = absurd (ground arith)

simple_request-ok :
    (n : Net) (request : Request) (out : List Printed) (o : Outcome Text Response)
    → roundtrip n request ≡ o
    → simple_request n false request ≡ (out, success tt)
    → roundtrip n request ≡ success ok
unfolding simple_request
simple_request-ok n request out (failure why) e h = absurd (ground arith)
simple_request-ok n request out (success r) e h =
    judge_response-ok n r out (roundtrip n request) e (ground arith)

-- `travelmode block` without --json succeeds only if its target resolved to an executable and the
-- daemon answered `Ok` to the request to add the Block rule for that executable, with the time to
-- live that was given, and persistent unless it is temporary or --no-persist was given.
pub run-block_app :
    (n : Net) (sh : Shell) (target : Text) (temp : Option ℕ) (no_persist : Bool)
    (out : List Printed)
    → run n sh false (block_app target temp no_persist) ≡ some (out, success tt)
    → (exe : FilePath) × (resolve_exe sh (roundtrip n) target ≡ success exe)
      × (roundtrip n (add_rule (rule_input exe target block temp no_persist)) ≡ success ok)
unfolding run resolve_rule add_resolved
run-block_app n sh target temp no_persist out h =
    resolved (resolve_exe sh (roundtrip n) target) refl
  where
    resolved :
        (o : Outcome Text FilePath)
        → resolve_exe sh (roundtrip n) target ≡ o
        → (exe : FilePath) × (resolve_exe sh (roundtrip n) target ≡ success exe)
          × (roundtrip n (add_rule (rule_input exe target block temp no_persist)) ≡ success ok)
    resolved (failure why) e = absurd (ground arith)
    resolved (success exe) e =
        let request : Request = add_rule (rule_input exe target block temp no_persist) in
        (exe, e, simple_request-ok n request out (roundtrip n request) refl (ground arith))
