-- ===== src/Cli/Resolve/Which.antt =====
-- What `which` and `resolve_exe` of crates/cli/src/main.rs find.
use travelmode.Base.{
  ◌≡◌, true, false, List, [], ◌∷◌, ◌++◌, some, Text, FilePath, any, retain, text_beq,
}
use travelmode.Base.Parsing.{split}
use travelmode.Types.{ProcessInfo}
use travelmode.Ipc.{Request, get_processes, Response, processes, Outcome, success}
use travelmode.Cli.Resolve.{Shell, join_name, is_executable}

-- The file is the first executable of the name in the directories.
pub record IsFirst (sh : Shell) (dirs : List Text) (name : Text) (p : FilePath) : Type 0 where
  pub before : List Text
  pub dir : Text
  pub after : List Text
  pub split_here : dirs ≡ before ++ dir ∷ after
  pub found : p ≡ join_name (record { display = dir }) name
  pub executable : is_executable sh p ≡ true
  pub none_before :
      any (λ d. is_executable sh (join_name (record { display = d }) name)) before ≡ false

-- No directory of PATH has an executable of the name.
abbrev pub IsMissing : Shell → Text → Type 0
IsMissing sh name =
    (dirs : Text)
    → sh.path_var ≡ some dirs
    → any (λ d. is_executable sh (join_name (record { display = d }) name)) (split b':' dirs)
      ≡ false

-- The one running process of the name, with its executable.
pub record IsOnly (procs : List ProcessInfo) (name : Text) (p : FilePath) : Type 0 where
  pub proc : ProcessInfo
  pub alone : retain (λ q. text_beq q.name name) procs ≡ proc ∷ []
  pub exe : proc.exe ≡ some p

-- Where an executable for a bare name comes from: the processes count only if PATH has none.
pub data Source (sh : Shell) (ask : Request → Outcome Text Response) (name : Text) (p : FilePath)
    : Type 0 where
  in_path :
      (dirs : Text)
      → sh.path_var ≡ some dirs
      → IsFirst sh (split b':' dirs) name p
      → Source sh ask name p
  in_processes :
      (procs : List ProcessInfo)
      → IsMissing sh name
      → ask get_processes ≡ success (processes procs)
      → IsOnly procs name p
      → Source sh ask name p
