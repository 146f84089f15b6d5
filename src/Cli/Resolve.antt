-- ===== src/Cli/Resolve.antt =====
-- From what the user typed to an executable: `resolve_exe`, `which` and `is_executable` of
-- crates/cli/src/main.rs. The file system and the environment are the record `Shell`.
pub mod Which
use Prim.Native.Nat.{bit_and}
use travelmode.Base.{
  ℕ, Bool, true, false, not, ◌&&◌, List, [], ◌∷◌, ◌++◌, map, Option, none, some, Text, text,
  text_beq, FilePath, components, is_empty, retain, nat_beq, if◌then◌else◌,
}
use travelmode.Base.Parsing.{contains, split, ends_with}
use travelmode.Types.{ProcessInfo}
use travelmode.Ipc.{Request, get_processes, Response, processes, Outcome, success, failure}

pub record Shell : Type 0 where
  -- The variable PATH.
  pub path_var : Option Text
  pub exists : FilePath → Bool
  -- The canonical path, or the text of the error.
  pub canonicalize : FilePath → Outcome Text FilePath
  pub is_file : FilePath → Bool
  -- The permission bits, if the metadata can be read.
  pub mode : FilePath → Option ℕ

abbrev last_name : List Text → Option Text
last_name [] = none
last_name (name ∷ []) =
    if text_beq name (text "..") then none else if text_beq name (text ".") then none else some name
last_name (name ∷ other ∷ names) = last_name (other ∷ names)

-- `Path::file_name`: the last component, if it is a name.
unfoldable pub file_name : FilePath → Option Text
file_name p = last_name (components p).1

-- `Path::join` with a relative name.
abbrev pub join_name : FilePath → Text → FilePath
join_name dir name = record {
  display =
      if is_empty dir.display
      then name
      else if ends_with b'/' dir.display
      then dir.display ++ name
      else dir.display ++ b'/' ∷ name;
}

abbrev unresolved : Text → Outcome Text FilePath
unresolved target = failure (
    text "cannot resolve '"
    ++ target
    ++ text "' to an executable (not in PATH, not a unique running process)")

-- The one process of the name, if its executable is known.
abbrev pub only_match : List ProcessInfo → Option FilePath
only_match (p ∷ []) = p.exe
only_match [] = none
only_match (p ∷ q ∷ ps) = none

abbrev pub running : Text → Outcome Text Response → Option FilePath
running target (success (processes procs)) = only_match (retain (λ p. text_beq p.name target) procs)
running target _ = none

module _ (sh : Shell) where
  unfoldable pub is_executable : FilePath → Bool
  is_executable path =
      sh.is_file path
      && (elim (sh.mode path) [ none ↦ false | some mode ↦ not (nat_beq (bit_and mode 0x49) 0) ])

  -- The loop over the directories.
  unfoldable pub which_in : List Text → Text → Option FilePath
  unfolding is_executable
  which_in [] name = none
  which_in (dir ∷ dirs) name =
      let later = which_in dirs name in
      let candidate = join_name (record { display = dir }) name in
      if is_executable candidate then some candidate else later

  unfoldable pub which : Text → Option FilePath
  unfolding which_in
  which name = elim sh.path_var [ none ↦ none | some path ↦ which_in (split b':' path) name ]

  resolve_path : Text → Outcome Text FilePath
  resolve_path target =
      let path : FilePath = record { display = target } in
      if sh.exists path
      then (elim (sh.canonicalize path) [
        | success p ↦ success p
        | failure e ↦ failure (text "cannot resolve " ++ target ++ text ": " ++ e)
      ])
      else failure (text "no such file: " ++ target)

  resolve_name : (Request → Outcome Text Response) → Text → Outcome Text FilePath
  unfolding which
  resolve_name ask target = elim (which target) [
    | some path ↦ success path
    | none ↦ elim (running target (ask get_processes)) [
      | some exe ↦ success exe
      | none ↦ unresolved target
    ]
  ]

  unfoldable pub resolve_exe : (Request → Outcome Text Response) → Text → Outcome Text FilePath
  unfolding resolve_path resolve_name
  resolve_exe ask target =
      if contains b'/' target then resolve_path target else resolve_name ask target
