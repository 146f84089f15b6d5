-- ===== src/Procs.antt =====
-- The process scanner's readings: crates/daemon/src/procs.rs. The scan itself is in Procs/Scan.
pub mod Scan
use travelmode.Base.Map
use travelmode.Base.Map.{Map}
use travelmode.Base.Parsing.{lines, split, parse_uint, show_ℕ}
use travelmode.Base.{
  ℕ, Bool, true, false, ◌||◌, List, [], ◌∷◌, Option, none, some, Text, text, FilePath, nat_beq,
  nat_key, u32_mod, if◌then◌else◌,
}
use travelmode.Types.{ProcessInfo}
use travelmode.World.{World, Process, Stat}
use mathlib.Core.Option

infixl 5 ◌>>=◌
abbrev ◌>>=◌ {ℓ κ} : {A : Type ℓ} {B : Type κ} → Option A → (A → Option B) → Option B
none >>= f = none
some a >>= f = f a

row_fields : List Text → Option (Text × ℕ)
row_fields (name ∷ password ∷ uid ∷ rest) = do n ← parse_uint 10 u32_mod uid; some (name, n)
row_fields _ = none

-- One row: the name and the uid; `none` is a `?` that ends the whole search.
unfoldable pub passwd_row : Text → Option (Text × ℕ)
unfolding row_fields
passwd_row line = row_fields (split b':' line)

unfoldable pub find_in_rows : List Text → ℕ → Option Text
find_in_rows [] uid = none
find_in_rows (line ∷ rest) uid =
    let later = find_in_rows rest uid in
    elim (passwd_row line) [
      | none ↦ none
      | some (name, line_uid) ↦ if nat_beq line_uid uid then some name else later
    ]

unfoldable pub find_user_in_passwd : Text → ℕ → Option Text
unfolding find_in_rows
find_user_in_passwd t uid = find_in_rows (lines t) uid

unfoldable pub lookup_uid : World → ℕ → Option Text
unfolding find_user_in_passwd
lookup_uid w uid = do t ← w.read_file (text "/etc/passwd"); find_user_in_passwd t uid

abbrev pub UserCache : Type 0
UserCache = Map ℕ Text

-- `UserCache::name`
unfoldable pub user_name : World → UserCache → ℕ → Text × UserCache
unfolding lookup_uid
user_name w users uid = elim (Map.get uid users) [
  | some name ↦ (name, users)
  | none ↦
      let name = Option.get_or (lookup_uid w uid) (show_ℕ uid) in (name, Map.insert uid name users)
]

unfoldable pub any_socket : List (Option Bool) → Bool
any_socket [] = false
any_socket (none ∷ fds) = any_socket fds
any_socket (some is_socket ∷ fds) = is_socket || any_socket fds

unfoldable pub has_socket : Process → Bool
unfolding any_socket
has_socket proc = elim proc.fd [ none ↦ false | some fds ↦ any_socket fds ]

process_info : Process → Stat → Option Text → ProcessInfo
process_info proc stat user = record {
  pid = stat.pid;
  name = stat.comm;
  exe = proc.exe;
  user = user;
  ppid = stat.ppid;
}

inspect_stat : World → Process → UserCache → Stat → Option ℕ → Option ProcessInfo × UserCache
unfolding process_info user_name
inspect_stat w proc users stat none = (some (process_info proc stat none), users)
inspect_stat w proc users stat (some uid) =
    let (name, users') = user_name w users uid in
    (some (process_info proc stat (some name)), users')

unfoldable pub inspect_process : World → Process → UserCache → Option ProcessInfo × UserCache
unfolding has_socket inspect_stat
inspect_process w proc users =
    if has_socket proc
    then (elim proc.stat [
      | none ↦ (none, users)
      | some stat ↦ inspect_stat w proc users stat proc.uid
    ])
    else (none, users)

unfoldable pub lookup_process : World → ℕ → Option ProcessInfo
lookup_process w pid = do
  proc ← w.process pid
  stat ← proc.stat
  some (record { pid = pid; name = stat.comm; exe = proc.exe; user = none; ppid = stat.ppid })
