-- ===== src/Attrib.antt =====
-- Flow to process attribution: crates/daemon/src/attrib.rs.
pub mod Ownership
use travelmode.Base.Map
use travelmode.Base.Map.{Map}
use travelmode.Base.Parsing.{
  split_whitespace, lines, after_last, ends_with, strip_prefix, strip_last, parse_uint, show_ℕ,
}
use travelmode.Base.{
  ℕ, ◌<◌, Bool, true, false, not, ◌&&◌, ◌||◌, List, [], ◌∷◌, Option, none, some, Text, text, length,
  get_elem?, ltb, nat_beq, nat_key, u16_mod, u32_mod, u64_mod, if◌then◌else◌,
}
use travelmode.Types.{Protocol, tcp, udp, other}
use travelmode.World.{World}

infixl 5 ◌>>=◌
abbrev ◌>>=◌ {ℓ κ} : {A : Type ℓ} {B : Type κ} → Option A → (A → Option B) → Option B
none >>= f = none
some a >>= f = f a

-- `inode_to_pid`
abbrev pub Attributor : Type 0
Attributor = Map ℕ ℕ

unfoldable pub new : Attributor
new = []

-- A row of at least ten fields, the first ending in `:`.
unfoldable pub parse_fields : List Text → Option (ℕ × ℕ × ℕ)
parse_fields fields = do
  sl ← get_elem? fields 0
  local ← get_elem? fields 1
  remote ← get_elem? fields 2
  local_port ← parse_uint 16 u16_mod (after_last b':' local)
  remote_port ← parse_uint 16 u16_mod (after_last b':' remote)
  field ← get_elem? fields 9
  inode ← parse_uint 10 u64_mod field
  if nat_beq inode 0 then none else some (local_port, remote_port, inode)

abbrev first_ends_with_colon : List Text → Bool
first_ends_with_colon [] = false
first_ends_with_colon (f ∷ fs) = ends_with b':' f

unfoldable pub parse_proc_net_line : Text → Option (ℕ × ℕ × ℕ)
unfolding parse_fields
parse_proc_net_line line =
    let fields = split_whitespace line in
    if ltb (length fields) 10 || not (first_ends_with_colon fields)
    then none
    else parse_fields fields

-- The first line with the port.
unfoldable pub find_in_lines : ℕ → List Text → Option ℕ
unfolding parse_proc_net_line
find_in_lines local_port [] = none
find_in_lines local_port (line ∷ rest) =
    let later = find_in_lines local_port rest in
    elim (parse_proc_net_line line) [
      | none ↦ later
      | some (port, _, inode) ↦ if nat_beq port local_port then some inode else later
    ]

unfoldable pub find_in_files : World → ℕ → List Text → Option ℕ
unfolding find_in_lines
find_in_files w local_port [] = none
find_in_files w local_port (file ∷ rest) =
    let later = find_in_files w local_port rest in
    elim (w.read_file file) [
      | none ↦ later
      | some t ↦ elim (find_in_lines local_port (lines t)) [ none ↦ later | some i ↦ some i ]
    ]

unfoldable pub find_socket_inode : World → Protocol → ℕ → Option ℕ
unfolding find_in_files
find_socket_inode w tcp local_port =
    find_in_files w local_port (text "/proc/net/tcp" ∷ text "/proc/net/tcp6" ∷ [])
find_socket_inode w udp local_port =
    find_in_files w local_port (text "/proc/net/udp" ∷ text "/proc/net/udp6" ∷ [])
find_socket_inode w other local_port = none

-- `socket:[12345]`
unfoldable pub socket_inode_of : Text → Option ℕ
socket_inode_of target = do
  s ← strip_prefix (text "socket:[") target
  inner ← strip_last b']' s
  parse_uint 10 u64_mod inner

-- The inode behind a link, if the link can be read.
unfoldable pub link_inode : Option Text → Option ℕ
unfolding socket_inode_of
link_inode none = none
link_inode (some target) = socket_inode_of target

unfoldable pub collect_links : ℕ → List (Option Text) → Attributor → Attributor
unfolding link_inode
collect_links pid [] m = m
collect_links pid (fd ∷ fds) m =
    collect_links pid fds (elim (link_inode fd) [ none ↦ m | some inode ↦ Map.insert inode pid m ])

unfoldable pub collect_pid_sockets : World → ℕ → Text → Attributor → Attributor
unfolding collect_links
collect_pid_sockets w pid name m = elim (w.fd_targets name) [
  | none ↦ m
  | some fds ↦ collect_links pid fds m
]

unfoldable pub scan_names : World → List Text → Attributor → Attributor
unfolding collect_pid_sockets
scan_names w [] m = m
scan_names w (name ∷ names) m =
    scan_names w names
      (elim (parse_uint 10 u32_mod name) [ none ↦ m | some pid ↦ collect_pid_sockets w pid name m ])

unfoldable pub scan_proc_fds : World → Attributor
unfolding scan_names
scan_proc_fds w = elim w.proc_names [ none ↦ [] | some names ↦ scan_names w names [] ]

unfoldable pub refresh : World → Attributor → Attributor
unfolding scan_proc_fds
refresh w a = scan_proc_fds w

unfoldable pub any_link : ℕ → List (Option Text) → Bool
unfolding link_inode
any_link inode [] = false
any_link inode (fd ∷ fds) =
    (elim (link_inode fd) [ none ↦ false | some i ↦ nat_beq i inode ]) || any_link inode fds

unfoldable pub pid_owns_inode : World → ℕ → ℕ → Bool
unfolding any_link
pid_owns_inode w pid inode = elim (w.fd_targets (show_ℕ pid)) [
  | none ↦ false
  | some fds ↦ any_link inode fds
]

-- The pid, and the cache after the lookup.
unfoldable pub lookup_inode : World → Attributor → ℕ → Option ℕ × Attributor
unfolding pid_owns_inode refresh
lookup_inode w a inode =
    let rescan : Option ℕ × Attributor = (Map.get inode (refresh w a), refresh w a) in
    elim (Map.get inode a) [
      | none ↦ rescan
      | some pid ↦ if pid_owns_inode w pid inode then (some pid, a) else rescan
    ]

unfoldable pub lookup : World → Attributor → Protocol → ℕ → Option ℕ × Attributor
unfolding find_socket_inode lookup_inode
lookup w a proto local_port = elim (find_socket_inode w proto local_port) [
  | none ↦ (none, a)
  | some inode ↦ lookup_inode w a inode
]
