-- ===== src/Attrib/Ownership.antt =====
-- Attribution by crates/daemon/src/attrib.rs names only processes that own the socket, however
-- stale the cache is, and finds one if there is one.
use travelmode.Base.Map
use travelmode.Base.Map.{get-insert, get-nil}
use travelmode.Base.Parsing.{parse_uint, show_ℕ}
use travelmode.Base.Parsing.Decimal.{parse-show_ℕ}
use travelmode.Base.{
  ℕ, ◌<◌, ◌≡◌, ap, true, ◌||◌, text_beq, text_beq→≡, List, [], ◌∷◌, Option, some, Text, arith,
  nat_beq_iff, nat_key, u32_mod, any, is_some, Option-cases, Bool-cases, inl, inr,
}
use mathlib.Core.Path.{subst}
use travelmode.Types.{Protocol}
use travelmode.World.{World}
use travelmode.Attrib.{
  Attributor, link_inode, collect_links, collect_pid_sockets, scan_names, scan_proc_fds, refresh,
  any_link, pid_owns_inode, lookup_inode, lookup, find_socket_inode,
}

-- The names in /proc that are pids are written as `to_string` writes them.
abbrev pub CanonicalNames : List Text → Type 0
CanonicalNames [] = Unit
CanonicalNames (name ∷ names) =
    ((pid : ℕ) → parse_uint 10 u32_mod name ≡ some pid → name ≡ show_ℕ pid) × CanonicalNames names

abbrev pub IsCanonical : World → Type 0
IsCanonical w = (names : List Text) → w.proc_names ≡ some names → CanonicalNames names

-- Every entry names an owner.
abbrev AreOwners : World → Attributor → Type 0
AreOwners w m = (inode pid : ℕ) → Map.get inode m ≡ some pid → pid_owns_inode w pid inode ≡ true

collect_links-AreOwners :
    (w : World) (pid : ℕ) (fds : List (Option Text)) (m : Attributor)
    → ((inode : ℕ) → any_link inode fds ≡ true → pid_owns_inode w pid inode ≡ true)
    → AreOwners w m
    → AreOwners w (collect_links pid fds m)
unfolding collect_links any_link
collect_links-AreOwners w pid [] m own h = h
collect_links-AreOwners w pid (fd ∷ fds) m own h = elim (Option-cases (link_inode fd)) [
  | inl e ↦
      rw (e, collect_links)
        (collect_links-AreOwners w pid fds m (λ inode a. own inode (ground arith)) h)
  | inr (i, e) ↦
      rw (e, collect_links)
        (collect_links-AreOwners w pid fds (Map.insert i pid m)
          (λ inode a. own inode (ground arith))
          (λ inode p g.
            ground (arith, get-insert i inode pid m, h inode p, own i, nat_beq_iff i inode)))
]

collect_pid_sockets-AreOwners :
    (w : World) (pid : ℕ) (name : Text) (m : Attributor)
    → name ≡ show_ℕ pid
    → AreOwners w m
    → AreOwners w (collect_pid_sockets w pid name m)
unfolding collect_pid_sockets pid_owns_inode
collect_pid_sockets-AreOwners w pid name m c h = elim (Option-cases (w.fd_targets name)) [
  | inl e ↦ rw (e, collect_pid_sockets) h
  | inr (fds, e) ↦
      rw (e, collect_pid_sockets)
        (collect_links-AreOwners w pid fds m (λ inode a. ground (arith, e, ap w.fd_targets c)) h)
]

scan_names-AreOwners :
    (w : World) (names : List Text) (m : Attributor)
    → CanonicalNames names
    → AreOwners w m
    → AreOwners w (scan_names w names m)
unfolding scan_names
scan_names-AreOwners w [] m c h = h
scan_names-AreOwners w (name ∷ names) m c h = elim (Option-cases (parse_uint 10 u32_mod name)) [
  | inl e ↦ rw (e, scan_names) (scan_names-AreOwners w names m c.1 h)
  | inr (pid, e) ↦
      rw (e, scan_names)
        (scan_names-AreOwners w names (collect_pid_sockets w pid name m) c.1
          (collect_pid_sockets-AreOwners w pid name m (c.0 pid e) h))
]

refresh-AreOwners : (w : World) (a : Attributor) → IsCanonical w → AreOwners w (refresh w a)
unfolding refresh scan_proc_fds
refresh-AreOwners w a c inode pid g = elim (Option-cases w.proc_names) [
  | inl e ↦ ground (arith, e, get-nil {V = ℕ} inode)
  | inr (names, e) ↦ ground (
    arith,
    e,
    scan_names-AreOwners w names [] (c names e)
        (λ i p q. absurd (ground (arith, get-nil {V = ℕ} i))) inode pid,
  )
]

-- Where the names in /proc that are pids are written canonically, and whatever the cache holds
-- from earlier, a lookup that names a process names one that holds, now, the socket of the looked
-- up port.
pub lookup-owns :
    (w : World) (a : Attributor) (proto : Protocol) (port pid : ℕ)
    → IsCanonical w
    → (lookup w a proto port).0 ≡ some pid
    → (inode : ℕ) × (find_socket_inode w proto port ≡ some inode)
      × (pid_owns_inode w pid inode ≡ true)
unfolding lookup lookup_inode
lookup-owns w a proto port pid c h = elim (Option-cases (find_socket_inode w proto port)) [
  | inl e ↦ absurd (ground (arith, e))
  | inr (inode, e) ↦ (inode, e, ground (arith, refresh-AreOwners w a c inode pid))
]

keeps_found :
    (pid : ℕ) (fds : List (Option Text)) (m : Attributor) (inode : ℕ)
    → (is_some (Map.get inode m) || any_link inode fds) ≡ true
    → is_some (Map.get inode (collect_links pid fds m)) ≡ true
unfolding collect_links any_link
keeps_found pid [] m inode h = ground arith
keeps_found pid (fd ∷ fds) m inode h = elim (Option-cases (link_inode fd)) [
  | inl e ↦ ground (arith, e, keeps_found pid fds m inode)
  | inr (i, e) ↦
      ground (arith, e, keeps_found pid fds (Map.insert i pid m) inode, get-insert i inode pid m)
]

collect-keeps :
    (w : World) (pid : ℕ) (name : Text) (m : Attributor) (inode : ℕ)
    → is_some (Map.get inode m) ≡ true
    → is_some (Map.get inode (collect_pid_sockets w pid name m)) ≡ true
unfolding collect_pid_sockets
collect-keeps w pid name m inode h = elim (Option-cases (w.fd_targets name)) [
  | inl e ↦ ground (arith, e)
  | inr (fds, e) ↦ ground (arith, e, keeps_found pid fds m inode)
]

scan-keeps :
    (w : World) (names : List Text) (m : Attributor) (inode : ℕ)
    → is_some (Map.get inode m) ≡ true
    → is_some (Map.get inode (scan_names w names m)) ≡ true
unfolding scan_names
scan-keeps w [] m inode h = h
scan-keeps w (name ∷ names) m inode h = elim (Option-cases (parse_uint 10 u32_mod name)) [
  | inl e ↦ rw (e, scan_names) (scan-keeps w names m inode h)
  | inr (pid, e) ↦
      rw (e, scan_names)
        (scan-keeps w names (collect_pid_sockets w pid name m) inode
          (collect-keeps w pid name m inode h))
]

collect-finds :
    (w : World) (pid : ℕ) (m : Attributor) (inode : ℕ)
    → pid_owns_inode w pid inode ≡ true
    → is_some (Map.get inode (collect_pid_sockets w pid (show_ℕ pid) m)) ≡ true
unfolding collect_pid_sockets pid_owns_inode
collect-finds w pid m inode h = elim (Option-cases (w.fd_targets (show_ℕ pid))) [
  | inl e ↦ ground (arith, e)
  | inr (fds, e) ↦ ground (arith, e, keeps_found pid fds m inode)
]

scan-finds :
    (w : World) (names : List Text) (m : Attributor) (pid inode : ℕ)
    → pid < u32_mod
    → any (text_beq (show_ℕ pid)) names ≡ true
    → pid_owns_inode w pid inode ≡ true
    → is_some (Map.get inode (scan_names w names m)) ≡ true
unfolding scan_names
scan-finds w [] m pid inode l h o = cc
scan-finds w (name ∷ names) m pid inode l h o = elim (Bool-cases (text_beq (show_ℕ pid) name)) [
  | inl e ↦
      subst (λ n. is_some (Map.get inode (scan_names w (n ∷ names) m)) ≡ true)
        (text_beq→≡ (show_ℕ pid) name e)
        (rw (parse-show_ℕ pid u32_mod l, scan_names)
          (scan-keeps w names (collect_pid_sockets w pid (show_ℕ pid) m) inode
            (collect-finds w pid m inode o)))
  | inr e ↦ elim (Option-cases (parse_uint 10 u32_mod name)) [
    | inl p ↦ rw (p, scan_names) (scan-finds w names m pid inode l (ground arith) o)
    | inr (q, p) ↦
        rw (p, scan_names)
          (scan-finds w names (collect_pid_sockets w q name m) pid inode l (ground arith) o)
  ]
]

-- If a process that /proc lists holds the socket of a port, and its pid is below 2^32, then the
-- lookup names a process, whatever the cache holds.
pub lookup-finds :
    (w : World) (a : Attributor) (proto : Protocol) (port inode pid : ℕ) (names : List Text)
    → find_socket_inode w proto port ≡ some inode
    → w.proc_names ≡ some names
    → pid < u32_mod
    → any (text_beq (show_ℕ pid)) names ≡ true
    → pid_owns_inode w pid inode ≡ true
    → is_some (lookup w a proto port).0 ≡ true
unfolding lookup lookup_inode refresh scan_proc_fds
lookup-finds w a proto port inode pid names f n l h o =
    ground (arith, scan-finds w names [] pid inode l h o)
