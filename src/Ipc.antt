-- ===== src/Ipc.antt =====
-- The socket protocol: crates/core/src/ipc.rs. A reader is the bytes that will arrive and how the
-- stream ends after them; a writer is the bytes that reached the peer. serde_json is the interface
-- `Json`: a text form and its decoder.
pub mod Framing
pub mod Link
pub mod Frames
use travelmode.Base.{
  ℕ, ◌+◌, ◌-◌, ◌*◌, ◌/◌, ◌%◌, Bool, true, false, List, [], ◌∷◌, ◌++◌, Option, none, some, Text,
  length, take, drop, ltb, leb, u32_mod, u32_from_be, if◌then◌else◌,
}
use travelmode.Types.{
  RuleInput, Rule, Status, NetworkInfo, ProcessInfo, ConnectionInfo, AppUsage, Event,
}

pub data Request : Type 0 where
  ping get_status get_network get_processes get_connections get_top list_rules : Request
  add_rule : RuleInput → Request
  remove_rule : ℕ → Request
  set_paused : Bool → Request
  subscribe : Request

pub data Response : Type 0 where
  pong : Response
  status : Status → Response
  network : NetworkInfo → Response
  processes : List ProcessInfo → Response
  connections : List ConnectionInfo → Response
  top : List AppUsage → Response
  rules : List Rule → Response
  ok : Response
  error : Text → Response
  event : Event → Response

-- `std::io::Error`, by the one kind that the code tells apart.
pub data IoError : Type 0 where
  unexpected_eof other_error : IoError

pub data IpcError : Type 0 where
  io : IoError → IpcError
  json : IpcError
  frame_too_large : ℕ → IpcError
  closed : IpcError

pub data Outcome {ℓ} (E : Type 0) (A : Type ℓ) : Type ℓ where
  success : A → Outcome E A
  failure : E → Outcome E A

infixl 5 ◌>>=◌
abbrev pub ◌>>=◌ {ℓ κ} :
    {E : Type 0} {A : Type ℓ} {B : Type κ} → Outcome E A → (A → Outcome E B) → Outcome E B
success a >>= f = f a
failure e >>= f = failure e

-- serde_json on one type.
pub record Json (T : Type 0) : Type 0 where
  pub to_vec : T → Option (List ℕ)
  pub from_slice : List ℕ → Option T

pub record Reader : Type 0 where
  pub bytes : List ℕ
  pub end : IoError

-- `room` is the number of bytes after which writing fails, if it does.
pub record Writer : Type 0 where
  pub sent : List ℕ
  pub room : Option ℕ

-- 16 MiB.
abbrev pub max_frame : ℕ
max_frame = 16777216

abbrev pub to_be_bytes : ℕ → List ℕ
to_be_bytes n = (n / 16777216) % 256 ∷ (n / 65536) % 256 ∷ (n / 256) % 256 ∷ n % 256 ∷ []

abbrev pub from_be_bytes : List ℕ → ℕ
from_be_bytes (a ∷ b ∷ c ∷ d ∷ _) = u32_from_be a b c d
from_be_bytes _ = 0

unfoldable pub read_exact : ℕ → Reader → Outcome IoError (List ℕ × Reader)
read_exact n reader =
    if leb n (length reader.bytes)
    then success (take n reader.bytes, record reader { bytes = drop n reader.bytes })
    else failure reader.end

-- The error of the four length bytes, and that of the body by `From`.
abbrev pub length_error : IoError → IpcError
length_error unexpected_eof = closed
length_error other_error = io other_error

abbrev pub map_error {ℓ} : {A : Type ℓ} {E F : Type 0} → (E → F) → Outcome E A → Outcome F A
map_error f (success a) = success a
map_error f (failure e) = failure (f e)

abbrev pub ok_or {ℓ} : {A : Type ℓ} {E : Type 0} → E → Option A → Outcome E A
ok_or e none = failure e
ok_or e (some a) = success a

module _ {T : Type 0} (j : Json T) where
  unfoldable pub read_body : ℕ → Reader → Outcome IpcError (T × Reader)
  unfolding read_exact
  read_body len reader = if ltb max_frame len then failure (frame_too_large len) else (do
    (buf, rest) ← map_error io (read_exact len reader)
    value ← ok_or json (j.from_slice buf)
    success (value, rest))

  unfoldable pub read_frame : Reader → Outcome IpcError (T × Reader)
  unfolding read_body
  read_frame reader = do
    (len_buf, rest) ← map_error length_error (read_exact 4 reader)
    read_body (from_be_bytes len_buf) rest

  unfoldable pub write_all : List ℕ → Writer → Option IpcError × Writer
  write_all bs w = elim w.room [
    | none ↦ (none, record w { sent = w.sent ++ bs })
    | some room ↦
        if leb (length bs) room
        then (none, record { sent = w.sent ++ bs; room = some (room - length bs) })
        else (some (io other_error), record { sent = w.sent ++ take room bs; room = some 0 })
  ]

  -- The error, if there is one, and the writer after it; flushing does not change what was sent.
  unfoldable pub write_frame : Writer → T → Option IpcError × Writer
  unfolding write_all
  write_frame w value = elim (j.to_vec value) [
    | none ↦ (some json, w)
    | some body ↦
        let (e, w') = write_all (to_be_bytes (length body % u32_mod)) w in
        elim e [ some err ↦ (some err, w') | none ↦ write_all body w' ]
  ]
