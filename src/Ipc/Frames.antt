-- ===== src/Ipc/Frames.antt =====
-- Values that the protocol of crates/core/src/ipc.rs carries unchanged, and the frames they make.
use mathlib.Core.List.{append_assoc}
use travelmode.Base.{
  ℕ, ◌≡◌, ◌≤◌, refl, List, [], ◌++◌, none, some, arith, length, take, drop, ◌+◌, ◌-◌, ◌⊎◌, inl, inr,
  suc, ◌∷◌, ◌∙◌, zero,
}
use travelmode.Ipc.{
  IoError, Outcome, success, failure, Json, max_frame, to_be_bytes, from_be_bytes, Reader, Writer,
  read_exact, read_body, read_frame, write_all, write_frame, IpcError, length_error,
}
use travelmode.Ipc.Framing.{read_frame-length, read_body-exact}

-- The JSON of the value decodes to it again, and fits into a frame.
pub record Travels {T : Type 0} (j : Json T) (value : T) : Type 0 where
  pub body : List ℕ
  pub encodes : j.to_vec value ≡ some body
  pub decodes : j.from_slice body ≡ some value
  pub fits : length body ≤ max_frame

abbrev pub frame : List ℕ → List ℕ
frame body = to_be_bytes (length body) ++ body

abbrev pub working : List ℕ → Writer
working sent = record { sent = sent; room = none }

module _ {T : Type 0} (j : Json T) where
  pub write_frame-Travels :
      (value : T) (sent : List ℕ) (t : Travels j value)
      → write_frame j (working sent) value ≡ (none, working (sent ++ frame t.body))
  unfolding write_frame write_all
  write_frame-Travels value sent t =
      ground (arith, t.encodes, t.fits, append_assoc sent (to_be_bytes (length t.body)) t.body)

  pub read_frame-Travels :
      (value : T) (rest : List ℕ) (end : IoError) (t : Travels j value)
      → read_frame j (record { bytes = frame t.body ++ rest; end = end })
        ≡ success (value, record { bytes = rest; end = end })
  read_frame-Travels value rest end t =
      read_frame-length j (length t.body) (t.body ++ rest) end (omega (arith, t.fits))
      ∙ read_body-exact j value t.body rest end t.decodes t.fits

length-drop : {A : Type 0} (n : ℕ) (xs : List A) → length (drop n xs) ≡ length xs - n
length-drop zero xs = omega arith
length-drop (suc n) [] = omega arith
length-drop (suc n) (x ∷ xs) = omega (arith, length-drop n xs)

-- The length of the stream that is left, if the frame is read.
abbrev pub left_over : {T : Type 0} → Outcome IpcError (T × Reader) → ℕ
left_over (success (v, r)) = length r.bytes
left_over (failure e) = 0

module _ {T : Type 0} (j : Json T) where
  read_body-left_over : (len : ℕ) (r : Reader) → left_over (read_body j len r) ≤ length r.bytes
  unfolding read_body read_exact
  read_body-left_over len r = ground (arith, length-drop len r.bytes)

  -- Both outcomes of a read, with the equation.
  pub read_cases :
      (r : Reader)
      → ((e : IpcError) × (read_frame j r ≡ failure e))
        ⊎ ((v : T) × (rest : Reader) × (read_frame j r ≡ success (v, rest)))
  read_cases r = outcome (read_frame j r) refl
    where
      outcome :
          (o : Outcome IpcError (T × Reader))
          → read_frame j r ≡ o
          → ((e : IpcError) × (read_frame j r ≡ failure e))
            ⊎ ((v : T) × (rest : Reader) × (read_frame j r ≡ success (v, rest)))
      outcome (failure e) h = inl (e, h)
      outcome (success (v, rest)) h = inr (v, rest, h)

  -- Reading a frame takes its length bytes at least.
  pub read_frame-left_over :
      (r : Reader) (v : T) (rest : Reader)
      → read_frame j r ≡ success (v, rest)
      → length rest.bytes + 4 ≤ length r.bytes
  unfolding read_frame read_exact
  read_frame-left_over r v rest h = ground (
    arith,
    length-drop 4 r.bytes,
    read_body-left_over (from_be_bytes (take 4 r.bytes)) (record r { bytes = drop 4 r.bytes }),
  )

  -- Nothing is read from a stream that has ended.
  pub read_frame-nil :
      (end : IoError) → read_frame j (record { bytes = []; end = end }) ≡ failure (length_error end)
  unfolding read_frame read_exact
  read_frame-nil end = refl
