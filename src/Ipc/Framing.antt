-- ===== src/Ipc/Framing.antt =====
-- Frames written by `write_frame` of crates/core/src/ipc.rs and read by `read_frame`.
use travelmode.Base.{
  ℕ, ◌≡◌, ◌≤◌, ◌<◌, refl, List, [], ◌++◌, none, some, arith, length, take-append, drop-append,
  length-append, u32_mod,
}
use travelmode.Ipc.{
  IoError, success, Json, max_frame, to_be_bytes, from_be_bytes, read_exact, read_body, read_frame,
  write_all, write_frame,
}

from-to_be_bytes : (n : ℕ) → n < u32_mod → from_be_bytes (to_be_bytes n) ≡ n
from-to_be_bytes n h = omega arith

read_exact-append :
    (xs ys : List ℕ) (end : IoError)
    → read_exact (length xs) (record { bytes = xs ++ ys; end = end })
      ≡ success (xs, record { bytes = ys; end = end })
unfolding read_exact
read_exact-append xs ys end =
    ground (arith, take-append xs ys, drop-append xs ys, length-append xs ys)

module _ {T : Type 0} (j : Json T) where
  -- A frame written to a working stream is its length and its body.
  write_frame-sent :
      (value : T) (body : List ℕ)
      → j.to_vec value ≡ some body
      → length body < u32_mod
      → (write_frame j (record { sent = []; room = none }) value).1.sent
        ≡ to_be_bytes (length body) ++ body
  unfolding write_frame write_all
  write_frame-sent value body e h = ground arith

  pub read_frame-length :
      (n : ℕ) (bytes : List ℕ) (end : IoError)
      → n < u32_mod
      → read_frame j (record { bytes = to_be_bytes n ++ bytes; end = end })
        ≡ read_body j n (record { bytes = bytes; end = end })
  unfolding read_frame
  read_frame-length n bytes end h =
      ground (arith, read_exact-append (to_be_bytes n) bytes end, from-to_be_bytes n h)

  pub read_body-exact :
      (value : T) (body rest : List ℕ) (end : IoError)
      → j.from_slice body ≡ some value
      → length body ≤ max_frame
      → read_body j (length body) (record { bytes = body ++ rest; end = end })
        ≡ success (value, record { bytes = rest; end = end })
  unfolding read_body
  read_body-exact value body rest end d h = ground (arith, read_exact-append body rest end)

  -- A value whose JSON decodes back and is at most 16 MiB long is read as it was written to a
  -- working stream, and the bytes that follow its frame are left.
  pub read-write_frame :
      (value : T) (body rest : List ℕ) (end : IoError)
      → j.to_vec value ≡ some body
      → j.from_slice body ≡ some value
      → length body ≤ max_frame
      → read_frame j (record {
        bytes = (write_frame j (record { sent = []; room = none }) value).1.sent ++ rest;
        end = end;
      })
        ≡ success (value, record { bytes = rest; end = end })
  read-write_frame value body rest end e d h =
      rw
        (
          write_frame-sent value body e (omega arith),
          read_frame-length (length body) (body ++ rest) end (omega arith),
          read_body-exact value body rest end d h,
        )
        refl
