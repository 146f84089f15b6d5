-- ===== src/Base/Floats.antt =====
-- 64-bit floating-point numbers, each given by its bits: what the sources use of IEEE 754 arithmetic
-- and of its formatting by std.
use travelmode.Base.Tests.{leb}
use travelmode.Base.Words.{u64_mod}
use travelmode.Base.Texts.{Text}
use mathlib.Core.Path.{◌≡◌}
use mathlib.Core.Bool.{Bool}
use Prim.Native.Nat.{ℕ, ◌<◌}

pub record Floats : Type 0 where
  -- `n as f64`
  pub from_u64 : ℕ → ℕ
  -- `value >= 1024.0`
  pub at_least_1024 : ℕ → Bool
  -- `value / 1024.0`
  pub div_1024 : ℕ → ℕ
  -- `{value:.1}`
  pub show_1 : ℕ → Text

-- Conversion rounds to the nearest number, so it keeps the order and the powers of two, and a
-- division by 1024 is exact: so the tests find how the integer compares with the powers of 1024.
pub record IsDocumented (fl : Floats) : Type 0 where
  pub kib : (n : ℕ) → n < u64_mod → fl.at_least_1024 (fl.from_u64 n) ≡ leb 1024 n
  pub mib : (n : ℕ) → n < u64_mod → fl.at_least_1024 (fl.div_1024 (fl.from_u64 n)) ≡ leb 1048576 n
  pub gib :
      (n : ℕ)
      → n < u64_mod
      → fl.at_least_1024 (fl.div_1024 (fl.div_1024 (fl.from_u64 n))) ≡ leb 1073741824 n
  pub tib :
      (n : ℕ)
      → n < u64_mod
      → fl.at_least_1024 (fl.div_1024 (fl.div_1024 (fl.div_1024 (fl.from_u64 n))))
        ≡ leb 1099511627776 n
