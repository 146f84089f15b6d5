-- ===== src/Gui/Fmt/Units.antt =====
-- The unit of a byte count: `human_bytes` of crates/gui/src/fmt.rs and of crates/cli/src/main.rs.
use travelmode.Base.{ℕ, ◌<◌, ◌≡◌, ◌++◌, Text, text, arith, ltb, u64_mod, if◌then◌else◌}
use travelmode.Base.Floats.{Floats, IsDocumented}
use travelmode.Base.Parsing.{show_ℕ}
use travelmode.Gui.Fmt
use travelmode.Cli.Bytes

-- The number itself below a KiB, and from then on the number divided down to the largest unit that
-- it reaches, TiB at most, with one decimal.
abbrev pub in_unit : Floats → ℕ → Text
in_unit fl n =
    if ltb n 1024
    then show_ℕ n ++ text " B"
    else if ltb n 1048576
    then fl.show_1 (fl.div_1024 (fl.from_u64 n)) ++ text " KiB"
    else if ltb n 1073741824
    then fl.show_1 (fl.div_1024 (fl.div_1024 (fl.from_u64 n))) ++ text " MiB"
    else if ltb n 1099511627776
    then fl.show_1 (fl.div_1024 (fl.div_1024 (fl.div_1024 (fl.from_u64 n)))) ++ text " GiB"
    else fl.show_1 (fl.div_1024 (fl.div_1024 (fl.div_1024 (fl.div_1024 (fl.from_u64 n)))))
      ++ text " TiB"

-- Both clients write a byte count in the largest of the units that it reaches.
pub human_bytes-units :
    (fl : Floats) (n : ℕ)
    → IsDocumented fl
    → n < u64_mod
    → (Fmt.human_bytes fl n ≡ in_unit fl n) × (Bytes.human_bytes fl n ≡ in_unit fl n)
unfolding Fmt.human_bytes Bytes.human_bytes
human_bytes-units fl n d h = (
  ground (arith, d.kib n h, d.mib n h, d.gib n h, d.tib n h),
  ground (arith, d.kib n h, d.mib n h, d.gib n h, d.tib n h),
)
