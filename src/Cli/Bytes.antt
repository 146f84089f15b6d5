-- ===== src/Cli/Bytes.antt =====
-- The byte counts that crates/cli/src/main.rs prints.
use mathlib.Core.Option
use travelmode.Base.{
  ℕ, zero, suc, ◌+◌, List, [], ◌∷◌, ◌++◌, Text, text, nat_beq, get_elem?, if◌then◌else◌,
}
use travelmode.Base.Floats.{Floats}
use travelmode.Base.Parsing.{show_ℕ}

abbrev units : List Text
units = text "B" ∷ text "KiB" ∷ text "MiB" ∷ text "GiB" ∷ text "TiB" ∷ []

-- The loop, with the number of units that are left: the value and the unit that it ends with.
unfoldable pub scale : Floats → ℕ → ℕ → ℕ → ℕ × ℕ
scale fl zero value unit = (value, unit)
scale fl (suc left) value unit =
    let rest = scale fl left (fl.div_1024 value) (unit + 1) in
    if fl.at_least_1024 value then rest else (value, unit)

unfoldable pub human_bytes : Floats → ℕ → Text
unfolding scale
human_bytes fl n =
    let (value, unit) = scale fl 4 (fl.from_u64 n) 0 in
    if nat_beq unit 0
    then show_ℕ n ++ text " B"
    else fl.show_1 value ++ b' ' ∷ Option.get_or (get_elem? units unit) []
