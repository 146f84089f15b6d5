-- ===== src/Gui/Fmt.antt =====
-- Byte counts, speeds and uptimes as crates/gui/src/fmt.rs writes them.
pub mod Units
use mathlib.Core.Option
use travelmode.Base.{
  ℕ, zero, suc, ◌+◌, List, [], ◌∷◌, ◌++◌, Text, text, nat_beq, get_elem?, if◌then◌else◌, Bool, ◌/◌,
  ◌%◌, ltb,
}
use travelmode.Base.Floats.{Floats}
use travelmode.Base.Parsing.{show_ℕ}

abbrev units : List Text
units = text "B" ∷ text "KiB" ∷ text "MiB" ∷ text "GiB" ∷ text "TiB" ∷ []

-- The loop, with the number of units that are left: the value and the unit that it ends with.
unfoldable pub scale : Floats → ℕ → ℕ → ℕ → ℕ × ℕ
scale fl zero value unit = (value, unit)
scale fl (suc left) value unit =
    let rest = scale fl left (fl.div_1024 value) (unit + 1) in
    if fl.at_least_1024 value then rest else (value, unit)

unfoldable pub human_bytes : Floats → ℕ → Text
unfolding scale
human_bytes fl n =
    let (value, unit) = scale fl 4 (fl.from_u64 n) 0 in
    if nat_beq unit 0
    then show_ℕ n ++ text " B"
    else fl.show_1 value ++ b' ' ∷ Option.get_or (get_elem? units unit) []

abbrev pub human_speed : Floats → ℕ → Text
human_speed fl bytes_per_sec = human_bytes fl bytes_per_sec ++ text "/s"

unfoldable pub human_uptime : ℕ → Text
human_uptime secs =
    let days = secs / 86400 in
    let hours = (secs % 86400) / 3600 in
    let mins = (secs % 3600) / 60 in
    let s = secs % 60 in
    if ltb 0 days
    then show_ℕ days ++ text "d " ++ show_ℕ hours ++ text "h"
    else if ltb 0 hours
    then show_ℕ hours ++ text "h " ++ show_ℕ mins ++ text "m"
    else if ltb 0 mins
    then show_ℕ mins ++ text "m " ++ show_ℕ s ++ text "s"
    else show_ℕ s ++ text "s"
