-- ===== src/Tests/Formats.antt =====
-- Byte counts and the tray at concrete inputs.
use travelmode.Base.{◌≡◌, refl, true, false, not, ◌&&◌, arith, retain, any, text_beq, []}
use travelmode.Base.Floats.{IsDocumented}
use travelmode.Gui.Icons.Ui.{ui_icons}
use travelmode.Gui.Tabs.{tabs}
use travelmode.Gui.Fmt
use travelmode.Gui.Fmt.Units.{in_unit, human_bytes-units}
use travelmode.Cli.Bytes
use travelmode.Gui.Window.{init, close}
use travelmode.Gui.Tray.{quit, choose, deliver, try_spawn, try_spawn-close}
use travelmode.Tests.Gui.{floats, formats}

floats-IsDocumented : IsDocumented floats
floats-IsDocumented = record {
  kib = λ n h. refl;
  mib = λ n h. ground arith;
  gib = λ n h. ground arith;
  tib = λ n h. ground arith;
}

human_bytes-units_test :
    (Fmt.human_bytes floats 1048576 ≡ in_unit floats 1048576)
    × (Bytes.human_bytes floats 1048576 ≡ in_unit floats 1048576)
human_bytes-units_test = human_bytes-units floats 1048576 floats-IsDocumented (omega arith)

try_spawn-close_test :
    ((close (deliver formats (try_spawn true).1 (init false))).1 ≡ not (true && not false))
    × ((close
          (deliver formats (choose false quit) (deliver formats (try_spawn true).1 (init false)))).1
        ≡ true)
unfolding init
try_spawn-close_test = try_spawn-close formats true false (init false)

-- Every tab has an icon of the set.
tabs_test : retain (λ t. not (any (λ n. text_beq n t.icon) ui_icons)) tabs ≡ []
tabs_test = refl
