-- ===== src/Gui/Pages.antt =====
-- What the pages of the graphical client share: crates/gui/src/pages/mod.rs, with the order of rows
-- of crates/gui/src/state.rs. A row is named by its key in
-- the client's state; a section is the rows in it, and the sort keys stand in the rows, which share
-- them with the section.
pub mod Applications
pub mod Connections
pub mod Overview
pub mod Stale
use Prim.Native.Nat.{compare, Ordering}
use travelmode.Base.{
  ℕ, ◌-◌, ◌/◌, ◌%◌, Bool, true, false, not, List, [], ◌∷◌, ◌++◌, Text, text, text_beq, retain, ltb,
  is_empty, if◌then◌else◌,
}
use travelmode.Types.{IpAddr}
use travelmode.Base.Floats.{Floats}
use travelmode.Base.Parsing.{show_ℕ}

pub record SortKey : Type 0 where
  pub primary : ℕ
  pub secondary : ℕ
  pub name : Text

abbrev then_with : Ordering → Ordering → Ordering
then_with Ordering.eq b = b
then_with a b = a

-- Texts are ordered by their bytes.
unfoldable pub cmp_text : Text → Text → Ordering
cmp_text [] [] = Ordering.eq
cmp_text [] (b ∷ t) = Ordering.lt
cmp_text (a ∷ s) [] = Ordering.gt
cmp_text (a ∷ s) (b ∷ t) = then_with (compare a b) (cmp_text s t)

unfoldable pub cmp_rows : SortKey → SortKey → Ordering
unfolding cmp_text
cmp_rows a b =
    then_with (compare b.primary a.primary)
      (then_with (compare b.secondary a.secondary) (cmp_text a.name b.name))

abbrev pub Section : Type 0
Section = List Text

abbrev pub insert_row : Text → Section → Section
insert_row key section = section ++ key ∷ []

abbrev pub remove_row : Text → Section → Section
remove_row key section = retain (λ k. not (text_beq k key)) section

-- Floating-point numbers, and an address as std shows it.
pub record Formats : Type 0 where
  pub floats : Floats
  pub show_ip : IpAddr → Text
