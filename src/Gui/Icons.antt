-- ===== src/Gui/Icons.antt =====
-- The icons of the graphical client: crates/gui/src/icons.rs. The decoder of the crate png is a
-- parameter, and the embedded files are arguments.
pub mod Ui
use travelmode.Base.{ℕ, Bool, not, ◌||◌, List, [], ◌∷◌, ◌++◌, Text, text, nat_beq, if◌then◌else◌}
use travelmode.Base.Parsing.{show_ℕ}
use travelmode.Ipc.{Outcome, success, failure}

-- A decoded image: what it calls its format, whether that is RGBA with eight bits, and its bytes.
pub record Image : Type 0 where
  pub format : Text
  pub is_rgba8 : Bool
  pub width : ℕ
  pub height : ℕ
  pub bytes : List ℕ

pub record Icon : Type 0 where
  pub width : ℕ
  pub height : ℕ
  pub pixels : List ℕ

abbrev pub sizes : List ℕ
sizes = 24 ∷ 32 ∷ 48 ∷ 64 ∷ 128 ∷ 256 ∷ []

abbrev pub ui_icon_name : Text → Bool → Text
ui_icon_name name dark =
    text "travelmode-ui-" ++ name ++ text "-" ++ (if dark then text "dark" else text "light")

-- Each whole pixel is rotated right by one byte; bytes behind the last stay.
unfoldable pub rotate_pixels : List ℕ → List ℕ
rotate_pixels (r ∷ g ∷ b ∷ a ∷ rest) = a ∷ r ∷ g ∷ b ∷ rotate_pixels rest
rotate_pixels [] = []
rotate_pixels (r ∷ []) = r ∷ []
rotate_pixels (r ∷ g ∷ []) = r ∷ g ∷ []
rotate_pixels (r ∷ g ∷ b ∷ []) = r ∷ g ∷ b ∷ []

abbrev wrong_size : Image → ℕ → Text
wrong_size image size =
    text "unexpected PNG size "
    ++ show_ℕ image.width
    ++ text "x"
    ++ show_ℕ image.height
    ++ text " (want "
    ++ show_ℕ size
    ++ text "x"
    ++ show_ℕ size
    ++ text ")"

-- The sizes are below 2^31, so the casts keep them.
unfoldable pub pixmap : Image → ℕ → Outcome Text Icon
unfolding rotate_pixels
pixmap image size =
    if not image.is_rgba8
    then failure (text "unsupported PNG format " ++ image.format ++ text " (want 8-bit RGBA)")
    else if not (nat_beq image.width size) || not (nat_beq image.height size)
    then failure (wrong_size image size)
    else success
        (record { width = image.width; height = image.height; pixels = rotate_pixels image.bytes })

module _ (decode : List ℕ → Outcome Text Image) where
  unfoldable pub decode_png : List ℕ → ℕ → Outcome Text Icon
  unfolding pixmap
  decode_png bytes size = elim (decode bytes) [
    | failure e ↦ failure e
    | success image ↦ pixmap image size
  ]

  abbrev kept : Outcome Text Icon → List Icon → List Icon
  kept (failure e) rest = rest
  kept (success icon) rest = icon ∷ rest

  -- The icons of one variant; those that cannot be decoded are left out.
  unfoldable pub icons : List (List ℕ) → List ℕ → List Icon
  unfolding decode_png
  icons (png ∷ pngs) (size ∷ rest) = kept (decode_png png size) (icons pngs rest)
  icons [] rest = []
  icons (png ∷ pngs) [] = []
