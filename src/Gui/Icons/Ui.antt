-- ===== src/Gui/Icons/Ui.antt =====
-- The icons of the pages: `ui_icon`, `ui_image` and `set_ui_icon` of crates/gui/src/icons.rs. The
-- embedded files are the argument `files`, and GTK's decoder is `from_bytes`.
use travelmode.Base.{
  ℕ, Bool, List, [], ◌∷◌, Option, none, some, Text, text, text_beq, any, if◌then◌else◌,
}

abbrev pub ui_icons : List Text
ui_icons =
    text "app-generic"
    ∷ text "apps"
    ∷ text "blocked"
    ∷ text "connection"
    ∷ text "connections"
    ∷ text "dns"
    ∷ text "download"
    ∷ text "filtering"
    ∷ text "gateway"
    ∷ text "license"
    ∷ text "pause"
    ∷ text "plane"
    ∷ text "play"
    ∷ text "session"
    ∷ text "settings"
    ∷ text "socket"
    ∷ text "upload"
    ∷ text "uptime"
    ∷ []

-- An image widget: its size, and the texture that it shows.
pub record UiImage (T : Type 0) : Type 0 where
  pub pixel_size : ℕ
  pub paintable : Option T

module _ {T : Type 0} (files : Text → Bool → List ℕ) (from_bytes : List ℕ → Option T) where
  abbrev pub ui_icon_bytes : Text → Bool → Option (List ℕ)
  ui_icon_bytes name dark =
      if any (λ n. text_beq n name) ui_icons then some (files name dark) else none

  unfoldable pub ui_icon : Text → Bool → Option T
  ui_icon name dark = elim (ui_icon_bytes name dark) [ none ↦ none | some bytes ↦ from_bytes bytes ]

  -- An icon that is unknown or cannot be decoded leaves the image as it was.
  unfoldable pub set_ui_icon : UiImage T → Text → Bool → UiImage T
  unfolding ui_icon
  set_ui_icon image name dark = elim (ui_icon name dark) [
    | none ↦ image
    | some texture ↦ record image { paintable = some texture }
  ]

  unfoldable pub ui_image : Text → Bool → UiImage T
  unfolding set_ui_icon
  ui_image name dark = set_ui_icon (record { pixel_size = 24; paintable = none }) name dark
