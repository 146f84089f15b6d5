-- ===== src/Base/Parsing/Words.antt =====
-- Words that whitespace sets apart: what `split_whitespace` makes of them.
use Prim.Native.Nat.{ℕ}
use mathlib.Core.Path.{◌≡◌, refl, ap}
use mathlib.Core.Bool.{Bool, true, false}
use mathlib.Core.List.{List, [], ◌∷◌, ◌++◌}
use native.Mathlib.Omega.{arith}
use travelmode.Base.Lists.{is_empty, any}
use travelmode.Base.Texts.{Text, split_by}
use travelmode.Base.Parsing.{is_whitespace, pieces, split_whitespace}

abbrev pub IsWord : Text → Type 0
IsWord t = (is_empty t ≡ false) × (any is_whitespace t ≡ false)

-- Text that has the words in this order, set apart by any amount of whitespace of any kind, which may
-- also stand in front and at the end.
pub data IsSpread : List Text → Text → Type 0 where
  no_words : IsSpread [] []
  last_word : (t : Text) → IsWord t → IsSpread (t ∷ []) t
  space :
      (c : ℕ) (ts : List Text) (s : Text)
      → is_whitespace c ≡ true
      → IsSpread ts s
      → IsSpread ts (c ∷ s)
  word :
      (t : Text) (c : ℕ) (ts : List Text) (s : Text)
      → IsWord t
      → is_whitespace c ≡ true
      → IsSpread ts s
      → IsSpread (t ∷ ts) (t ++ (c ∷ s))

split_word :
    (d : ℕ → Bool) (sep : ℕ) (t s : Text)
    → d sep ≡ true
    → any d t ≡ false
    → split_by d (t ++ (sep ∷ s)) ≡ (t, pieces (split_by d s))
split_word d sep [] s e h = ground arith
split_word d sep (c ∷ t) s e h = ground (arith, split_word d sep t s e)

split_last_word : (d : ℕ → Bool) (t : Text) → any d t ≡ false → split_by d t ≡ (t, [])
split_last_word d [] h = refl
split_last_word d (c ∷ t) h = ground (arith, split_last_word d t)

-- Text with the words set apart by whitespace is split into the words.
pub split_whitespace-IsSpread :
    (ts : List Text) (s : Text) → IsSpread ts s → split_whitespace s ≡ ts
unfolding split_whitespace
split_whitespace-IsSpread _ _ no_words = refl
split_whitespace-IsSpread _ _ (last_word t w) = rw (split_last_word is_whitespace t w.1, w.0) refl
split_whitespace-IsSpread _ _ (space c ts s e h) = rw e (split_whitespace-IsSpread ts s h)
split_whitespace-IsSpread _ _ (word t c ts s w e h) =
    rw (split_word is_whitespace c t s e w.1, w.0) (ap (◌∷◌ t) (split_whitespace-IsSpread ts s h))
