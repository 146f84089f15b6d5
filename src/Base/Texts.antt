-- ===== src/Base/Texts.antt =====
-- Texts as lists of code points; file paths, compared by components as `std::path` does.
use Prim.Native.Char.{code}
use Prim.Native.String.{String}
use Prim.Native.Nat.{ℕ}
use mathlib.Core.Path.{◌≡◌, refl, ap}
use mathlib.Core.Logic.{◌↔◌}
use mathlib.Core.Bool.{Bool, true, false, not, ◌&&◌}
use mathlib.Core.List.{List, [], ◌∷◌}
use native.Mathlib.Omega.{arith}
use travelmode.Base.Tests.{beq_sym, nat_beq, Key, if◌then◌else◌}
use travelmode.Base.Lists.{is_empty, retain}

abbrev pub Text : Type 0
Text = List ℕ

-- The code points of a literal.
abbrev pub text : String → Text
text String.[] = []
text (String.◌∷◌ c s) = code c ∷ text s

abbrev pub text_beq : Text → Text → Bool
text_beq [] [] = true
text_beq [] (b ∷ t) = false
text_beq (a ∷ s) [] = false
text_beq (a ∷ s) (b ∷ t) = nat_beq a b && text_beq s t

pub text_beq_refl : (s : Text) → text_beq s s ≡ true
text_beq_refl [] = refl
text_beq_refl (a ∷ s) = ground (arith, text_beq_refl s)

pub text_beq→≡ : (s t : Text) → text_beq s t ≡ true → s ≡ t
text_beq→≡ [] [] h = refl
text_beq→≡ [] (b ∷ t) h = cc
text_beq→≡ (a ∷ s) [] h = cc
text_beq→≡ (a ∷ s) (b ∷ t) h = ground (arith, text_beq→≡ s t)

pub text_beq_congr : (a b c : Text) → text_beq a b ≡ true → text_beq a c ≡ text_beq b c
text_beq_congr a b c h = ap (λ t. text_beq t c) (text_beq→≡ a b h)

pub text_beq_iff : (s t : Text) → (text_beq s t ≡ true) ↔ (s ≡ t)
text_beq_iff s t = (text_beq→≡ s t, λ e. rw e (text_beq_refl t))

instance abbrev pub text_key : Key Text
text_key = record { beq = text_beq; beq_refl = text_beq_refl; beq_congr = text_beq_congr }

-- `str::split`: there is always a first piece, so it is kept apart.
abbrev pub Pieces : Type 0
Pieces = Text × List Text

abbrev push_piece : Bool → ℕ → Pieces → Pieces
push_piece true c (p, ps) = ([], p ∷ ps)
push_piece false c (p, ps) = (c ∷ p, ps)

abbrev pub split_by : (ℕ → Bool) → Text → Pieces
split_by d [] = ([], [])
split_by d (c ∷ s) = push_piece (d c) c (split_by d s)

-- `PathBuf`: the text is what `display` shows.
pub record FilePath : Type 0 where
  pub display : Text

abbrev starts_with_slash : Text → Bool
starts_with_slash [] = false
starts_with_slash (c ∷ s) = nat_beq c b'/'

-- The names of a path: empty ones and `.` are skipped, save a leading `.`, which stands for
-- itself in a relative path.
abbrev is_plain : Text → Bool
is_plain s = not (is_empty s) && not (text_beq s (b'.' ∷ []))

abbrev names : Bool → Pieces → List Text
names true (p, ps) = retain is_plain ps
names false (p, ps) = if is_empty p then retain is_plain ps else p ∷ retain is_plain ps

abbrev pub components : FilePath → Bool × List Text
components p = (
  starts_with_slash p.display,
  names (starts_with_slash p.display) (split_by (λ c. nat_beq c b'/') p.display),
)

abbrev pub texts_beq : List Text → List Text → Bool
texts_beq [] [] = true
texts_beq [] (b ∷ t) = false
texts_beq (a ∷ s) [] = false
texts_beq (a ∷ s) (b ∷ t) = text_beq a b && texts_beq s t

pub texts_beq_refl : (s : List Text) → texts_beq s s ≡ true
texts_beq_refl [] = refl
texts_beq_refl (a ∷ s) = ground (arith, text_beq_refl a, texts_beq_refl s)

texts_beq→≡ : (s t : List Text) → texts_beq s t ≡ true → s ≡ t
texts_beq→≡ [] [] h = refl
texts_beq→≡ [] (b ∷ t) h = cc
texts_beq→≡ (a ∷ s) [] h = cc
texts_beq→≡ (a ∷ s) (b ∷ t) h = ground (arith, text_beq→≡ a b, texts_beq→≡ s t)

abbrev bool_beq : Bool → Bool → Bool
bool_beq true b = b
bool_beq false b = not b

-- `Path::eq`: equal roots and equal components.
unfoldable pub path_beq : FilePath → FilePath → Bool
path_beq p q =
    bool_beq (components p).0 (components q).0 && texts_beq (components p).1 (components q).1

pub path_beq_refl : (p : FilePath) → path_beq p p ≡ true
unfolding path_beq
path_beq_refl p = ground (arith, texts_beq_refl (components p).1)

pub path_beq_congr : (p q r : FilePath) → path_beq p q ≡ true → path_beq p r ≡ path_beq q r
unfolding path_beq
path_beq_congr p q r h = ground (arith, texts_beq→≡ (components p).1 (components q).1)

instance abbrev pub path_key : Key FilePath
path_key = record { beq = path_beq; beq_refl = path_beq_refl; beq_congr = path_beq_congr }

pub path_beq_sym : (p q : FilePath) → path_beq p q ≡ path_beq q p
path_beq_sym p q = beq_sym p q
