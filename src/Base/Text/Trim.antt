-- ===== src/Base/Text/Trim.antt =====
-- TrimSpace done twice.
use Prim.Native.Char.{Char}
use Prim.Native.String.{String, [], ◌∷◌}
use mathlib.Core.Path.{◌≡◌, refl, ap, ◌∙◌}
use mathlib.Core.Bool.{Bool, true, false, ◌&&◌}
use sdkit.Base.Tests.{if◌then◌else◌}
use sdkit.Base.Text.{is_space, is_nil, trim_left, trim_right, trim_space}

-- A text that does not start with a space.
abbrev Starts : String → Type 0
Starts [] = Unit
Starts (c ∷ s) = is_space c ≡ false

choice-Starts :
    (c : Char) (s rest : String) (b : Bool)
    → is_space c ≡ b
    → Starts rest
    → Starts (if b then rest else c ∷ s)
choice-Starts c s rest true e h = h
choice-Starts c s rest false e h = e

trim_left-Starts : (s : String) → Starts (trim_left s)
unfolding trim_left
trim_left-Starts [] = tt
trim_left-Starts (c ∷ s) = choice-Starts c s (trim_left s) (is_space c) refl (trim_left-Starts s)

kept-Starts :
    (c : Char) (s : String) (b : Bool) → is_space c ≡ false → Starts (if b then [] else c ∷ s)
kept-Starts c s true h = tt
kept-Starts c s false h = h

trim_right-Starts : (s : String) → Starts s → Starts (trim_right s)
unfolding trim_right
trim_right-Starts [] h = tt
trim_right-Starts (c ∷ s) h = kept-Starts c (trim_right s) (is_space c && is_nil (trim_right s)) h

left_done : (s : String) → Starts s → trim_left s ≡ s
unfolding trim_left
left_done [] h = refl
left_done (c ∷ s) h = rw h refl

choice_done :
    (c : Char) (t : String) (b : Bool)
    → (is_space c && is_nil t) ≡ b
    → trim_right t ≡ t
    → trim_right (if b then [] else c ∷ t) ≡ (if b then [] else c ∷ t)
unfolding trim_right
choice_done c t true e h = refl
choice_done c t false e h = rw (h, e) refl

right_done : (s : String) → trim_right (trim_right s) ≡ trim_right s
unfolding trim_right
right_done [] = refl
right_done (c ∷ s) =
    choice_done c (trim_right s) (is_space c && is_nil (trim_right s)) refl (right_done s)

pub trim_space_twice : (s : String) → trim_space (trim_space s) ≡ trim_space s
unfolding trim_space
trim_space_twice s =
    ap trim_right
      (left_done (trim_right (trim_left s)) (trim_right-Starts (trim_left s) (trim_left-Starts s)))
    ∙ right_done (trim_left s)
