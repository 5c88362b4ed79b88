-- ===== src/Base/Text.antt =====
-- What the code uses of Go's `strings` and `strconv`: TrimSpace and FormatInt.
pub mod Trim
use Prim.Native.Nat.{ℕ, zero, suc, ◌/◌, ◌%◌}
use Prim.Native.Char.{Char, code}
use Prim.Native.String.{String, [], ◌∷◌, ◌++◌}
use mathlib.Core.Path.{◌≡◌, refl}
use mathlib.Core.Bool.{Bool, true, false, ◌||◌, ◌&&◌}
use sdkit.Base.Tests.{◌==◌, leb, ltb, if◌then◌else◌}
use sdkit.Base.Int.{ℤ, pos, negsuc}

-- unicode.IsSpace
abbrev pub is_space : Char → Bool
is_space c =
    let n = code c in
    (leb 9 n && leb n 13)
    || n == 32
    || n == 0x85
    || n == 0xa0
    || n == 0x1680
    || (leb 0x2000 n && leb n 0x200a)
    || n == 0x2028
    || n == 0x2029
    || n == 0x202f
    || n == 0x205f
    || n == 0x3000

unfoldable pub trim_left : String → String
trim_left [] = []
trim_left (c ∷ s) = let rest = trim_left s in if is_space c then rest else c ∷ s

abbrev is_nil : String → Bool
is_nil [] = true
is_nil (c ∷ s) = false

unfoldable pub trim_right : String → String
trim_right [] = []
trim_right (c ∷ s) = let rest = trim_right s in if is_space c && is_nil rest then [] else c ∷ rest

-- strings.TrimSpace
unfoldable pub trim_space : String → String
unfolding trim_left trim_right
trim_space s = trim_right (trim_left s)

abbrev digit : ℕ → String
digit d =
    if d == 0
    then "0"
    else if d == 1
    then "1"
    else if d == 2
    then "2"
    else if d == 3
    then "3"
    else if d == 4
    then "4"
    else if d == 5
    then "5"
    else if d == 6
    then "6"
    else if d == 7
    then "7"
    else if d == 8
    then "8"
    else "9"

-- The digits of `n` before `s`; a number has fewer digits than it counts, so `n` is enough fuel.
digits_of : ℕ → ℕ → String → String
digits_of zero n s = digit (n % 10) ++ s
digits_of (suc fuel) n s =
    let more = digits_of fuel (n / 10) (digit (n % 10) ++ s) in
    if ltb n 10 then digit (n % 10) ++ s else more

-- strconv.FormatInt(v, 10)
unfoldable pub format_int : ℤ → String
unfolding digits_of
format_int (pos n) = digits_of n n ""
format_int (negsuc n) = "-" ++ digits_of (suc n) (suc n) ""

trim_space_example : trim_space "  a b \t" ≡ "a b"
unfolding trim_space
trim_space_example = refl

format_int_example : format_int (negsuc 1204) ≡ "-1205"
unfolding format_int
format_int_example = refl
