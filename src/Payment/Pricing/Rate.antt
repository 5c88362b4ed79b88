-- ===== src/Payment/Pricing/Rate.antt =====
-- core/payment/pricing.go: exchange rates and rounding. A big.Rat is a numerator and a denominator,
-- which are not reduced: the quotient and the comparison of the remainder with a half are those of the
-- reduced ones.
use Prim.Native.Char.{Char, code}
use Prim.Native.String.{[], ◌∷◌, ◌++◌}
use sdkit.Base.{
  ℕ, ◌+◌, ◌-◌, ◌*◌, ◌/◌, ◌%◌, ◌^◌, String, Bool, true, false, not, ◌&&◌, ◌||◌, leb, ◌==◌, is_blank,
  if◌then◌else◌,
}
use sdkit.Base.Int.{ℤ, pos, negsuc}
use sdkit.Base.Text.{trim_space}
use sdkit.Base.Result.{Result, ok, err, ◌>>◌}
use sdkit.Payment.Error.{PaymentError, invalid_amount, invalid_exchange_rate, reject_if}

-- What strings.Split(s, ".") gives: the part before the first dot, and, if there is a dot, the part
-- behind it and whether that has one.
pub data Parts : Type 0 where
  one : String → Parts
  two : String → String → Parts
  many : Parts

abbrev pub before : Char → Parts → Parts
before c (one s) = one (c ∷ s)
before c (two s t) = two (c ∷ s) t
before c many = many

abbrev pub cut : Parts → Parts
cut (one s) = two "" s
cut _ = many

unfoldable pub split_dots : String → Parts
split_dots [] = one ""
split_dots (c ∷ s) = let rest = split_dots s in if code c == 46 then cut rest else before c rest

abbrev pub is_digit : Char → Bool
is_digit c = leb 48 (code c) && leb (code c) 57

unfoldable pub all_digits : String → Bool
all_digits [] = true
all_digits (c ∷ s) = is_digit c && all_digits s

-- The number of a text of digits, behind those read so far.
unfoldable pub read_digits : ℕ → String → ℕ
read_digits n [] = n
read_digits n (c ∷ s) = read_digits (n * 10 + (code c - 48)) s

unfoldable pub size : String → ℕ
size [] = 0
size (c ∷ s) = size s + 1

abbrev pub starts_with : ℕ → String → Bool
starts_with n [] = false
starts_with n (c ∷ s) = code c == n

abbrev pub rest_of : String → String
rest_of [] = []
rest_of (c ∷ s) = s

-- The parts of a rate, without its sign, as a fraction.
unfoldable pub fraction : Bool → String → String → Result PaymentError (ℕ × ℕ)
unfolding all_digits read_digits size
fraction negative int frac = do
  reject_if (not (all_digits (int ++ frac))) invalid_exchange_rate
  reject_if (negative || read_digits 0 (int ++ frac) == 0) invalid_exchange_rate
  ok (read_digits 0 (int ++ frac), 10 ^ size frac)

abbrev pub or_zero : String → String
or_zero s = if is_blank s then "0" else s

unfoldable pub of_parts : Bool → Parts → Result PaymentError (ℕ × ℕ)
unfolding fraction
of_parts negative (one s) =
    reject_if (is_blank s) invalid_exchange_rate >> fraction negative (or_zero s) ""
of_parts negative (two s t) = fraction negative (or_zero s) t
of_parts negative many = err invalid_exchange_rate

unfoldable pub parse_positive_decimal_rat : String → Result PaymentError (ℕ × ℕ)
unfolding of_parts split_dots trim_space
parse_positive_decimal_rat given =
    let raw = trim_space given in
    let negative = starts_with 45 raw in
    let unsigned = if starts_with 43 raw || negative then rest_of raw else raw in
    if is_blank raw then err invalid_exchange_rate else of_parts negative (split_dots unsigned)

-- pow10Int
unfoldable pub pow10 : ℤ → ℕ
pow10 (pos n) = 10 ^ n
pow10 (negsuc n) = 1

-- math.MaxInt64
abbrev pub max_int64 : ℕ
max_int64 = 9223372036854775807

abbrev pub half_up : ℕ → ℕ → ℕ
half_up num den = let q = num / den in if leb den (num % den * 2) then q + 1 else q

-- roundHalfUpRatToInt64, for a fraction that is not negative
unfoldable pub round_half_up : ℕ → ℕ → Result PaymentError ℕ
round_half_up num den =
    let q = half_up num den in if leb q max_int64 then ok q else err invalid_amount
