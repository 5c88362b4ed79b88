-- ===== src/Cache/Counter.antt =====
-- The numbers of `Incr` in pkg/cache/memory/store.go: an int64 is its bit pattern, below 2 ^ 64.
use Prim.Native.Char.{Char, code}
use Prim.Native.String.{String, [], ◌∷◌, ◌++◌}
use sdkit.Base.{
  ℕ, zero, suc, ◌+◌, ◌-◌, ◌*◌, ◌/◌, ◌%◌, ◌^◌, ◌<◌, ◌≡◌, refl, ap, ◌∙◌, inl, inr, Bool-cases, lt→ltb,
  ◌&&◌, arith, ltb, leb, ◌==◌, if◌then◌else◌,
}
use native.Mathlib.Nat.{pow-suc}
use sdkit.Base.Int.{ℤ, pos, negsuc}

-- for _, c := range item.value { if c >= '0' && c <= '9' { n = n*10 + int64(c-'0') } }
unfoldable pub parse_from : ℕ → String → ℕ
parse_from n [] = n
parse_from n (c ∷ s) =
    parse_from (if leb 48 (code c) && leb (code c) 57 then (n * 10 + (code c - 48)) % 2 ^ 64 else n)
      s

unfoldable pub parse_int64 : String → ℕ
parse_int64 s = parse_from 0 s

-- n++
unfoldable pub increment : ℕ → ℕ
increment n = (n + 1) % 2 ^ 64

-- byte('0' + d), for d below 10
abbrev digit : ℕ → Char
digit zero = "0"
digit (suc zero) = "1"
digit (suc (suc zero)) = "2"
digit (suc (suc (suc zero))) = "3"
digit (suc (suc (suc (suc zero)))) = "4"
digit (suc (suc (suc (suc (suc zero))))) = "5"
digit (suc (suc (suc (suc (suc (suc zero)))))) = "6"
digit (suc (suc (suc (suc (suc (suc (suc zero))))))) = "7"
digit (suc (suc (suc (suc (suc (suc (suc (suc zero)))))))) = "8"
digit _ = "9"

-- for n > 0 { s = append([]byte{byte('0' + n%10)}, s...); n /= 10 }; a number below 2 ^ 64 has at
-- most 20 digits, the fuel that `format_int64` gives.
unfoldable pub prepend_digits : ℕ → ℕ → String → String
prepend_digits zero n s = s
prepend_digits (suc fuel) n s =
    let more = prepend_digits fuel (n / 10) (digit (n % 10) ∷ s) in if n == 0 then s else more

-- formatInt. The negative of the smallest int64 is itself, so its loop makes no round.
unfoldable pub format_int64 : ℕ → String
format_int64 n =
    if n == 0
    then "0"
    else if ltb n (2 ^ 63)
    then prepend_digits 20 n []
    else if ltb (2 ^ 63) n
    then "-" ++ prepend_digits 20 (2 ^ 64 - n) []
    else "-"

-- The integer that a bit pattern stands for.
abbrev pub to_int64 : ℕ → ℤ
to_int64 n = if ltb n (2 ^ 63) then pos n else negsuc (2 ^ 64 - 1 - n)

code-digit : (d : ℕ) → d < 10 → code (digit d) ≡ 48 + d
code-digit zero h = refl
code-digit (suc zero) h = refl
code-digit (suc (suc zero)) h = refl
code-digit (suc (suc (suc zero))) h = refl
code-digit (suc (suc (suc (suc zero)))) h = refl
code-digit (suc (suc (suc (suc (suc zero))))) h = refl
code-digit (suc (suc (suc (suc (suc (suc zero)))))) h = refl
code-digit (suc (suc (suc (suc (suc (suc (suc zero))))))) h = refl
code-digit (suc (suc (suc (suc (suc (suc (suc (suc zero)))))))) h = refl
code-digit (suc (suc (suc (suc (suc (suc (suc (suc (suc zero))))))))) h = refl
code-digit (suc (suc (suc (suc (suc (suc (suc (suc (suc (suc d)))))))))) h = absurd (omega arith)

read_digit :
    (n : ℕ) (s : String) → n < 2 ^ 64 → parse_from (n / 10) (digit (n % 10) ∷ s) ≡ parse_from n s
unfolding parse_from
read_digit n s k = ap (λ (m : ℕ). parse_from m s) (ground (arith, code-digit (n % 10)))

-- Reading back what the loop has put in front of `s`.
parse_from-prepend_digits :
    (fuel n : ℕ) (s : String)
    → n < 10 ^ fuel
    → n < 2 ^ 64
    → parse_from 0 (prepend_digits fuel n s) ≡ parse_from n s
unfolding prepend_digits
parse_from-prepend_digits zero n s h k = ap (λ (m : ℕ). parse_from m s) (omega arith)
parse_from-prepend_digits (suc fuel) n s h k = elim (Bool-cases (n == 0)) [
  | inl e ↦ rw e (ap (λ (m : ℕ). parse_from m s) (ground arith))
  | inr e ↦ rw e (
      parse_from-prepend_digits fuel (n / 10) (digit (n % 10) ∷ s) (omega (arith, pow-suc 10 fuel))
        (omega arith)
      ∙ read_digit n s k)
]

parse_zero : parse_from 0 "0" ≡ 0
unfolding parse_from
parse_zero = refl

parse_nil : (n : ℕ) → parse_from n [] ≡ n
unfolding parse_from
parse_nil n = refl

-- `Incr` reads back the text that it wrote, as long as the count is not negative as an int64.
pub parse_int64-format_int64 : (n : ℕ) → n < 2 ^ 63 → parse_int64 (format_int64 n) ≡ n
unfolding parse_int64 format_int64
parse_int64-format_int64 n h = elim (Bool-cases (n == 0)) [
  | inl e ↦ rw e (ground (arith, parse_zero))
  | inr e ↦
      rw (e, lt→ltb n (2 ^ 63) h)
        (parse_from-prepend_digits 20 n [] (omega arith) (omega arith) ∙ parse_nil n)
]
