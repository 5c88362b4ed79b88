-- ===== src/Base/Count.antt =====
-- How often a number occurs in a list, and how many numbers below a bound pass a test.
use Prim.Native.Nat.{ℕ, zero, suc, ◌+◌, ◌≤◌, ◌<◌}
use mathlib.Core.Path.{◌≡◌, refl}
use mathlib.Core.Logic.{◌⊎◌, inl, inr}
use mathlib.Core.Bool.{Bool, true, false}
use mathlib.Core.List.{List, [], ◌∷◌, ◌++◌}
use native.Mathlib.Omega.{arith}
use sdkit.Base.Tests.{◌==◌}
use sdkit.Base.Lists.{length}

-- 1 for `true`.
abbrev pub bit : Bool → ℕ
bit true = 1
bit false = 0

unfoldable pub count : ℕ → List ℕ → ℕ
count i [] = 0
count i (x ∷ xs) = bit (x == i) + count i xs

pub count-nil : (i : ℕ) → count i [] ≡ 0
unfolding count
count-nil i = refl

pub count-cons : (i x : ℕ) (xs : List ℕ) → count i (x ∷ xs) ≡ bit (x == i) + count i xs
unfolding count
count-cons i x xs = refl

pub count-append : (i : ℕ) (xs ys : List ℕ) → count i (xs ++ ys) ≡ count i xs + count i ys
unfolding count
count-append i [] ys = omega arith
count-append i (x ∷ xs) ys = omega (arith, count-append i xs ys)

-- f 0 + … + f (n - 1)
pub sum_below : ℕ → (ℕ → ℕ) → ℕ
sum_below zero f = 0
sum_below (suc n) f = f n + sum_below n f

pub sum_below-zero : (n : ℕ) → sum_below n (λ i. 0) ≡ 0
unfolding sum_below
sum_below-zero zero = refl
sum_below-zero (suc n) = omega (arith, sum_below-zero n)

pub sum_below-add :
    (n : ℕ) (f g : ℕ → ℕ) → sum_below n (λ i. f i + g i) ≡ sum_below n f + sum_below n g
unfolding sum_below
sum_below-add zero f g = omega arith
sum_below-add (suc n) f g = omega (arith, sum_below-add n f g)

sum_below-single_out : (n x : ℕ) → n ≤ x → sum_below n (λ i. bit (x == i)) ≡ 0
unfolding sum_below
sum_below-single_out zero x h = refl
sum_below-single_out (suc n) x h = ground (arith, sum_below-single_out n x)

pub sum_below-single : (n x : ℕ) → x < n → sum_below n (λ i. bit (x == i)) ≡ 1
unfolding sum_below
sum_below-single zero x h = elim h [ ]
sum_below-single (suc n) x h = ground (arith, sum_below-single n x, sum_below-single_out n x)

pub zero_or : (n : ℕ) → (n ≡ 0) ⊎ (0 < n)
zero_or zero = inl refl
zero_or (suc n) = inr (omega arith)

-- A list of numbers below `n` is as long as its counts add up to.
pub sum_below-count :
    (n : ℕ) (xs : List ℕ)
    → ((i : ℕ) → n ≤ i → count i xs ≡ 0)
    → sum_below n (λ i. count i xs) ≡ length xs
unfolding count
sum_below-count n [] h = sum_below-zero n
sum_below-count n (x ∷ xs) h =
    let low : x < n = ground (arith, h x) in
    omega (
      arith,
      sum_below-add n (λ i. bit (x == i)) (λ i. count i xs),
      sum_below-single n x low,
      sum_below-count n xs (λ i p. omega (arith, h i p)),
    )

pub sum_below-cong :
    (n : ℕ) (f g : ℕ → ℕ) → ((i : ℕ) → i < n → f i ≡ g i) → sum_below n f ≡ sum_below n g
unfolding sum_below
sum_below-cong zero f g h = refl
sum_below-cong (suc n) f g h =
    omega (arith, h n (omega arith), sum_below-cong n f g (λ i p. h i (omega arith)))

pub sum_below-le : (n : ℕ) (f : ℕ → ℕ) → ((i : ℕ) → f i ≤ 1) → sum_below n f ≤ n
unfolding sum_below
sum_below-le zero f h = omega arith
sum_below-le (suc n) f h = omega (arith, h n, sum_below-le n f h)

-- With values at most 1 a full sum leaves nobody out.
pub sum_below-full :
    (n : ℕ) (f : ℕ → ℕ) → ((i : ℕ) → f i ≤ 1) → sum_below n f ≡ n → (i : ℕ) → i < n → f i ≡ 1
unfolding sum_below
sum_below-full zero f h e i p = elim p [ ]
sum_below-full (suc n) f h e i p =
    let below = sum_below-full n f h (omega (arith, h n, sum_below-le n f h)) i in
    ground (arith, h n, sum_below-le n f h, below)

-- A sum that falls short leaves somebody out.
pub sum_below-short :
    (n : ℕ) (f : ℕ → ℕ) → ((i : ℕ) → f i ≤ 1) → sum_below n f < n → (i : ℕ) × (i < n) × (f i ≡ 0)
unfolding sum_below
sum_below-short zero f h s = elim s [ ]
sum_below-short (suc n) f h s = elim (zero_or (f n)) [
  | inl z ↦ (n, omega arith, z)
  | inr p ↦ let (i, low, z) = sum_below-short n f h (omega (arith, h n)) in (i, omega arith, z)
]

pub ruleset count_laws = (arith, count-nil, count-cons, count-append)
