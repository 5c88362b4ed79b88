-- ===== src/Runtime/Sort/Relax.antt =====
-- One round of the queue loop: what decrementing the successors of an item does, and the invariant.
use sdkit.Base.{
  ℕ, zero, suc, ◌+◌, ◌-◌, ◌<◌, ◌≡◌, refl, ◌⊎◌, inl, inr, List, [], ◌∷◌, ◌++◌, arith, ◌==◌,
  if◌then◌else◌, length,
}
use sdkit.Base.Count.{count, count-nil, count-cons, count-append, bit}
use sdkit.Runtime.Sort.{update, relax}

pub relax-degree :
    (es : List ℕ) (g : ℕ → ℕ) (q : List ℕ) (j : ℕ) → (relax es g q).0 j ≡ g j - count j es
unfolding relax
relax-degree [] g q j = omega (arith, count-nil j)
relax-degree (e ∷ es) g q j = ground (
  arith,
  relax-degree es (update g e (g e - 1)) (if g e == 1 then q ++ e ∷ [] else q) j,
  count-cons j e es,
)

-- An index enters the queue once, when its entry reaches 0.
pub relax-queue :
    (es : List ℕ) (g : ℕ → ℕ) (q : List ℕ) (j : ℕ)
    → count j (relax es g q).1 + bit (g j == 0) ≡ count j q + bit ((relax es g q).0 j == 0)
unfolding relax
relax-queue [] g q j = refl
relax-queue (e ∷ es) g q j = ground (
  arith,
  relax-queue es (update g e (g e - 1)) (if g e == 1 then q ++ e ∷ [] else q) j,
  count-append j q (e ∷ []),
  count-cons j e [],
  count-nil j,
)

-- How many entries of `ds` are not among `out`.
pub pending : List ℕ → List ℕ → ℕ
pending out [] = 0
pending out (d ∷ ds) = bit (count d out == 0) + pending out ds

pub pending-none : (out : List ℕ) → pending out [] ≡ 0
unfolding pending
pending-none out = refl

pub pending-nil : (ds : List ℕ) → pending [] ds ≡ length ds
unfolding pending
pending-nil [] = refl
pending-nil (d ∷ ds) = ground (arith, pending-nil ds, count-nil d)

pub pending-snoc :
    (out : List ℕ) (c : ℕ) (ds : List ℕ)
    → count c out ≡ 0
    → pending (out ++ c ∷ []) ds + count c ds ≡ pending out ds
unfolding pending
pending-snoc out c [] h = omega (arith, count-nil c)
pending-snoc out c (d ∷ ds) h = ground (
  arith,
  pending-snoc out c ds h,
  count-cons c d ds,
  count-append d out (c ∷ []),
  count-cons d c [],
  count-nil d,
)

zero_or : (n : ℕ) → (n ≡ 0) ⊎ (0 < n)
zero_or zero = inl refl
zero_or (suc n) = inr (omega arith)

-- A pending entry, if there is one.
pub pending-witness :
    (out ds : List ℕ) → 0 < pending out ds → (d : ℕ) × (0 < count d ds) × (count d out ≡ 0)
unfolding pending
pending-witness out [] h = elim h [ ]
pending-witness out (d ∷ ds) h = elim (zero_or (count d out)) [
  | inl absent ↦ (d, ground (arith, count-cons d d ds), absent)
  | inr there ↦
      let (e, e_in, e_out) = pending-witness out ds (ground arith) in
      (e, ground (arith, count-cons e d ds), e_out)
]

pub pending-zero : (out ds : List ℕ) (d : ℕ) → pending out ds ≡ 0 → 0 < count d ds → 0 < count d out
unfolding pending
pending-zero out [] d h p = absurd (omega (arith, count-nil d))
pending-zero out (e ∷ ds) d h p = ground (arith, pending-zero out ds d, count-cons d e ds)
