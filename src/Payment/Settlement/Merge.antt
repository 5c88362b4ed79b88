-- ===== src/Payment/Settlement/Merge.antt =====
-- What merging the reports of a provider keeps, whatever their order.
use sdkit.Base.{
  ℕ, ◌≤◌, ◌<◌, ◌≡◌, ◌⊎◌, refl, inl, inr, String, Bool, true, false, not, ◌&&◌, Option, none, some,
  arith, is_blank, Bool-cases, eq_iff,
}
use sdkit.Base.Int.{pos, ltb_ℤ}
use sdkit.Payment.Types.{Money, ProviderSettlement}
use sdkit.Payment.Settlement.{
  is_set, after, newer, merged, conflicts, or_none, merge_provider_settlement,
}

-- `a` is not later than `b`; a settlement without a time is the earliest.
abbrev pub NotLater : Option ℕ → Option ℕ → Type 0
NotLater none b = Unit
NotLater (some a) none = ⊥
NotLater (some a) (some b) = a ≤ b

-- `b` is a time, and `a` is none or an earlier one.
abbrev pub IsLater : Option ℕ → Option ℕ → Type 0
IsLater a none = ⊥
IsLater none (some b) = Unit
IsLater (some a) (some b) = a < b

-- A field that is `t` after a report of `b` on `a`: it comes from one of them, from `b` only when that
-- is usable, what was known stays known, and only a report that is later changes it.
abbrev pub IsMergedField : {A : Type 0} → (A → Bool) → (A → Bool) → Type 0 → A → A → A → Type 0
IsMergedField known usable Later a b t =
    ((t ≡ a) ⊎ ((t ≡ b) × (usable b ≡ true)))
    × (known a ≡ true → known t ≡ true)
    × (known a ≡ true → ¬ Later → t ≡ a)

-- An amount with a currency that is not negative.
abbrev pub is_usable : Option Money → Bool
is_usable none = false
is_usable (some m) = not (is_blank m.currency) && not (ltb_ℤ m.amount (pos 0))

abbrev pub is_text : String → Bool
is_text s = not (is_blank s)

-- `t` is `s` after the report `i`.
pub record Extends (s i t : ProviderSettlement) : Type 0 where
  pub amount :
      IsMergedField is_set is_usable (IsLater s.updated_at i.updated_at) s.amount i.amount t.amount
  pub net_amount :
      IsMergedField is_set is_usable
        (IsLater s.updated_at i.updated_at)
        s.net_amount
        i.net_amount
        t.net_amount
  pub fee_amount :
      IsMergedField is_set is_usable
        (IsLater s.updated_at i.updated_at)
        s.fee_amount
        i.fee_amount
        t.fee_amount
  pub exchange_rate :
      IsMergedField is_set is_set
        (IsLater s.updated_at i.updated_at)
        s.exchange_rate
        i.exchange_rate
        t.exchange_rate
  pub currency :
      IsMergedField is_text is_text
        (IsLater s.updated_at i.updated_at)
        s.currency
        i.currency
        t.currency
  pub reference :
      IsMergedField is_text is_text
        (IsLater s.updated_at i.updated_at)
        s.reference
        i.reference
        t.reference
  pub time : NotLater s.updated_at t.updated_at

-- What the code takes for a later report.
abbrev is_fresh : Option ℕ → Option ℕ → Bool
is_fresh c i = newer c i && is_set i

-- A report that is older than what is known changes nothing.
pub merge_provider_settlement_stale :
    (c i : ProviderSettlement)
    → after c.updated_at i.updated_at ≡ true
    → merge_provider_settlement (some c) (some i) ≡ some c
unfolding merge_provider_settlement
merge_provider_settlement_stale c i h = ground arith

-- The amount is in the currency of the settlement, where both are known.
abbrev pub IsOneCurrency : ProviderSettlement → Type 0
IsOneCurrency s =
    (m : Money) → s.amount ≡ some m → is_blank s.currency ≡ false → m.currency ≡ s.currency

abbrev pub IsConsistent : Option ProviderSettlement → Type 0
IsConsistent none = Unit
IsConsistent (some s) = IsOneCurrency s

agreed :
    (s : ProviderSettlement) (o : Option Money) (m : Money)
    → s.amount ≡ o
    → conflicts s ≡ false
    → o ≡ some m
    → is_blank s.currency ≡ false
    → m.currency ≡ s.currency
agreed s o m h x e n = ground (arith, eq_iff m.currency s.currency)

-- If the amount of a settlement is in its currency, where both are known, then it is after merging a
-- report as well. Net amounts and fees are not part of this.
pub merge_provider_settlement-IsConsistent :
    (current incoming : Option ProviderSettlement)
    → IsConsistent current
    → IsConsistent (merge_provider_settlement current incoming)
unfolding merge_provider_settlement
merge_provider_settlement-IsConsistent current none h = h
merge_provider_settlement-IsConsistent current (some i) h =
    let c = or_none current in
    elim (Bool-cases (after c.updated_at i.updated_at)) [
      | inl e ↦ rw e h
      | inr e ↦ elim (Bool-cases (conflicts (merged c i))) [
        | inl x ↦ rw (e, x) h
        | inr x ↦ rw (e, x) (λ m at n. agreed (merged c i) _ m refl x at n)
      ]
    ]
