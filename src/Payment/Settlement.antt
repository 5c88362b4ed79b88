-- ===== src/Payment/Settlement.antt =====
-- core/payment/settlement_merge.go: MergeProviderSettlement. The Go function copies `current`, so
-- neither input changes; a pointer that it returns is the value that it points to.
pub mod Merge
use sdkit.Base.{
  ℕ, String, Bool, true, false, not, ◌&&◌, ◌||◌, Option, none, some, is_blank, str_eq, ltb,
  if◌then◌else◌,
}
use sdkit.Base.Int.{ℤ, pos, ltb_ℤ}
use sdkit.Payment.Types.{Money, ExchangeRateSnapshot, ProviderSettlement}

-- a.After(b)
abbrev pub after : Option ℕ → Option ℕ → Bool
after (some a) (some b) = ltb b a
after _ _ = false

abbrev pub is_set {ℓ} : {A : Type ℓ} → Option A → Bool
is_set none = false
is_set (some a) = true

-- incoming.UpdatedAt is set, and after that of `current` or that is not set
abbrev pub newer : Option ℕ → Option ℕ → Bool
newer none i = true
newer (some c) i = after i (some c)

-- mergeMoney; `fresh` is `newer && incoming.UpdatedAt != nil`.
abbrev pub merge_money : Bool → Option Money → Option Money → Option Money
merge_money fresh dst none = dst
merge_money fresh dst (some src) =
    if not (is_blank src.currency) && not (ltb_ℤ src.amount (pos 0)) && (not (is_set dst) || fresh)
    then some src
    else dst

abbrev pub merge_text : Bool → String → String → String
merge_text fresh current incoming =
    if not (is_blank incoming) && (is_blank current || fresh) then incoming else current

abbrev pub merge_rate :
    Bool → Option ExchangeRateSnapshot → Option ExchangeRateSnapshot → Option ExchangeRateSnapshot
merge_rate fresh current none = current
merge_rate fresh current (some rate) = if not (is_set current) || fresh then some rate else current

abbrev pub no_settlement : ProviderSettlement
no_settlement = record {
  currency = "";
  amount = none;
  net_amount = none;
  fee_amount = none;
  exchange_rate = none;
  reference = "";
  updated_at = none;
}

-- The fields after the merge, before the last test.
unfoldable pub merged : ProviderSettlement → ProviderSettlement → ProviderSettlement
merged c i =
    let fresh = newer c.updated_at i.updated_at && is_set i.updated_at in
    record {
      currency = merge_text fresh c.currency i.currency;
      amount = merge_money fresh c.amount i.amount;
      net_amount = merge_money fresh c.net_amount i.net_amount;
      fee_amount = merge_money fresh c.fee_amount i.fee_amount;
      exchange_rate = merge_rate fresh c.exchange_rate i.exchange_rate;
      reference = merge_text fresh c.reference i.reference;
      updated_at = if fresh then i.updated_at else c.updated_at;
    }

-- current.Amount != nil && current.Currency != "" && current.Amount.Currency != current.Currency
abbrev pub conflicts : ProviderSettlement → Bool
conflicts s = elim s.amount [
  | none ↦ false
  | some money ↦ not (is_blank s.currency) && not (str_eq money.currency s.currency)
]

abbrev pub or_none : Option ProviderSettlement → ProviderSettlement
or_none none = no_settlement
or_none (some s) = s

unfoldable pub merge_provider_settlement :
    Option ProviderSettlement → Option ProviderSettlement → Option ProviderSettlement
unfolding merged
merge_provider_settlement current none = current
merge_provider_settlement current (some incoming) =
    let c = or_none current in
    if after c.updated_at incoming.updated_at
    then current
    else if conflicts (merged c incoming)
    then current
    else some (merged c incoming)
