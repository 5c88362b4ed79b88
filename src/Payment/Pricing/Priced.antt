-- ===== src/Payment/Pricing/Priced.antt =====
-- What a pricing that is accepted says.
use sdkit.Base.{
  ◌≡◌, ◌⊎◌, inl, inr, refl, ap, sym, subst, ◌∙◌, String, Bool, true, false, not, ◌&&◌, ◌||◌, Option,
  none, some, is_blank, str_eq, eq_iff, arith,
}
use sdkit.Base.Int.{eqb_ℤ, eqb_ℤ→eq}
use sdkit.Base.Result.{Result, ok}
use sdkit.Payment.Error.{
  PaymentError, Context, invalid_amount, invalid_currency, settle_amount_mismatch, invalid_request,
}
use sdkit.Payment.Error.Checks.{after, bound, allowed, branched, not_eq_false}
use sdkit.Payment.Types.{Money, PaymentPricing, ExchangeRateSnapshot}
use sdkit.Payment.Guards.{in_normal}
use sdkit.Payment.Pricing.{
  CurrencyMeta, DefaultPricingPolicy, ok_ctx, positive, is_unset, same_money, currency_meta,
  calculate_settle_amount,
}
use sdkit.Payment.Pricing.Policy.{
  settle_currency_of, settle_meta_of, order_amount_of, settled_amount, settle_amount_of,
  fee_amount_of, normalize_pricing, no_money, is_some,
}

same_parts : (m n : Money) → m.amount ≡ n.amount → m.currency ≡ n.currency → m ≡ n
same_parts m n a c = λ i. record { amount = a i; currency = c i }

both : (a b : Bool) → (a && b) ≡ true → (a ≡ true) × (b ≡ true)
both a b h = (ground arith, ground arith)

same_money_eq : (m n : Money) → same_money m n ≡ true → m ≡ n
same_money_eq m n h =
    let (amounts, currencies) = both (eqb_ℤ m.amount n.amount) (str_eq m.currency n.currency) h in
    same_parts m n (eqb_ℤ→eq m.amount n.amount amounts)
      ((eq_iff m.currency n.currency).0 currencies)

absurd_or : {A : Type 0} (b : Bool) → (b || true) ≡ false → A
absurd_or true h = cc
absurd_or false h = cc

strict : (a b : Bool) → a ≡ false → (not a && not b) ≡ false → b ≡ true
strict a b h k = ground arith

ok_eq : {A : Type 0} (a b : A) → ◌≡◌ {A = Result PaymentError A} (ok a) (ok b) → a ≡ b
ok_eq a b h = cc

module _ (to_upper : String → String) (p : DefaultPricingPolicy) where
  order_amount_positive :
      (pay order result : Money)
      → positive pay ≡ true
      → order_amount_of to_upper p pay order ≡ ok result
      → positive result ≡ true
  unfolding order_amount_of
  order_amount_positive pay order result h e = elim (branched (is_unset order) (ok pay) _ e) [
    | inl (b, k) ↦ subst (λ m. positive m ≡ true) (ok_eq pay result k) h
    | inr (b, k) ↦
        let (given, rest) = allowed (not (positive order)) invalid_amount _ k in
        let (meta, found, last) =
          bound (currency_meta to_upper p (in_normal to_upper order).currency) _ rest in
        subst (λ m. positive m ≡ true) (ok_eq (in_normal to_upper order) result last)
          (not_eq_false given)
  ]

  settled_amount_is :
      (currency : String) (given calculated result : Money)
      → p.allow_explicit_settle ≡ false
      → settled_amount to_upper p currency given calculated ≡ ok result
      → result ≡ calculated
  unfolding settled_amount
  settled_amount_is currency given calculated result x e =
      elim (branched (is_unset given) (ok calculated) _ e) [
        | inl (b, k) ↦ sym (ok_eq calculated result k)
        | inr (b, k) ↦
            let own = in_normal to_upper given in
            let (large, k1) = allowed (not (positive given)) invalid_amount _ k in
            let (named, k2) = allowed (not (str_eq own.currency currency)) invalid_currency _ k1 in
            let (agrees, k3) =
              allowed (not p.allow_explicit_settle && not (same_money own calculated))
                settle_amount_mismatch _ k2 in
            sym (ok_eq own result k3)
            ∙ same_money_eq own calculated
                (strict p.allow_explicit_settle (same_money own calculated) x agrees)
      ]

  -- The settlement amount of `q` is the one that its own amount, currencies and rate give.
  unfoldable pub IsCalculated : PaymentPricing → Type 0
  unfolding calculate_settle_amount
  IsCalculated q =
      (pay_meta : CurrencyMeta) × (meta : CurrencyMeta) × (currency_meta to_upper p
          q.pay_amount.currency
        ≡ ok pay_meta)
      × (currency_meta to_upper p q.settle_currency ≡ ok meta)
      × (calculate_settle_amount to_upper q.pay_amount pay_meta meta q.exchange_rate
          ≡ ok q.settle_amount)

  -- No settlement was asked for.
  unfoldable pub IsUnsettled : PaymentPricing → Type 0
  IsUnsettled q = (q.settle_currency ≡ "") × (q.settle_amount ≡ no_money) × (q.exchange_rate ≡ none)

  no_settlement :
      (m : Money) (r : Option ExchangeRateSnapshot)
      → (not (same_money m no_money) || is_some r) ≡ false
      → (m ≡ no_money) × (r ≡ none)
  no_settlement m none h = (same_money_eq m no_money (ground arith), refl)
  no_settlement m (some r) h = absurd_or (not (same_money m no_money)) h

  absurd_meta :
      {A : Type 0} (m : CurrencyMeta)
      → ◌≡◌ {A = Result PaymentError (Option CurrencyMeta)} (ok (some m)) (ok none)
      → A
  absurd_meta m h = cc

  some_meta :
      (m n : CurrencyMeta)
      → ◌≡◌ {A = Result PaymentError (Option CurrencyMeta)} (ok (some m)) (ok (some n))
      → m ≡ n
  some_meta m n h = cc

  no_meta :
      {A : Type 0} (m : CurrencyMeta)
      → ◌≡◌ {A = Result PaymentError (Option CurrencyMeta)} (ok none) (ok (some m))
      → A
  no_meta m h = cc

  meta_found :
      (currency : String) (meta : CurrencyMeta)
      → settle_meta_of to_upper p currency ≡ ok (some meta)
      → currency_meta to_upper p currency ≡ ok meta
  unfolding settle_meta_of
  meta_found currency meta f = elim (branched (is_blank currency) (ok none) _ f) [
    | inl (b, k) ↦ no_meta meta k
    | inr (b, k) ↦
        let (m, found, last) = bound (currency_meta to_upper p currency) _ k in
        found ∙ ap ok (some_meta m meta last)
  ]

  settlement_is :
      (pricing : PaymentPricing) (pay : Money) (pay_meta : CurrencyMeta) (currency : String)
      (meta : Option CurrencyMeta) (settle : Money)
      → p.allow_explicit_settle ≡ false
      → settle_meta_of to_upper p currency ≡ ok meta
      → settle_amount_of to_upper p pricing pay pay_meta currency meta ≡ ok settle
      → ((currency ≡ "") × (settle ≡ no_money) × (pricing.exchange_rate ≡ none))
        ⊎ ((m : CurrencyMeta) × (currency_meta to_upper p currency ≡ ok m)
            × (calculate_settle_amount to_upper pay pay_meta m pricing.exchange_rate ≡ ok settle))
  unfolding settle_meta_of settle_amount_of
  settlement_is pricing pay pay_meta currency none settle x f e =
      elim (branched (is_blank currency) (ok none) _ f) [
        | inl (b, k) ↦
            let (unset, last) =
              allowed
                (not (same_money pricing.settle_amount no_money) || is_some pricing.exchange_rate)
                invalid_request _ e in
            let (amount, rate) = no_settlement pricing.settle_amount pricing.exchange_rate unset in
            inl (
              (eq_iff currency "").0 b,
              sym (ok_eq pricing.settle_amount settle last) ∙ amount,
              rate,
            )
        | inr (b, k) ↦
            let (m, found, last) = bound (currency_meta to_upper p currency) _ k in
            absurd_meta m last
      ]
  settlement_is pricing pay pay_meta currency (some meta) settle x f e =
      let (calculated, calculation, last) =
        bound (calculate_settle_amount to_upper pay pay_meta meta pricing.exchange_rate) _ e in
      let same_amount = settled_amount_is currency pricing.settle_amount calculated settle x last in
      inr (meta, meta_found currency meta f, calculation ∙ ap ok (sym same_amount))

  settled_as :
      (q : PaymentPricing) (pay_meta : CurrencyMeta)
      → currency_meta to_upper p q.pay_amount.currency ≡ ok pay_meta
      → ((q.settle_currency ≡ "") × (q.settle_amount ≡ no_money) × (q.exchange_rate ≡ none))
        ⊎ ((m : CurrencyMeta) × (currency_meta to_upper p q.settle_currency ≡ ok m)
            × (calculate_settle_amount to_upper q.pay_amount pay_meta m q.exchange_rate
                ≡ ok q.settle_amount))
      → IsUnsettled q ⊎ IsCalculated q
  unfolding IsUnsettled IsCalculated
  settled_as q pay_meta e (inl h) = inl h
  settled_as q pay_meta e (inr (m, found, calculation)) = inr (pay_meta, m, e, found, calculation)

  -- When the policy takes no explicit settlement amounts and accepts a pricing, the amounts that are
  -- paid and ordered are positive, and either no settlement was asked for, and there is no amount and
  -- no rate for one, or the settlement amount is the calculated one.
  pub normalize_pricing-IsPriced :
      (ctx : Context) (pricing q : PaymentPricing)
      → p.allow_explicit_settle ≡ false
      → normalize_pricing to_upper p ctx pricing ≡ ok q
      → (positive q.pay_amount ≡ true)
        × (positive q.order_amount ≡ true)
        × (IsUnsettled q ⊎ IsCalculated q)
  unfolding normalize_pricing
  normalize_pricing-IsPriced ctx pricing q x h =
      let h1 = after (ok_ctx ctx) _ h in
      let (paid, h2) = allowed (not (positive pricing.pay_amount)) invalid_amount _ h1 in
      let pay = in_normal to_upper pricing.pay_amount in
      let (pay_meta, pay_found, h3) = bound (currency_meta to_upper p pay.currency) _ h2 in
      let (meta, found, h4) =
        bound (settle_meta_of to_upper p (settle_currency_of to_upper p pricing)) _ h3 in
      let (order, ordered, h5) = bound (order_amount_of to_upper p pay pricing.order_amount) _ h4 in
      let (settle, settled, h6) =
        bound
          (settle_amount_of to_upper p pricing pay pay_meta (settle_currency_of to_upper p pricing)
            meta)
          _ h5 in
      let (fee, fees, h7) = bound (fee_amount_of to_upper p pricing.fee_amount) _ h6 in
      let done = ok_eq _ q h7 in
      let positive_order =
        order_amount_positive pay pricing.order_amount order (not_eq_false paid) ordered in
      subst
        (λ r.
          (positive r.pay_amount ≡ true)
          × (positive r.order_amount ≡ true)
          × (IsUnsettled r ⊎ IsCalculated r))
        done
        (
          not_eq_false paid,
          positive_order,
          settled_as
              (record pricing {
                order_amount = order;
                pay_amount = pay;
                settle_currency = settle_currency_of to_upper p pricing;
                settle_amount = settle;
                fee_amount = fee;
              })
              pay_meta pay_found
              (settlement_is pricing pay pay_meta (settle_currency_of to_upper p pricing) meta
                settle x found settled),
        )
