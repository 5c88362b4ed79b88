-- ===== src/Risk/Engine/Hits.antt =====
-- What the frequency rules of an evaluation can do to a decision: they only add hits.
use sdkit.Base.{◌≡◌, ◌⊎◌, inl, inr, refl, String, Option, none, some, List, [], ◌∷◌, Bool-cases}
use sdkit.Base.Int.{ℤ, ltb_ℤ}
use sdkit.Base.Effect.{>>=-eq-ok}
use sdkit.Base.Result.{ok}
use sdkit.Risk.{Event, FrequencyRule, HitDecision, Decision}
use sdkit.Risk.Targets.{target_value}
use sdkit.Risk.Scoring.{apply_hit}
use sdkit.Risk.Scoring.Priority.{
  IsStricter, IsStricter-refl, IsStricter-trans, IsSettled, apply_hit-IsStricter,
  apply_hit-IsSettled,
}
use sdkit.Risk.Engine.{
  Backend, frequency_hit, count_hit, rule_target, current_frequency_count, evaluate_rule,
  evaluate_rules, evaluate_frequency_rules,
}

-- `e` comes from `d` by hits alone: it is `d`, or it is settled; and it is at least as severe.
pub record Follows (d e : Decision) : Type 0 where
  pub stricter : IsStricter d e
  pub same_or_settled : (e ≡ d) ⊎ IsSettled e

Follows-refl : (d : Decision) → Follows d d
Follows-refl d = record { stricter = IsStricter-refl d; same_or_settled = inl refl }

Follows-trans : {d e f : Decision} → Follows d e → Follows e f → Follows d f
Follows-trans {d} {e} {f} h k = record {
  stricter = IsStricter-trans h.stricter k.stricter;
  same_or_settled = elim k.same_or_settled [
    | inl same ↦ rw same (h.same_or_settled)
    | inr settled ↦ inr settled
  ];
}

Follows-apply_hit : (d : Decision) (hit : HitDecision) → Follows d (apply_hit d hit)
Follows-apply_hit d hit = record {
  stricter = (apply_hit-IsStricter d hit).0;
  same_or_settled = inr (apply_hit-IsSettled d hit);
}

module _ {W : Type 0} (b : Backend W) (event : Event) (now : ℤ) where
  Follows-count_hit :
      (rule : FrequencyRule) (target : String) (d : Decision) (count : ℤ)
      → Follows d (count_hit b event rule target d count)
  Follows-count_hit rule target d count = elim (Bool-cases (ltb_ℤ count rule.limit_count)) [
    | inl below ↦ rw below (Follows-refl d)
    | inr reached ↦ rw reached (Follows-apply_hit d (frequency_hit event rule target count))
  ]

  Follows-rule_target :
      (t : Option String) (rule : FrequencyRule) (d e : Decision) (w : W)
      → (rule_target b t event now rule d w).0 ≡ ok e
      → Follows d e
  Follows-rule_target none rule d e w h = let same : d ≡ e = cc in rw (← same) (Follows-refl d)
  Follows-rule_target (some target) rule d e w h =
      let (count, _, last) = >>=-eq-ok (current_frequency_count b event rule target now) _ w h in
      let same : count_hit b event rule target d count ≡ e = cc in
      rw (← same) (Follows-count_hit rule target d count)

  Follows-evaluate_rules :
      (rules : List FrequencyRule) (d e : Decision) (w : W)
      → (evaluate_rules b event now rules d w).0 ≡ ok e
      → Follows d e
  unfolding evaluate_rules evaluate_rule
  Follows-evaluate_rules [] d e w h = let same : d ≡ e = cc in rw (← same) (Follows-refl d)
  Follows-evaluate_rules (rule ∷ rules) d e w h =
      let (mid, first, rest) =
        >>=-eq-ok (evaluate_rule b event now rule d) (evaluate_rules b event now rules) w h in
      Follows-trans (Follows-rule_target (target_value event rule.target_type) rule d mid w first)
        (Follows-evaluate_rules rules mid e (evaluate_rule b event now rule d w).1 rest)

  pub Follows-evaluate_frequency_rules :
      (d e : Decision) (w : W) → (evaluate_frequency_rules b event now d w).0 ≡ ok e → Follows d e
  unfolding evaluate_frequency_rules
  Follows-evaluate_frequency_rules d e w h =
      let (rules, _, rest) = >>=-eq-ok (b.list_frequency_rules event) _ w h in
      Follows-evaluate_rules rules d e (b.list_frequency_rules event w).1 rest
