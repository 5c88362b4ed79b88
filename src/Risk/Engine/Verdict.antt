-- ===== src/Risk/Engine/Verdict.antt =====
-- What Evaluate returns: black lists, the flag of the decision, and decisions without a hit.
use sdkit.Base.{
  ℕ, ◌≤◌, ◌≡◌, ◌⊎◌, inl, inr, refl, sym, ◌∙◌, true, false, Option, none, some, [], ◌∷◌, arith,
}
use sdkit.Base.Int.{ℤ, pos, ◌≤ℤ◌}
use sdkit.Base.Effect.{>>=-eq-ok}
use sdkit.Base.Result.{Result, ok}
use sdkit.Risk.{Event, Scene, ListRule, Decision}
use sdkit.Risk.Targets.{normalize_event}
use sdkit.Risk.Scoring.{action_priority, level_priority, apply_scene_defaults, apply_hit}
use sdkit.Risk.Scoring.Priority.{IsSettled, apply_hit-IsStricter, apply_hit-IsSettled, denies}
use sdkit.Risk.Engine.{
  Backend, white_hit, black_hit, initial, evaluate_frequency_rules, return_saved, with_black,
  after_white, evaluate,
}
use sdkit.Risk.Engine.Hits.{Follows, Follows-evaluate_frequency_rules}

-- The decision is settled, or it is one that no rule has touched.
abbrev pub IsSound : Decision → Type 0
IsSound d = IsSettled d ⊎ ((d.hits ≡ []) × (d.passed ≡ true) × (d.status ≡ "allow"))

Follows-IsSound : {d e : Decision} → IsSound d → Follows d e → IsSound e
Follows-IsSound sound f = elim f.same_or_settled [
  | inl same ↦ rw same sound
  | inr settled ↦ inl settled
]

initial-IsSound :
    (event : Event) (now : ℤ) (scene : Option Scene)
    → IsSound (apply_scene_defaults (initial event now) scene)
unfolding apply_scene_defaults
initial-IsSound event now none = inr (refl, refl, refl)
initial-IsSound event now (some scene) = inr (refl, refl, refl)

hits-white :
    (event : Event) (now : ℤ) (scene : Option Scene) (r : ListRule)
    → (apply_hit (apply_scene_defaults (initial event now) scene) (white_hit r)).hits
      ≡ white_hit r ∷ []
unfolding apply_hit apply_scene_defaults
hits-white event now none r = ground arith
hits-white event now (some scene) r = ground arith

-- What a hit of the black list leaves behind, whatever hits follow.
abbrev IsBlocked : Decision → Type 0
IsBlocked e =
    (e.passed ≡ false)
    × (e.status ≡ "blocked")
    × (pos 100 ≤ℤ e.score)
    × (50 ≤ action_priority e.action)
    × (30 ≤ level_priority e.level)

deny_priority : action_priority "deny" ≡ 50
unfolding action_priority
deny_priority = refl

high_priority : level_priority "high" ≡ 30
unfolding level_priority
high_priority = refl

blocked : (r : ListRule) (d e : Decision) → Follows (apply_hit d (black_hit r)) e → IsBlocked e
blocked r d e f =
    let counted = (apply_hit-IsStricter d (black_hit r)).1 in
    let severe : 50 ≤ action_priority e.action =
      omega (arith, counted.action, f.stricter.action, deny_priority) in
    let settled : IsSettled e = elim f.same_or_settled [
      | inl same ↦ rw same (apply_hit-IsSettled d (black_hit r))
      | inr settled ↦ settled
    ] in
    (
      settled.flag ∙ denies e.action severe,
      ground (arith, settled.status, denies e.action severe),
      omega (arith, counted.score, f.stricter.score),
      severe,
      omega (arith, counted.level, f.stricter.level, high_priority),
    )

module _ {W : Type 0} (b : Backend W) (now : ℤ) where
  return_saved-eq :
      (event : Event) (d : Decision) (w : W) {e : Decision} {saved : Result ℕ (Unit {0})}
      → (return_saved b event d w).0 ≡ ok (e, saved)
      → d ≡ e
  return_saved-eq event d w h = cc

  after_white-cases :
      (event : Event) (d e : Decision) (white : Option ListRule) {saved : Result ℕ (Unit {0})}
      (w : W)
      → (after_white b event now d white w).0 ≡ ok (e, saved)
      → ((r : ListRule) × (white ≡ some r) × (e ≡ apply_hit d (white_hit r)))
        ⊎ ((black : Option ListRule) × (white ≡ none)
            × ((b.match_list event "black" w).0 ≡ ok black)
            × Follows (with_black b event black d) e)
  after_white-cases event d e (some r) w h = inl (r, refl, sym (return_saved-eq event _ w h))
  after_white-cases event d e none w h =
      let (black, found, rest) = >>=-eq-ok (b.match_list event "black") _ w h in
      let (final, rules, last) =
        >>=-eq-ok (evaluate_frequency_rules b event now (with_black b event black d)) _
          (b.match_list event "black" w).1 rest in
      inr (
        black,
        refl,
        found,
        rw (← return_saved-eq event final _ last) (
            Follows-evaluate_frequency_rules b event now (with_black b event black d) final
              (b.match_list event "black" w).1 rules),
      )

  -- The steps of a successful call of Evaluate.
  evaluate-steps :
      (given : Event) (w : W) (e : Decision) (saved : Result ℕ (Unit {0}))
      → (evaluate b now given w).0 ≡ ok (e, saved)
      → (scene : Option Scene) × (white : Option ListRule) × (w' : W) × (u : W) × ((b.load_scene
            (normalize_event given).service
            (normalize_event given).scene
            w).0
          ≡ ok scene)
        × ((b.match_list (normalize_event given) "white" u).0 ≡ ok white)
        × ((after_white b
              (normalize_event given)
              now
              (apply_scene_defaults (initial (normalize_event given) now) scene)
              white
              w').0
            ≡ ok (e, saved))
  unfolding evaluate
  evaluate-steps given w e saved h =
      let event = normalize_event given in
      let (scene, loaded, rest) = >>=-eq-ok (b.load_scene event.service event.scene) _ w h in
      let u = (b.load_scene event.service event.scene w).1 in
      let (white, found, last) = >>=-eq-ok (b.match_list event "white") _ u rest in
      (scene, white, (b.match_list event "white" u).1, u, loaded, found, last)

  -- Whenever Evaluate returns a decision, its flag and its status follow from its action, or no rule
  -- was hit, the flag is set and the status is "allow".
  pub evaluate-IsSound :
      (given : Event) (w : W) (e : Decision) (saved : Result ℕ (Unit {0}))
      → (evaluate b now given w).0 ≡ ok (e, saved)
      → IsSound e
  evaluate-IsSound given w e saved h =
      let (scene, white, w', u, _, _, last) = evaluate-steps given w e saved h in
      let event = normalize_event given in
      let start = initial-IsSound event now scene in
      elim (after_white-cases event (apply_scene_defaults (initial event now) scene) e white w'
        last) [
          | inl (r, _, same) ↦ rw same (inl (apply_hit-IsSettled _ (white_hit r)))
          | inr (none, _, _, follows) ↦ Follows-IsSound start follows
          | inr (some r, _, _, follows) ↦
              Follows-IsSound (inl (apply_hit-IsSettled _ (black_hit r))) follows
        ]

  -- If every look-up of a black list finds a rule and no white list matches, then a returned
  -- decision is blocked, with a score of at least 100 and at least the severity of "deny" and "high".
  pub evaluate-black :
      (r : ListRule) (given : Event) (w : W) (e : Decision) (saved : Result ℕ (Unit {0}))
      → ((u : W) → (b.match_list (normalize_event given) "white" u).0 ≡ ok none)
      → ((u : W) → (b.match_list (normalize_event given) "black" u).0 ≡ ok (some r))
      → (evaluate b now given w).0 ≡ ok (e, saved)
      → (e.passed ≡ false)
        × (e.status ≡ "blocked")
        × (pos 100 ≤ℤ e.score)
        × (50 ≤ action_priority e.action)
        × (30 ≤ level_priority e.level)
  evaluate-black r given w e saved no_white black h =
      let (scene, white, w', u, _, found, last) = evaluate-steps given w e saved h in
      let event = normalize_event given in
      let start = apply_scene_defaults (initial event now) scene in
      elim (after_white-cases event start e white w' last) [
        | inl (r', is_white, _) ↦ cc (found, no_white u)
        | inr (none, _, found', follows) ↦ cc (found', black w')
        | inr (some r', _, found', follows) ↦ blocked r' start e follows
      ]

  -- If every look-up of a white list finds a rule, then a returned decision has one hit, that of
  -- the rule, and its flag and its status follow from its action.
  pub evaluate-white :
      (r : ListRule) (given : Event) (w : W) (e : Decision) (saved : Result ℕ (Unit {0}))
      → ((u : W) → (b.match_list (normalize_event given) "white" u).0 ≡ ok (some r))
      → (evaluate b now given w).0 ≡ ok (e, saved)
      → (e.hits ≡ white_hit r ∷ []) × IsSettled e
  evaluate-white r given w e saved always h =
      let (scene, white, w', u, _, found, last) = evaluate-steps given w e saved h in
      let event = normalize_event given in
      let start = apply_scene_defaults (initial event now) scene in
      elim (after_white-cases event start e white w' last) [
        | inl (r', is_white, same) ↦
            let r_same : r' ≡ r = cc (found, always u) in
            (
              rw (same, r_same) (hits-white (normalize_event given) now scene r),
              rw same (apply_hit-IsSettled start (white_hit r')),
            )
        | inr (black, not_white, _, follows) ↦ cc (found, always u)
      ]
