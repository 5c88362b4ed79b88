-- ===== src/Risk/Engine.antt =====
-- core/security/risk/engine.go and frequency.go. The store, the counter and the logger are
-- interfaces: a `Backend` has their methods, which read and change a world `W` and may fail.
pub mod Hits
pub mod Verdict
use sdkit.Base.{
  ℕ, ◌*◌, ◌≡◌, refl, String, Bool, true, false, not, Option, none, some, List, [], ◌∷◌, ◌++◌,
  if◌then◌else◌,
}
use sdkit.Base.Int.{ℤ, pos, sub_ℕ, pos_part, neg_part, ltb_ℤ, ◌+ℤ◌, ◌-ℤ◌}
use sdkit.Base.Effect.{Io, pure, ◌>>=◌}
use sdkit.Base.Result.{Result, ok, err}
use sdkit.Risk.{
  AnyValue, text, int, int64, Attrs, Event, Scene, Response, ListRule, FrequencyRule,
  EventCountQuery, CounterKey, HitDecision, Decision,
}
use sdkit.Risk.Targets.{first_non_empty, normalize_event, target_value}
use sdkit.Risk.Scoring.{apply_scene_defaults, apply_hit}

-- An effect on the world `W` that may fail with a numbered error.
abbrev pub Effect : Type 0 → Type 0 → Type 0
Effect W A = Io ℕ W A

pub record Backend (W : Type 0) : Type 0 where
  pub load_scene : String → String → Effect W (Option Scene)
  pub match_list : Event → String → Effect W (Option ListRule)
  pub list_frequency_rules : Event → Effect W (List FrequencyRule)
  pub count_events : EventCountQuery → Effect W ℤ
  pub save_decision : Event → Decision → Effect W (Unit {0})
  pub counter : Option (CounterKey → Effect W ℤ)
  pub push : Option (Event → Decision → W → Bool × W)

-- time.Duration(seconds) * time.Second
abbrev seconds : ℤ → ℤ
seconds n = sub_ℕ (pos_part n * 1_000_000_000) (neg_part n * 1_000_000_000)

-- The hits that Evaluate and evaluateFrequencyRules build.
abbrev list_reason : ListRule → Attrs
list_reason r =
    ("list_type", text r.list_type)
    ∷ ("target_type", text r.target_type)
    ∷ ("target_value", text r.target_value)
    ∷ ("scene", text r.scene)
    ∷ ("reason", text r.reason)
    ∷ []

abbrev pub white_hit : ListRule → HitDecision
white_hit r = record {
  rule_id = r.id;
  rule_code = "white_list";
  rule_name = "白名单";
  rule_type = "list";
  level = "low";
  score = pos 0;
  action = "allow";
  response = r.response;
  reason = list_reason r;
  snapshot = [];
}

abbrev pub black_hit : ListRule → HitDecision
black_hit r = record {
  rule_id = r.id;
  rule_code = "black_list";
  rule_name = "黑名单";
  rule_type = "list";
  level = "high";
  score = pos 100;
  action = "deny";
  response = r.response;
  reason = list_reason r;
  snapshot = [];
}

abbrev pub frequency_hit : Event → FrequencyRule → String → ℤ → HitDecision
frequency_hit event rule target count = record {
  rule_id = rule.id;
  rule_code = rule.rule_code;
  rule_name = rule.rule_name;
  rule_type = "frequency";
  level = first_non_empty (rule.level ∷ "medium" ∷ []);
  score = rule.score;
  action = rule.action;
  response = rule.response;
  reason =
      ("target_type", text rule.target_type)
      ∷ ("target_value", text target)
      ∷ ("window", int rule.window_seconds)
      ∷ ("limit", int rule.limit_count)
      ∷ ("current_count", int64 count)
      ∷ [];
  snapshot =
      ("event", text event.event)
      ∷ ("rule_event", text rule.event)
      ∷ ("target_type", text rule.target_type)
      ∷ ("target_value", text target)
      ∷ ("window_seconds", int rule.window_seconds)
      ∷ ("limit_count", int rule.limit_count)
      ∷ ("current_count", int64 count)
      ∷ [];
}

abbrev no_response : Response
no_response = record {
  response_code = pos 0;
  response_message = "";
  response_action = "";
  response_payload = [];
  http_status = pos 0;
}

-- The decision that Evaluate starts from, for a normalized event.
abbrev pub initial : Event → ℤ → Decision
initial event now = record {
  passed = true;
  service = event.service;
  scene = event.scene;
  event = event.event;
  level = first_non_empty (event.level ∷ "low" ∷ []);
  score = event.score;
  action = first_non_empty (event.action ∷ "allow" ∷ []);
  status = "allow";
  response = no_response;
  reasons = [];
  hits = [];
  created_at = now;
}

module _ {W : Type 0} (b : Backend W) where
  abbrev count_by_store : Event → FrequencyRule → String → ℤ → Effect W ℤ
  count_by_store event rule target now = do
    count ← b.count_events (record {
      service = event.service;
      scene = event.scene;
      event = rule.event;
      target_type = rule.target_type;
      target_value = target;
      since = now -ℤ seconds rule.window_seconds;
    })
    pure (count +ℤ pos 1)

  -- A failing counter is passed over in favour of the store.
  abbrev or_store : Result ℕ ℤ → Effect W ℤ → Effect W ℤ
  or_store (ok count) m = pure count
  or_store (err e) m = m

  -- currentFrequencyCount
  unfoldable pub current_frequency_count : Event → FrequencyRule → String → ℤ → Effect W ℤ
  current_frequency_count event rule target now w = elim b.counter [
    | none ↦ count_by_store event rule target now w
    | some incr ↦
        let (r, w') =
          incr
            (record {
              service = event.service;
              scene = event.scene;
              event = rule.event;
              target_type = rule.target_type;
              target_value = target;
              window_seconds = rule.window_seconds;
            })
            w in
        or_store r (count_by_store event rule target now) w'
  ]

  abbrev pub count_hit : Event → FrequencyRule → String → Decision → ℤ → Decision
  count_hit event rule target d count =
      if ltb_ℤ count rule.limit_count
      then d
      else apply_hit d (frequency_hit event rule target count)

  abbrev pub rule_target : Option String → Event → ℤ → FrequencyRule → Decision → Effect W Decision
  rule_target none event now rule d = pure d
  rule_target (some target) event now rule d = do
    count ← current_frequency_count event rule target now
    pure (count_hit event rule target d count)

  -- The body of the loop of evaluateFrequencyRules.
  unfoldable pub evaluate_rule : Event → ℤ → FrequencyRule → Decision → Effect W Decision
  evaluate_rule event now rule d =
      rule_target (target_value event rule.target_type) event now rule d

  unfoldable pub evaluate_rules : Event → ℤ → List FrequencyRule → Decision → Effect W Decision
  evaluate_rules event now [] d = pure d
  evaluate_rules event now (rule ∷ rules) d =
      evaluate_rule event now rule d >>= evaluate_rules event now rules

  -- evaluateFrequencyRules
  unfoldable pub evaluate_frequency_rules : Event → ℤ → Decision → Effect W Decision
  evaluate_frequency_rules event now d = do
    rules ← b.list_frequency_rules event
    evaluate_rules event now rules d

  -- A decision goes to the logger, and to the store if the logger is full or missing.
  unfoldable pub save_decision : Event → Decision → Effect W (Unit {0})
  save_decision event d w = elim b.push [
    | none ↦ b.save_decision event d w
    | some push ↦
        let (taken, w') = push event d w in
        if taken then (ok tt, w') else b.save_decision event d w'
  ]

  -- `return decision, e.saveDecision(ctx, event, decision)`: the decision, with the error of saving it.
  abbrev pub return_saved : Event → Decision → Effect W (Decision × Result ℕ (Unit {0}))
  return_saved event d w = let (r, w') = save_decision event d w in (ok (d, r), w')

  abbrev pub with_black : Event → Option ListRule → Decision → Decision
  with_black event none d = d
  with_black event (some r) d = apply_hit d (black_hit r)

  abbrev pub after_white :
      Event → ℤ → Decision → Option ListRule → Effect W (Decision × Result ℕ (Unit {0}))
  after_white event now d (some r) = return_saved event (apply_hit d (white_hit r))
  after_white event now d none = do
    black ← b.match_list event "black"
    final ← evaluate_frequency_rules event now (with_black event black d)
    return_saved event final

  -- Evaluate at the time `now`, for an engine with a store.
  unfoldable pub evaluate : ℤ → Event → Effect W (Decision × Result ℕ (Unit {0}))
  unfolding normalize_event
  evaluate now given = do
    let event = normalize_event given
    scene ← b.load_scene event.service event.scene
    white ← b.match_list event "white"
    after_white event now (apply_scene_defaults (initial event now) scene) white
