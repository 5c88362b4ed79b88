-- ===== src/Tests/Risk.antt =====
-- Runs of core/security/risk with a store that keeps the number of its calls.
use sdkit.Base.{ℕ, ◌+◌, ◌≤◌, ◌≡◌, refl, [], ◌∷◌, false, String, none, some, str_eq, if◌then◌else◌}
use sdkit.Base.Int.{pos, ◌≤ℤ◌}
use sdkit.Base.Text.{trim_space}
use sdkit.Base.Result.{Result, ok, err}
use sdkit.Base.Dict.{empty, get}
use sdkit.Risk.{Event, Response, ListRule, FrequencyRule, Decision}
use sdkit.Risk.Targets.{first_non_empty, normalize_event, target_value}
use sdkit.Risk.Scoring.{
  action_priority, level_priority, action_allows, apply_scene_defaults, should_use_hit_response,
  apply_hit,
}
use sdkit.Risk.Scoring.Priority.{IsSettled, apply_hit-IsSettled}
use sdkit.Risk.Engine.{
  Backend, current_frequency_count, evaluate_rule, evaluate_rules, evaluate_frequency_rules,
  save_decision, evaluate, initial, white_hit,
}
use sdkit.Risk.Engine.Verdict.{IsSound, evaluate-IsSound, evaluate-black}

abbrev no_answer : Response
no_answer = record {
  response_code = pos 0;
  response_message = "";
  response_action = "none";
  response_payload = [];
  http_status = pos 403;
}

abbrev listed : ListRule
listed = record {
  id = pos 7;
  list_type = "black";
  target_type = "ip";
  target_value = "10.0.0.1";
  scene = "login";
  reason = "abuse";
  response = no_answer;
}

abbrev often : FrequencyRule
often = record {
  id = pos 9;
  rule_code = "login_ip";
  rule_name = "logins by address";
  event = "login";
  target_type = "ip";
  window_seconds = pos 60;
  limit_count = pos 2;
  level = "";
  action = "captcha";
  score = pos 40;
  response = no_answer;
}

-- A store that finds a rule on the list `name`, and counts its calls.
abbrev store : String → Backend ℕ
store name = record {
  load_scene = λ service scene w. (ok none, w + 1);
  match_list = λ event list w. (ok (if str_eq list name then some listed else none), w + 1);
  list_frequency_rules = λ event w. (ok (often ∷ []), w + 1);
  count_events = λ query w. (ok (pos 5), w + 1);
  save_decision = λ event d w. (ok tt, w + 1);
  counter = none;
  push = none;
}

abbrev attempt : Event
attempt = record {
  service = " shop ";
  scene = "login";
  event = "login";
  level = "";
  subject_type = "";
  subject_id = "";
  uid = "";
  ip = "10.0.0.1";
  device_id = "";
  track_id = "";
  trace_id = "";
  request_id = "";
  score = pos 10;
  action = "";
  extra = empty;
}

abbrev decision : Result ℕ (Decision × Result ℕ (Unit {0})) → Decision
decision (ok (d, saved)) = d
decision (err e) = initial attempt (pos 0)

engine : Unit {0}
unfolding evaluate evaluate_frequency_rules evaluate_rules evaluate_rule current_frequency_count
    save_decision target_value first_non_empty normalize_event action_priority level_priority
    action_allows apply_scene_defaults should_use_hit_response apply_hit trim_space empty get
engine = tt

-- The decisions that the three stores lead to.
black_decision : Decision
unfolding engine
black_decision = decision (evaluate (store "black") (pos 1000) attempt 0).0

white_decision : Decision
unfolding engine
white_decision = decision (evaluate (store "white") (pos 1000) attempt 0).0

plain_decision : Decision
unfolding engine
plain_decision = decision (evaluate (store "") (pos 1000) attempt 0).0

black_run : (evaluate (store "black") (pos 1000) attempt 0).0 ≡ ok (black_decision, ok tt)
unfolding black_decision
black_run = refl

white_run : (evaluate (store "white") (pos 1000) attempt 0).0 ≡ ok (white_decision, ok tt)
unfolding white_decision
white_run = refl

plain_run : (evaluate (store "") (pos 1000) attempt 0).0 ≡ ok (plain_decision, ok tt)
unfolding plain_decision
plain_run = refl

-- Six logins from one address reach the limit of two: the rule asks for a captcha.
plain_captcha : (plain_decision.action ≡ "captcha") × (plain_decision.level ≡ "medium")
unfolding plain_decision
plain_captcha = (refl, refl)

evaluate-IsSound_example : IsSound plain_decision
evaluate-IsSound_example =
    evaluate-IsSound (store "") (pos 1000) attempt 0 plain_decision (ok tt) plain_run

evaluate-black_example :
    (black_decision.passed ≡ false)
    × (black_decision.status ≡ "blocked")
    × (pos 100 ≤ℤ black_decision.score)
    × (50 ≤ action_priority black_decision.action)
    × (30 ≤ level_priority black_decision.level)
evaluate-black_example =
    evaluate-black (store "black") (pos 1000) listed attempt 0 black_decision (ok tt) (λ u. refl)
      (λ u. refl) black_run

apply_hit-IsSettled_example : IsSettled (apply_hit black_decision (white_hit listed))
apply_hit-IsSettled_example = apply_hit-IsSettled black_decision (white_hit listed)
