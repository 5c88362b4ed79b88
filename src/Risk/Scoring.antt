-- ===== src/Risk/Scoring.antt =====
-- core/security/risk/decision.go: how a hit changes a decision. Go mutates the decision; here each
-- function returns the new one.
pub mod Priority
use sdkit.Base.{
  ℕ, String, Bool, true, false, not, ◌&&◌, ◌||◌, Option, none, some, List, [], ◌∷◌, ◌++◌, is_blank,
  str_eq, ltb, if◌then◌else◌,
}
use sdkit.Base.Int.{ℤ, pos, ltb_ℤ}
use sdkit.Risk.{Scene, HitDecision, Decision}

unfoldable pub action_priority : String → ℕ
action_priority action =
    if str_eq action "block"
    then 60
    else if str_eq action "deny"
    then 50
    else if str_eq action "limit"
    then 40
    else if str_eq action "captcha"
    then 30
    else if str_eq action "review"
    then 20
    else if str_eq action "allow"
    then 10
    else 0

unfoldable pub level_priority : String → ℕ
level_priority level =
    if str_eq level "critical"
    then 40
    else if str_eq level "high"
    then 30
    else if str_eq level "medium"
    then 20
    else if str_eq level "low"
    then 10
    else 0

unfoldable pub action_allows : String → Bool
action_allows action = is_blank action || str_eq action "allow" || str_eq action "review"

-- applySceneDefaults
unfoldable pub apply_scene_defaults : Decision → Option Scene → Decision
apply_scene_defaults d none = d
apply_scene_defaults d (some scene) = record d {
  level =
      if not (is_blank scene.default_level) && str_eq d.level "low"
      then scene.default_level
      else d.level;
  action =
      if not (is_blank scene.default_action) && str_eq d.action "allow"
      then scene.default_action
      else d.action;
  score =
      if ltb_ℤ (pos 0) scene.score_threshold && ltb_ℤ d.score scene.score_threshold
      then scene.score_threshold
      else d.score;
}

abbrev is_empty : List HitDecision → Bool
is_empty [] = true
is_empty (h ∷ hs) = false

unfoldable pub should_use_hit_response : Decision → HitDecision → Bool
should_use_hit_response d hit =
    if ltb (action_priority d.action) (action_priority hit.action)
    then true
    else if ltb (action_priority hit.action) (action_priority d.action)
    then false
    else is_empty d.hits || ltb_ℤ d.score hit.score

-- The last statement of applyHit.
abbrev settle : Decision → Decision
settle d =
    if action_allows d.action
    then record d { passed = true; status = "hit" }
    else record d { passed = false; status = "blocked" }

-- A nil reason or snapshot becomes an empty one, which is the same list of attributes here, as is the
-- copy that cloneMap makes of the payload.
unfoldable pub apply_hit : Decision → HitDecision → Decision
apply_hit d hit = settle (record d {
  response = if should_use_hit_response d hit then hit.response else d.response;
  reasons = d.reasons ++ hit.reason ∷ [];
  hits = d.hits ++ hit ∷ [];
  score = if ltb_ℤ d.score hit.score then hit.score else d.score;
  level = if ltb (level_priority d.level) (level_priority hit.level) then hit.level else d.level;
  action =
      if ltb (action_priority d.action) (action_priority hit.action) then hit.action else d.action;
})
