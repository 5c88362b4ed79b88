-- ===== src/Risk/Scoring/Priority.antt =====
-- A hit never makes a decision milder.
use sdkit.Base.{
  ◌+◌, ◌≤◌, ◌≡◌, ◌⊎◌, inl, inr, refl, String, false, [], ◌∷◌, arith, if◌then◌else◌, eq_iff, length,
  length-append,
}
use sdkit.Base.Int.{◌≤ℤ◌}
use sdkit.Risk.{HitDecision, Decision}
use sdkit.Risk.Scoring.{action_priority, level_priority, action_allows, apply_hit}

-- `e` is at least as severe as `d`, and keeps its record of hits.
pub record IsStricter (d e : Decision) : Type 0 where
  pub action : action_priority d.action ≤ action_priority e.action
  pub level : level_priority d.level ≤ level_priority e.level
  pub score : d.score ≤ℤ e.score

pub IsStricter-refl : (d : Decision) → IsStricter d d
IsStricter-refl d = ground arith

pub IsStricter-trans : {d e f : Decision} → IsStricter d e → IsStricter e f → IsStricter d f
IsStricter-trans h k = ground arith

-- The hit is at most as severe as `e`, and the last of its hits.
pub record IsCounted (hit : HitDecision) (e : Decision) : Type 0 where
  pub action : action_priority hit.action ≤ action_priority e.action
  pub level : level_priority hit.level ≤ level_priority e.level
  pub score : hit.score ≤ℤ e.score

-- After a hit the decision is at least as severe as it was and as the hit is.
pub apply_hit-IsStricter :
    (d : Decision) (hit : HitDecision)
    → IsStricter d (apply_hit d hit) × IsCounted hit (apply_hit d hit)
unfolding apply_hit
apply_hit-IsStricter d hit = ground arith

-- The flag and the status say what the action says.
pub record IsSettled (d : Decision) : Type 0 where
  pub flag : d.passed ≡ action_allows d.action
  pub status : d.status ≡ (if action_allows d.action then "hit" else "blocked")

-- After a hit the flag and the status follow from the action.
pub apply_hit-IsSettled : (d : Decision) (hit : HitDecision) → IsSettled (apply_hit d hit)
unfolding apply_hit
apply_hit-IsSettled d hit = ground arith

-- One more hit and one more reason are recorded.
pub length-apply_hit :
    (d : Decision) (hit : HitDecision)
    → (length (apply_hit d hit).hits ≡ length d.hits + 1)
      × (length (apply_hit d hit).reasons ≡ length d.reasons + 1)
unfolding apply_hit
length-apply_hit d hit =
    ground (arith, length-append d.hits (hit ∷ []), length-append d.reasons (hit.reason ∷ []))

block_or_deny :
    (action : String) → 50 ≤ action_priority action → (action ≡ "block") ⊎ (action ≡ "deny")
unfolding action_priority
block_or_deny action h = ground (arith, eq_iff action "block", eq_iff action "deny")

-- An action that blocks or denies is not one that passes.
pub denies : (action : String) → 50 ≤ action_priority action → action_allows action ≡ false
unfolding action_allows
denies action h = elim (block_or_deny action h) [ inl e ↦ rw e refl | inr e ↦ rw e refl ]
