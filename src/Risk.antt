-- ===== src/Risk.antt =====
-- core/security/risk: types.go and the fields of event.go. Levels, actions and statuses are strings,
-- as in the source. A `map[string]any` that is only stored is a list of names and values. A float64
-- is kept as what the code reads of it: the int64 that it equals, if there is one.
pub mod Targets
pub mod Scoring
pub mod Engine
use sdkit.Base.{ℕ, String, Bool, Option, List}
use sdkit.Base.Int.{ℤ}
use sdkit.Base.Dict.{Dict}

pub data AnyValue : Type 0 where
  text : String → AnyValue
  int64 int : ℤ → AnyValue
  float64 : Option ℤ → AnyValue
  opaque_value : ℕ → AnyValue

abbrev pub Attrs : Type 0
Attrs = List (String × AnyValue)

pub record Event : Type 0 where
  pub service : String
  pub scene : String
  pub event : String
  pub level : String
  pub subject_type : String
  pub subject_id : String
  pub uid : String
  pub ip : String
  pub device_id : String
  pub track_id : String
  pub trace_id : String
  pub request_id : String
  pub score : ℤ
  pub action : String
  pub extra : Dict AnyValue

pub record Scene : Type 0 where
  pub service : String
  pub scene_code : String
  pub default_level : String
  pub default_action : String
  pub score_threshold : ℤ

-- The answer that a rule asks for.
pub record Response : Type 0 where
  pub response_code : ℤ
  pub response_message : String
  pub response_action : String
  pub response_payload : Attrs
  pub http_status : ℤ

pub record ListRule : Type 0 where
  pub id : ℤ
  pub list_type : String
  pub target_type : String
  pub target_value : String
  pub scene : String
  pub reason : String
  pub response : Response

pub record FrequencyRule : Type 0 where
  pub id : ℤ
  pub rule_code : String
  pub rule_name : String
  pub event : String
  pub target_type : String
  pub window_seconds : ℤ
  pub limit_count : ℤ
  pub level : String
  pub action : String
  pub score : ℤ
  pub response : Response

pub record EventCountQuery : Type 0 where
  pub service : String
  pub scene : String
  pub event : String
  pub target_type : String
  pub target_value : String
  pub since : ℤ

pub record CounterKey : Type 0 where
  pub service : String
  pub scene : String
  pub event : String
  pub target_type : String
  pub target_value : String
  pub window_seconds : ℤ

pub record HitDecision : Type 0 where
  pub rule_id : ℤ
  pub rule_code : String
  pub rule_name : String
  pub rule_type : String
  pub level : String
  pub score : ℤ
  pub action : String
  pub response : Response
  pub reason : Attrs
  pub snapshot : Attrs

pub record Decision : Type 0 where
  pub passed : Bool
  pub service : String
  pub scene : String
  pub event : String
  pub level : String
  pub score : ℤ
  pub action : String
  pub status : String
  pub response : Response
  pub reasons : List Attrs
  pub hits : List HitDecision
  pub created_at : ℤ
