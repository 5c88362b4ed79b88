-- ===== src/Risk/Targets.antt =====
-- core/security/risk/event.go
use sdkit.Base.{String, not, Option, none, some, List, [], ◌∷◌, is_blank, str_eq, if◌then◌else◌}
use sdkit.Base.Text.{trim_space, format_int}
use sdkit.Base.Dict
use sdkit.Risk.{AnyValue, text, int64, int, float64, opaque_value, Event}

-- firstNonEmpty
unfoldable pub first_non_empty : List String → String
unfolding trim_space
first_non_empty [] = ""
first_non_empty (value ∷ values) =
    let rest = first_non_empty values in
    if not (is_blank (trim_space value)) then trim_space value else rest

-- A nil `Extra` map reads like an empty one, so there is nothing to put in its place.
unfoldable pub normalize_event : Event → Event
unfolding first_non_empty
normalize_event e = record e {
  service = first_non_empty (trim_space e.service ∷ "admin" ∷ []);
  scene = trim_space e.scene;
  event = trim_space e.event;
  level = trim_space e.level;
  subject_type = trim_space e.subject_type;
  subject_id = trim_space e.subject_id;
  uid = trim_space e.uid;
  ip = trim_space e.ip;
  device_id = trim_space e.device_id;
  track_id = trim_space e.track_id;
  trace_id = trim_space e.trace_id;
  request_id = trim_space e.request_id;
  action = trim_space e.action;
}

-- `return v, v != ""`
abbrev given : String → Option String
given v = if is_blank v then none else some v

abbrev extra_value : Option AnyValue → Option String
extra_value none = none
extra_value (some (text v)) = given (trim_space v)
extra_value (some (int64 v)) = some (format_int v)
extra_value (some (int v)) = some (format_int v)
extra_value (some (float64 (some v))) = some (format_int v)
extra_value (some (float64 none)) = none
extra_value (some (opaque_value v)) = none

-- TargetValue; `none` is `"", false`.
unfoldable pub target_value : Event → String → Option String
target_value e target_type =
    if str_eq target_type "uid"
    then given e.uid
    else if str_eq target_type "ip"
    then given e.ip
    else if str_eq target_type "device_id"
    then given e.device_id
    else if str_eq target_type "subject_id"
    then given e.subject_id
    else extra_value (Dict.get e.extra target_type)
