-- ===== src/Queue/Option.antt =====
-- core/queue/option.go: the options of a task. A `time.Time` is its nanoseconds, `none` for the zero
-- time, and a `*int` is an Option.
use sdkit.Base.{String, Bool, true, false, Option, none, some, List, [], ◌∷◌, if◌then◌else◌}
use sdkit.Base.Int.{ℤ, pos, ltb_ℤ}

pub record EnqueueOptions : Type 0 where
  pub queue : String
  pub task_id : String
  pub max_retry : Option ℤ
  pub timeout : ℤ
  pub deadline : Option ℤ
  pub process_at : Option ℤ
  pub process_in : ℤ
  pub unique_ttl : ℤ
  pub retention : ℤ
  pub group : String
  pub priority : ℤ
  pub rate_limit_key : String
  pub trace : Bool
  pub auto_retry_enabled : Bool
  pub auto_retry_max : ℤ
  pub auto_retry_delay : ℤ

-- What each function of the file that returns an option was given; `foreign` is a function of the
-- caller's own.
pub data TaskOption : Type 0 where
  queue group task_id rate_limit_key : String → TaskOption
  max_retry timeout process_in unique retention with_priority : ℤ → TaskOption
  deadline process_at : Option ℤ → TaskOption
  auto_retry : ℤ → ℤ → TaskOption
  with_trace : Bool → TaskOption
  foreign : (EnqueueOptions → EnqueueOptions) → TaskOption

abbrev pub at_least_zero : ℤ → ℤ
at_least_zero n = if ltb_ℤ n (pos 0) then pos 0 else n

unfoldable pub apply_option : TaskOption → EnqueueOptions → EnqueueOptions
apply_option (queue name) o = record o { queue = name }
apply_option (group name) o = record o { group = name }
apply_option (task_id id) o = record o { task_id = id }
apply_option (rate_limit_key key) o = record o { rate_limit_key = key }
apply_option (max_retry n) o = record o { max_retry = some (at_least_zero n) }
apply_option (timeout d) o = record o { timeout = d }
apply_option (process_in d) o = record o { process_in = d }
apply_option (unique ttl) o = record o { unique_ttl = ttl }
apply_option (retention d) o = record o { retention = d }
apply_option (with_priority n) o = record o { priority = n }
apply_option (deadline t) o = record o { deadline = t }
apply_option (process_at t) o = record o { process_at = t }
apply_option (auto_retry most delay) o =
    if ltb_ℤ (pos 0) most
    then record o {
      auto_retry_enabled = true;
      auto_retry_max = most;
      auto_retry_delay = at_least_zero delay;
    }
    else record o { auto_retry_enabled = false; auto_retry_max = pos 0; auto_retry_delay = pos 0 }
apply_option (with_trace enabled) o = record o { trace = enabled }
apply_option (foreign f) o = f o

abbrev pub default_options : EnqueueOptions
default_options = record {
  queue = "default";
  task_id = "";
  max_retry = none;
  timeout = pos 0;
  deadline = none;
  process_at = none;
  process_in = pos 0;
  unique_ttl = pos 0;
  retention = pos 0;
  group = "";
  priority = pos 0;
  rate_limit_key = "";
  trace = true;
  auto_retry_enabled = false;
  auto_retry_max = pos 0;
  auto_retry_delay = pos 0;
}

-- The loop of ApplyOptions; a nil option, which it passes over, is `none`.
unfoldable pub apply_all : List (Option TaskOption) → EnqueueOptions → EnqueueOptions
unfolding apply_option
apply_all [] o = o
apply_all (none ∷ opts) o = apply_all opts o
apply_all (some opt ∷ opts) o = apply_all opts (apply_option opt o)

unfoldable pub apply_options : List (Option TaskOption) → EnqueueOptions
unfolding apply_all
apply_options opts = apply_all opts default_options
