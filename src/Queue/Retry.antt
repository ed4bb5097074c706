-- ===== src/Queue/Retry.antt =====
-- The retry classification of src/intel/services/jobs.py. Delays are microseconds. A draw of
-- `random.random()` is k / 2 ^ 53 with k < 2 ^ 53, and is given as k; the delay is taken to the
-- nearest microsecond, as `timedelta` does (a tie goes up).
use semiconductor_intel.Prelude.{
  ℕ, ◌+◌, ◌-◌, ◌*◌, ◌/◌, ◌^◌, min, String, Bool, true, false, not, Option, none, some, leb, ◌==◌,
  string_eq, if◌then◌else◌,
}
use semiconductor_intel.Queue.Rows.{JobState, failed, retry_wait, cancelled, seconds}

abbrev pub transient_backoff_base : ℕ
transient_backoff_base = seconds 30

abbrev pub transient_backoff_cap : ℕ
transient_backoff_cap = seconds (30 * 60)

abbrev pub transient_max_attempts : ℕ
transient_max_attempts = 5

abbrev pub parser_max_attempts : ℕ
parser_max_attempts = 2

abbrev pub schema_repair_budget : ℕ
schema_repair_budget = 2

abbrev pub validation_repair_budget : ℕ
validation_repair_budget = 1

abbrev pub lease_expiry_backoff_base : ℕ
lease_expiry_backoff_base = seconds 30

-- The error classes that the code names, and any other text.
pub data ErrorClass : Type 0 where
  transient schema_output validation_failed access_blocked : ErrorClass
  parser_error scope_violation cancellation : ErrorClass
  unclassified : String → ErrorClass

-- The comparisons of the text with each class.
unfoldable pub read_class : String → ErrorClass
read_class name =
    if name == "transient"
    then transient
    else if name == "schema_output"
    then schema_output
    else if name == "validation_failed"
    then validation_failed
    else if name == "access_blocked"
    then access_blocked
    else if name == "parser_error"
    then parser_error
    else if name == "scope_violation"
    then scope_violation
    else if name == "cancelled"
    then cancellation
    else unclassified name

-- The text of a class.
unfoldable pub class_name : ErrorClass → String
class_name transient = "transient"
class_name schema_output = "schema_output"
class_name validation_failed = "validation_failed"
class_name access_blocked = "access_blocked"
class_name parser_error = "parser_error"
class_name scope_violation = "scope_violation"
class_name cancellation = "cancelled"
class_name (unclassified name) = name

pub record RetryDecision : Type 0 where
  pub error_class : ErrorClass
  pub next_state : Option JobState
  pub delay : Option ℕ
  pub error_code : ErrorClass
  pub audit : Bool
  pub repair_budget : ℕ

unfoldable pub jittered_backoff : ℕ → ℕ → ℕ
jittered_backoff attempt k =
    let raw = min (transient_backoff_base * 2 ^ (attempt - 1)) transient_backoff_cap in
    min ((raw * (2 ^ 53 + k) + 2 ^ 52) / 2 ^ 53) transient_backoff_cap

-- A decision with no delay, no audit and no repair.
abbrev decide : ErrorClass → Option JobState → RetryDecision
decide c next = record {
  error_class = c;
  next_state = next;
  delay = none;
  error_code = c;
  audit = false;
  repair_budget = 0;
}

abbrev retry_in : ErrorClass → ℕ → RetryDecision
retry_in c delay = record {
  error_class = c;
  next_state = some retry_wait;
  delay = some delay;
  error_code = c;
  audit = false;
  repair_budget = 0;
}

abbrev repair : ErrorClass → ℕ → RetryDecision
repair c budget = record {
  error_class = c;
  next_state = none;
  delay = none;
  error_code = c;
  audit = false;
  repair_budget = budget;
}

abbrev delay_of : Option ℕ → ℕ → ℕ
delay_of none backoff = backoff
delay_of (some after) backoff = after

-- `k` is the draw that the branch for transient errors makes.
unfoldable pub classify_failure : ErrorClass → ℕ → Option ℕ → ℕ → RetryDecision
classify_failure transient attempt retry_after k =
    if leb transient_max_attempts attempt
    then decide transient (some failed)
    else retry_in transient (delay_of retry_after (jittered_backoff attempt k))
classify_failure schema_output attempt retry_after k = repair schema_output schema_repair_budget
classify_failure validation_failed attempt retry_after k =
    repair validation_failed validation_repair_budget
classify_failure access_blocked attempt retry_after k = decide access_blocked (some failed)
classify_failure parser_error attempt retry_after k =
    if leb parser_max_attempts attempt
    then decide parser_error (some failed)
    else retry_in parser_error transient_backoff_base
classify_failure scope_violation attempt retry_after k = record {
  error_class = scope_violation;
  next_state = some failed;
  delay = none;
  error_code = scope_violation;
  audit = true;
  repair_budget = 0;
}
classify_failure cancellation attempt retry_after k = decide cancellation (some cancelled)
classify_failure (unclassified name) attempt retry_after k =
    decide (unclassified name) (some failed)

-- The one branch that reads the random number generator.
unfoldable pub draws_jitter : ErrorClass → ℕ → Option ℕ → Bool
draws_jitter transient attempt none = not (leb transient_max_attempts attempt)
draws_jitter _ attempt retry_after = false
