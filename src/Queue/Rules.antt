-- ===== src/Queue/Rules.antt =====
-- The tables and row updates of src/intel/services/jobs.py, with no effects. A UUID in the data of
-- an event is a number, and so is a delay, in microseconds.
use semiconductor_intel.Prelude.{
  ℕ, String, Bool, true, false, Option, none, some, ◌==◌, nat_eq, string_eq, if◌then◌else◌,
}
use semiconductor_intel.Prelude.Json.{
  Json, Fields, null, bool, num, text, arr, obj, cons, end, field, lookup, assign, merge,
}
use semiconductor_intel.Queue.Rows.{
  JobState, JobRecord, JobStepRecord, EventType, queued, running, succeeded, partial, failed,
  waiting_review, retry_wait, cancelled, ev_review_required, ev_completed, ev_failed, ev_cancelled,
  is_partial, is_succeeded,
}
use semiconductor_intel.Queue.Retry.{ErrorClass, class_name}

-- _ALLOWED_TRANSITIONS
unfoldable pub allowed : JobState → JobState → Bool
allowed queued running = true
allowed queued cancelled = true
allowed running succeeded = true
allowed running partial = true
allowed running failed = true
allowed running waiting_review = true
allowed running retry_wait = true
allowed running cancelled = true
allowed retry_wait queued = true
allowed retry_wait cancelled = true
allowed waiting_review running = true
allowed waiting_review cancelled = true
allowed current target = false

-- _TERMINAL_EVENT; the states that it lacks are a KeyError.
unfoldable pub terminal_event : JobState → Option EventType
terminal_event succeeded = some ev_completed
terminal_event partial = some ev_completed
terminal_event failed = some ev_failed
terminal_event cancelled = some ev_cancelled
terminal_event waiting_review = some ev_review_required
terminal_event _ = none

pub record IndustryScope : Type 0 where
  pub owner_id : ℕ
  pub industry_id : Option ℕ

abbrev pub optional : Option ℕ → Json
optional none = null
optional (some n) = num n

-- The token that a snapshot carries; an empty one is none.
unfoldable pub carried : Option String → Option String
carried none = none
carried (some t) = if t == "" then none else some t

abbrev pub with_output : Option String → JobRecord → JobRecord
with_output none r = r
with_output (some ref) r = record r { output_ref = some ref }

abbrev pub with_error : Option Fields → JobRecord → JobRecord
with_error none r = r
with_error (some e) r = record r { error = some e }

abbrev pub with_progress : Fields → Option Fields → JobRecord → JobRecord
with_progress base none r = r
with_progress base (some more) r = record r { progress = merge base more }

abbrev pub has_gaps : Option Json → Bool
has_gaps (some (arr (cons x xs))) = true
has_gaps _ = false

-- (error or {}).get("gaps")
abbrev pub gaps_of : Option Fields → Option Json
gaps_of none = none
gaps_of (some e) = lookup "gaps" e

abbrev pub opt_field : String → Option Json → Fields → Fields
opt_field k none o = o
opt_field k (some v) o = assign k v o

abbrev pub as_obj : Option Fields → Option Json
as_obj none = none
as_obj (some e) = some (obj e)

-- The data of the event of a terminal transition.
unfoldable pub finish_body : String → JobState → Option Fields → Fields
finish_body kind state error = opt_field "error" (as_obj error) (
    opt_field "gaps" (if is_partial state then gaps_of error else none)
      (field "kind" (text kind) end))

-- The columns that `finish` writes.
unfoldable pub finish_row :
    JobState → ℕ → Option String → Option Fields → Fields → Option Fields → JobRecord → JobRecord
finish_row state now output_ref error base progress r = with_progress base progress (
    with_error error (
      with_output output_ref (record r {
        state = state;
        lease_token = none;
        lease_until = none;
        heartbeat_at = some now;
      })))

-- The columns that `fail` writes for a retry.
unfoldable pub retry_row : ℕ → ℕ → Fields → JobRecord → JobRecord
retry_row now available error r = record r {
  state = retry_wait;
  available_at = some available;
  lease_token = none;
  lease_until = none;
  heartbeat_at = some now;
  error = some error;
}

-- The columns that the reaper writes.
unfoldable pub reap_failed_row : Fields → JobRecord → JobRecord
reap_failed_row error r = record r {
  state = failed;
  lease_token = none;
  lease_until = none;
  error = some error;
}

unfoldable pub reap_retry_row : ℕ → Fields → JobRecord → JobRecord
reap_retry_row available error r = record r {
  state = retry_wait;
  available_at = some available;
  lease_token = none;
  lease_until = none;
  error = some error;
}

unfoldable pub touch : ℕ → JobRecord → JobRecord
touch now r = record r { heartbeat_at = some now }

-- The columns that a step commit writes.
unfoldable pub step_row : ℕ → Fields → Option Fields → JobRecord → JobRecord
unfolding touch
step_row now base progress r = with_progress base progress (touch now r)

-- (error_code or error_class, message, and the details if there are any)
unfoldable pub error_of : ErrorClass → String → Option Fields → Fields
error_of c message details = elim details [
  | none ↦ field "code" (text (class_name c)) (field "message" (text message) end)
  | some end ↦ field "code" (text (class_name c)) (field "message" (text message) end)
  | some (field k v o) ↦
      field "code" (text (class_name c))
        (field "message" (text message) (field "details" (obj (field k v o)) end))
]

unfoldable pub audited : Bool → Fields → Fields
audited audit error = if audit then assign "audit" (bool true) error else error

-- A step that is there and has succeeded.
abbrev pub committed : Option JobStepRecord → Option JobStepRecord
committed none = none
committed (some step) = if is_succeeded step.state then some step else none
