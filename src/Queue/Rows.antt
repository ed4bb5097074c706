-- ===== src/Queue/Rows.antt =====
-- The rows of the queue's tables (src/intel/repositories/jobs.py). A UUID is the number that its
-- 128 bits spell, which is also its order; a time is a number of microseconds.
use semiconductor_intel.Prelude.{
  ℕ, String, ◌*◌, Bool, false, true, List, Option, none, some, leb, ltb,
}
use semiconductor_intel.Prelude.Dict.{Dict}
use semiconductor_intel.Prelude.Json.{Fields}

-- timedelta(seconds=s)
abbrev pub seconds : ℕ → ℕ
seconds s = s * 1_000_000

pub data JobState : Type 0 where
  queued running succeeded partial failed waiting_review retry_wait cancelled : JobState

pub record JobRecord : Type 0 where
  pub owner_id : ℕ
  pub idempotency_key : String
  pub kind : String
  pub id : ℕ
  pub industry_id : Option ℕ
  pub state : JobState
  pub input : Fields
  pub available_at : Option ℕ
  pub attempt : ℕ
  pub max_attempts : ℕ
  pub lease_token : Option String
  pub lease_until : Option ℕ
  pub heartbeat_at : Option ℕ
  pub cancel_requested_at : Option ℕ
  pub progress : Fields
  pub error : Option Fields
  pub output_ref : Option String

-- A step is `running` or `succeeded`, words that it shares with jobs.
pub record JobStepRecord : Type 0 where
  pub owner_id : ℕ
  pub job_id : ℕ
  pub step_key : String
  pub input_hash : String
  pub id : ℕ
  pub industry_id : Option ℕ
  pub state : JobState
  pub output_ref : Option String
  pub attempt : ℕ
  pub started_at : Option ℕ
  pub completed_at : Option ℕ

-- The types of job_events (src/intel/services/jobs.py).
pub data EventType : Type 0 where
  ev_queued ev_stage_started ev_progress ev_artifact_ready : EventType
  ev_review_required ev_completed ev_failed ev_cancelled : EventType

pub record JobEventRecord : Type 0 where
  pub owner_id : ℕ
  pub job_id : ℕ
  pub seq : ℕ
  pub type : EventType
  pub industry_id : Option ℕ
  pub body : Fields
  pub created_at : Option ℕ

-- UNIQUE(owner_id, kind, idempotency_key) and UNIQUE(job_id, step_key, input_hash).
abbrev pub JobKey : Type 0
JobKey = ℕ × String × String

abbrev pub StepKey : Type 0
StepKey = ℕ × String × String

-- The state that the stores share.
pub record InMemoryJobsDatabase : Type 0 where
  pub jobs : Dict ℕ JobRecord
  pub idempotency : Dict JobKey ℕ
  pub steps : Dict StepKey JobStepRecord
  pub events : Dict ℕ (List JobEventRecord)
  pub locks : Dict ℕ String

abbrev pub is_queued : JobState → Bool
is_queued queued = true
is_queued _ = false

abbrev pub is_running : JobState → Bool
is_running running = true
is_running _ = false

abbrev pub is_retry_wait : JobState → Bool
is_retry_wait retry_wait = true
is_retry_wait _ = false

abbrev pub is_succeeded : JobState → Bool
is_succeeded succeeded = true
is_succeeded _ = false

abbrev pub is_partial : JobState → Bool
is_partial partial = true
is_partial _ = false

-- CANCELLABLE_STATES
unfoldable pub cancellable : JobState → Bool
cancellable queued = true
cancellable running = true
cancellable retry_wait = true
cancellable waiting_review = true
cancellable _ = false

-- TERMINAL_STATES
unfoldable pub terminal : JobState → Bool
terminal succeeded = true
terminal partial = true
terminal failed = true
terminal cancelled = true
terminal _ = false

-- `t is not None and t <= now`, and `t is not None and t > now`.
abbrev pub reached : Option ℕ → ℕ → Bool
reached none now = false
reached (some t) now = leb t now

abbrev pub ahead : Option ℕ → ℕ → Bool
ahead none now = false
ahead (some t) now = ltb now t
