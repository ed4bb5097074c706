-- ===== src/Workers/Scheduler.antt =====
-- One tick of the scheduler: `SchedulerTick.run_once` of src/intel/workers/scheduler.py, the rows
-- that its queries return being arguments.
use semiconductor_intel.Prelude.{
  ℕ, ◌+◌, ◌/◌, String, Bool, Option, none, some, List, [], ◌∷◌, ◌++◌, if◌then◌else◌, string_eq,
}
use semiconductor_intel.Prelude.Dict.{Dict, get}
use semiconductor_intel.Prelude.Json.{Fields, num, text, end, field}
use semiconductor_intel.Prelude.Exec.{pure, raise, pick, ◌>>=◌}
use semiconductor_intel.Queue.Rows.{JobRecord, seconds}
use semiconductor_intel.Queue.Effects.{Env, M, validation_error}
use semiconductor_intel.Queue.Rules.{IndustryScope}
use semiconductor_intel.Queue.KindSpec.{KindSpec, kind_specs, build_idempotency_key}
use semiconductor_intel.Queue.Service.{enqueue}

-- A feed is polled at most once in each interval, which is a positive number of seconds.
pub record DueFeed : Type 0 where
  pub owner_id : ℕ
  pub feed_id : ℕ
  pub interval_seconds : ℕ
  pub config_version : ℕ

unfoldable pub schedule_slot : DueFeed → ℕ → ℕ
schedule_slot feed now = now / seconds feed.interval_seconds

pub record DailyReportTarget : Type 0 where
  pub owner_id : ℕ
  pub industry_id : ℕ
  pub local_date : String

pub record DueWatch : Type 0 where
  pub owner_id : ℕ
  pub industry_id : ℕ
  pub watch_id : ℕ

pub record SchedulerTickResult : Type 0 where
  pub discovered : ℕ
  pub reports : ℕ
  pub watches : ℕ
  pub job_ids : List ℕ

abbrev pub nothing : SchedulerTickResult
nothing = record { discovered = 0; reports = 0; watches = 0; job_ids = [] }

-- `str` of an identifier and of a number.
pub record Printers : Type 0 where
  pub uuid : ℕ → String
  pub int : ℕ → String

-- The arguments of one call of `enqueue`, with the parts of the key.
pub record Request : Type 0 where
  pub scope : IndustryScope
  pub kind : String
  pub payload : Fields
  pub parts : Dict String String

abbrev attempts_of : Option KindSpec → Option ℕ
attempts_of none = none
attempts_of (some spec) = some spec.max_attempts

module _ (str : Printers) where
  unfoldable pub feed_request : ℕ → DueFeed → Request
  unfolding schedule_slot
  feed_request now feed = record {
    scope = record { owner_id = feed.owner_id; industry_id = none };
    kind = "discover";
    payload =
        field "feed_id" (text (str.uuid feed.feed_id))
          (field "schedule_slot" (num (schedule_slot feed now)) end);
    parts =
        ("owner", str.uuid feed.owner_id)
        ∷ ("feed", str.uuid feed.feed_id)
        ∷ ("schedule_slot", str.int (schedule_slot feed now))
        ∷ ("config_version", str.int feed.config_version)
        ∷ [];
  }

  unfoldable pub report_request : DailyReportTarget → Request
  report_request target = record {
    scope = record { owner_id = target.owner_id; industry_id = some target.industry_id };
    kind = "report_build";
    payload = field "report_type" (text "daily") (field "period" (text target.local_date) end);
    parts =
        ("industry", str.uuid target.industry_id)
        ∷ ("report_type", "daily")
        ∷ ("period", target.local_date)
        ∷ ("input_manifest_hash", "scheduled")
        ∷ [];
  }

  unfoldable pub watch_request : ℕ → DueWatch → Request
  watch_request slot watch = record {
    scope = record { owner_id = watch.owner_id; industry_id = some watch.industry_id };
    kind = "watch_check";
    payload =
        field "watch_id" (text (str.uuid watch.watch_id)) (field "schedule_slot" (num slot) end);
    parts =
        ("industry", str.uuid watch.industry_id)
        ∷ ("watch", str.uuid watch.watch_id)
        ∷ ("schedule_slot", str.int slot)
        ∷ [];
  }

-- What the loops do with a job that was created.
abbrev pub feed_created : JobRecord → SchedulerTickResult → SchedulerTickResult
feed_created job r = record r { discovered = r.discovered + 1; job_ids = r.job_ids ++ job.id ∷ [] }

abbrev pub report_created : JobRecord → SchedulerTickResult → SchedulerTickResult
report_created job r = record r { reports = r.reports + 1; job_ids = r.job_ids ++ job.id ∷ [] }

abbrev pub watch_created : JobRecord → SchedulerTickResult → SchedulerTickResult
watch_created job r = record r { watches = r.watches + 1; job_ids = r.job_ids ++ job.id ∷ [] }

module _ (env : Env) where
  unfoldable pub enqueue_request : Request → M (JobRecord × Bool)
  unfolding kind_specs
  enqueue_request q =
      pick (build_idempotency_key q.kind q.parts) (raise validation_error)
        (λ key. enqueue env q.scope q.kind q.payload key (attempts_of (get q.kind kind_specs)) none)

  module _ {A : Type 0} (request : A → Request) where
    -- One of the three loops.
    unfoldable pub dispatch :
        (JobRecord → SchedulerTickResult → SchedulerTickResult)
        → List A
        → SchedulerTickResult
        → M SchedulerTickResult
    unfolding enqueue_request
    dispatch count [] r = pure r
    dispatch count (a ∷ rest) r = do
      answer ← enqueue_request (request a)
      dispatch count rest (if answer.1 then count answer.0 r else r)

  module _ (str : Printers) (watch_interval : ℕ) where
    unfoldable pub run_once :
        ℕ → List DueFeed → List DailyReportTarget → List DueWatch → M SchedulerTickResult
    unfolding dispatch feed_request report_request watch_request
    run_once now feeds targets watches = do
      found ← dispatch (feed_request str now) feed_created feeds nothing
      reported ← dispatch (report_request str) report_created targets found
      dispatch (watch_request str (now / watch_interval)) watch_created watches reported
