-- ===== src/Workers/Runner.antt =====
-- The worker: `JobRunner` and `RunContext` of src/intel/workers/runner.py. A handler is an action on
-- the store that ends in one of the ways that `_execute` tells apart.
use semiconductor_intel.Prelude.{
  ℕ, ◌+◌, String, Bool, true, false, not, Option, none, some, List, [], ◌∷◌, leb, ◌==◌, nat_eq,
  string_eq, if◌then◌else◌,
}
use semiconductor_intel.Prelude.Dict.{Dict, get}
use semiconductor_intel.Prelude.Json.{Fields, num, text, end, field}
use semiconductor_intel.Prelude.Exec.{pure, raise, rescue, pick, ◌>>=◌, ◌>>◌}
use semiconductor_intel.Queue.Rows.{
  JobRecord, JobState, seconds, terminal, succeeded, failed, cancelled,
}
use semiconductor_intel.Queue.Effects.{
  Env, M, QueueError, lease_lost, invalid_transition, query, read_clock,
}
use semiconductor_intel.Queue.Store.{get_job}
use semiconductor_intel.Queue.Service.{claim, finish, fail, heartbeat}

pub record JobFailure : Type 0 where
  pub error_class : String
  pub message : String
  pub retry_after : Option ℕ
  pub details : Option Fields

-- How a handler ends. A CancelledError comes with the `lease_lost` flag of the run, any other
-- exception with its repr.
pub data Outcome : Type 0 where
  returned job_cancelled deadline_exceeded lost_lease : Outcome
  cancelled_error : (lease_lost : Bool) → Outcome
  job_failure : JobFailure → Outcome
  unclassified : String → Outcome

-- What `run_once` returns, or the CancelledError that goes through it.
pub data Ending : Type 0 where
  finished : JobRecord → Ending
  interrupted : Ending

pub record RunContext : Type 0 where
  pub job : JobRecord
  pub deadline_at : ℕ

abbrev pub Handler : Type 0
Handler = RunContext → M Outcome

pub record JobRunner : Type 0 where
  pub handlers : Dict String Handler
  pub deadlines : Dict String ℕ
  pub default_deadline : ℕ
  -- repr of an exception of the service
  pub repr : QueueError → String

unfoldable pub same_token : Option String → Option String → Bool
same_token none none = true
same_token none (some u) = false
same_token (some t) none = false
same_token (some t) (some u) = t == u

-- Seconds.
unfoldable pub deadline_for : JobRunner → String → ℕ
deadline_for runner kind = elim (get kind runner.deadlines) [
  | none ↦ runner.default_deadline
  | some d ↦ d
]

abbrev pub names : Dict String Handler → List String
names [] = []
names ((k, h) ∷ hs) = k ∷ names hs

-- `tuple(self._handlers) if self._handlers else None`
abbrev pub handled_kinds : Dict String Handler → Option (List String)
handled_kinds [] = none
handled_kinds (h ∷ hs) = some (names (h ∷ hs))

abbrev pub found_or : JobRecord → Option JobRecord → JobRecord
found_or job none = job
found_or job (some fresh) = fresh

-- `ctx.job.lease_token or ""`
abbrev text_or : Option String → String
text_or none = ""
text_or (some t) = t

module _ (env : Env) where
  -- The exception of a step boundary, if there is one.
  unfoldable pub boundary : RunContext → M (Option Outcome)
  boundary ctx = do
    now ← read_clock env
    if leb ctx.deadline_at now then pure (some deadline_exceeded) else (do
      fresh ← query (get_job ctx.job.id)
      pick fresh (pure none)
          (λ r. pick r.cancel_requested_at (pure none) (λ at. pure (some job_cancelled))))

  -- `except (LeaseLost, InvalidStateTransition): pass`
  abbrev pub absorb : QueueError → M (Unit {0})
  absorb lease_lost = pure tt
  absorb invalid_transition = pure tt
  absorb e = raise e

  unfoldable pub finalize_row : JobRecord → JobState → Option Fields → JobRecord → M (Unit {0})
  unfolding same_token
  finalize_row job state error fresh =
      if terminal fresh.state
      then pure tt
      else if not (same_token fresh.lease_token job.lease_token)
      then pure tt
      else (do finish env fresh state none error none; pure tt)

  unfoldable pub finalize : JobRecord → JobState → Option Fields → M (Unit {0})
  unfolding finalize_row
  finalize job state error =
      rescue
        (do fresh ← query (get_job job.id); pick fresh (pure tt) (finalize_row job state error))
        absorb

  abbrev pub internal_error : String → Fields
  internal_error message = field "code" (text "internal_error") (field "message" (text message) end)

  -- The handlers of `_service_fail`; `repr` writes the exception into the message.
  abbrev pub misclassified : (QueueError → String) → JobRecord → QueueError → M (Unit {0})
  misclassified repr job lease_lost = pure tt
  misclassified repr job e = finalize job failed (some (internal_error (repr e)))

  unfoldable pub service_fail : (QueueError → String) → JobRecord → JobFailure → M (Unit {0})
  unfolding finalize
  service_fail repr job failure =
      rescue
        (do
          fail env job failure.error_class failure.message failure.retry_after failure.details
          pure tt)
        (misclassified repr job)

  -- The `except` clauses of `_execute`: true where the CancelledError is raised again.
  unfoldable pub settle : (QueueError → String) → JobRecord → ℕ → Outcome → M Bool
  unfolding service_fail
  settle repr job budget returned = pure false
  settle repr job budget job_cancelled = do
    finalize job cancelled (some (field "code" (text "cancelled") end))
    pure false
  settle repr job budget deadline_exceeded = do
    finalize job failed
        (some (field "code" (text "deadline_exceeded") (field "budget_seconds" (num budget) end)))
    pure false
  settle repr job budget (cancelled_error lost) = pure (not lost)
  settle repr job budget (job_failure failure) = do service_fail repr job failure; pure false
  settle repr job budget lost_lease = pure false
  settle repr job budget (unclassified message) = do
    finalize job failed (some (internal_error message))
    pure false

  -- After the handler.
  unfoldable pub conclude : (QueueError → String) → JobRecord → ℕ → Outcome → M Ending
  unfolding settle
  conclude repr job budget outcome = do
    again ← settle repr job budget outcome
    fresh ← query (get_job job.id)
    pure (if again then interrupted else finished (found_or job fresh))

  -- An exception of the service that leaves a handler.
  unfoldable pub outcome_of : (QueueError → String) → QueueError → Outcome
  outcome_of repr lease_lost = lost_lease
  outcome_of repr e = unclassified (repr e)

  unfoldable pub default_handler : (QueueError → String) → Handler
  unfolding boundary outcome_of
  default_handler repr ctx = do
    stop ← boundary ctx
    pick stop
        (rescue
          (do
            finish env ctx.job succeeded none none
                (some (field "note" (text "no handler registered for kind") end))
            pure returned)
          (λ e. pure (outcome_of repr e)))
        pure

  module _ (runner : JobRunner) where
    abbrev handler_of : Option Handler → Handler
    handler_of none = default_handler runner.repr
    handler_of (some h) = h

    unfoldable pub execute : JobRecord → M Ending
    unfolding conclude default_handler deadline_for
    execute job = do
      now ← read_clock env
      outcome ←
          handler_of (get job.kind runner.handlers)
            (record { job = job; deadline_at = now + seconds (deadline_for runner job.kind) })
      conclude runner.repr job (deadline_for runner job.kind) outcome

    unfoldable pub run_once : String → M (Option Ending)
    unfolding execute
    run_once session = do
      claimed ← claim env session none (handled_kinds runner.handlers)
      pick claimed (pure none) (λ job. do ending ← execute job; pure (some ending))

  -- What a beat of `_keep_lease` finds: the handler done, the store failing, or the store's answer.
  pub data Beat : Type 0 where
    handler_done store_error answers : Beat

  unfoldable pub keep_lease : JobRecord → List Beat → M Bool
  keep_lease job [] = pure false
  keep_lease job (handler_done ∷ beats) = pure false
  keep_lease job (store_error ∷ beats) = keep_lease job beats
  keep_lease job (answers ∷ beats) = do
    alive ← heartbeat env job.id (text_or job.lease_token) none
    if alive then keep_lease job beats else pure true
