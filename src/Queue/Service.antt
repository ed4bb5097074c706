-- ===== src/Queue/Service.antt =====
-- `JobService` of src/intel/services/jobs.py: each public method is an action on the store.
use semiconductor_intel.Prelude.{
  ℕ, ◌+◌, String, Bool, true, false, not, ◌&&◌, Option, none, some, List, [], ◌∷◌, ltb, leb, max,
  ◌==◌, nat_eq, string_eq, if◌then◌else◌,
}
use semiconductor_intel.Prelude.Json.{Fields, bool, num, text, end, field, merge}
use semiconductor_intel.Prelude.Exec.{pure, raise, pick, ◌>>=◌, ◌>>◌}
use semiconductor_intel.Queue.Rows.{
  JobState, JobRecord, JobStepRecord, JobEventRecord, EventType, queued, running, succeeded, failed,
  cancelled, ev_queued, ev_stage_started, ev_progress, ev_artifact_ready, ev_failed, seconds,
  is_partial,
}
use semiconductor_intel.Queue.Store.{
  insert_job, find_idempotent_job, get_job, get_step, claim_next, expired_running_jobs,
  expire_update, fenced_update, fenced_heartbeat, upsert_step, next_event_seq, insert_event,
}
use semiconductor_intel.Queue.Store
use semiconductor_intel.Queue.Lease.{lease_seconds, new_lease}
use semiconductor_intel.Queue.Retry.{
  RetryDecision, classify_failure, read_class, draws_jitter, jittered_backoff,
  lease_expiry_backoff_base,
}
use semiconductor_intel.Queue.Rules.{
  committed, allowed, terminal_event, IndustryScope, optional, carried, has_gaps, gaps_of,
  finish_body, finish_row, retry_row, reap_failed_row, reap_retry_row, touch, step_row, error_of,
  audited,
}
use semiconductor_intel.Queue.Effects.{
  Env, M, validation_error, lease_lost, invalid_transition, key_error, duplicate_seq, missing_job,
  store, query, read_clock, draw, new_uuid, new_token, now_or_clock,
}

module _ (env : Env) where
  abbrev pub new_event : JobRecord → EventType → Fields → ℕ → ℕ → JobEventRecord
  new_event job type body seq created = record {
    owner_id = job.owner_id;
    job_id = job.id;
    seq = seq;
    type = type;
    industry_id = job.industry_id;
    body = body;
    created_at = some created;
  }

  unfoldable pub append_event : JobRecord → EventType → Fields → M JobEventRecord
  append_event job type body = do
    seq ← query (next_event_seq job.id)
    created ← read_clock env
    inserted ← store (insert_event (new_event job type body seq created))
    if inserted then pure (new_event job type body seq created) else raise duplicate_seq

  unfoldable pub fenced : JobRecord → ℕ → (JobRecord → JobRecord) → M (Unit {0})
  fenced job now values = pick (carried job.lease_token) (raise lease_lost) (λ token. do
    rowcount ← store (fenced_update job.id token now values)
    if rowcount == 0 then raise lease_lost else pure tt)

  unfoldable pub fence : JobRecord → ℕ → M (Unit {0})
  fence job now =
      pick (carried job.lease_token) (raise lease_lost) (λ _. fenced job now (touch now))

  unfoldable pub fresh_progress : JobRecord → M Fields
  fresh_progress job = do
    fresh ← query (get_job job.id)
    pick fresh (pure job.progress) (λ r. pure r.progress)

  -- The record that `get_job` finds; the methods assert that there is one.
  unfoldable pub reread : JobRecord → M JobRecord
  reread job = do updated ← query (get_job job.id); pick updated (raise missing_job) pure

  -- The row of a new job; `spec_attempts` is the limit of its kind, if the kind is known.
  unfoldable pub new_job :
      IndustryScope → String → Fields → String → Option ℕ → Option ℕ → ℕ → ℕ → JobRecord
  new_job scope kind payload key spec_attempts max_attempts now id = record {
    owner_id = scope.owner_id;
    idempotency_key = key;
    kind = kind;
    id = id;
    industry_id = scope.industry_id;
    state = queued;
    input = payload;
    available_at = some now;
    attempt = 0;
    max_attempts = elim max_attempts [
      | some n ↦ n
      | none ↦ elim spec_attempts [ some n ↦ n | none ↦ 3 ]
    ];
    lease_token = none;
    lease_until = none;
    heartbeat_at = none;
    cancel_requested_at = none;
    progress = end;
    error = none;
    output_ref = none;
  }

  -- What `enqueue` does with the answer of `insert_job`.
  unfoldable pub after_insert : JobRecord → Option JobRecord → M (JobRecord × Bool)
  after_insert r inserted =
      pick inserted
        (do
          existing ← query (find_idempotent_job r.owner_id r.kind r.idempotency_key)
          pick existing (raise missing_job) (λ old. pure (old, false)))
        (λ job. do
          append_event job ev_queued
              (field "kind" (text r.kind) (field "industry_id" (optional r.industry_id) end))
          pure (job, true))

  unfoldable pub insert_or_find : JobRecord → M (JobRecord × Bool)
  insert_or_find r = do inserted ← store (insert_job r); after_insert r inserted

  unfoldable pub enqueue :
      IndustryScope
      → String
      → Fields
      → String
      → (spec_attempts : Option ℕ) → (max_attempts : Option ℕ) → M (JobRecord × Bool)
  unfolding new_job
  enqueue scope kind payload key spec_attempts max_attempts = do
    now ← read_clock env
    id ← new_uuid env
    insert_or_find (new_job scope kind payload key spec_attempts max_attempts now id)

  unfoldable pub claim : String → Option ℕ → Option (List String) → M (Option JobRecord)
  claim session now kinds = do
    t ← now_or_clock env now
    token ← new_token env
    let lease = new_lease t token lease_seconds
    store (claim_next session t lease.token lease.until kinds)

  unfoldable pub heartbeat : ℕ → String → Option ℕ → M Bool
  heartbeat id token now = do
    t ← now_or_clock env now
    n ← store (fenced_heartbeat id token (t + seconds lease_seconds) t)
    pure (ltb 0 n)

  unfoldable pub start_step : JobRecord → String → String → M JobStepRecord
  start_step job step_key input_hash = do
    now ← read_clock env
    fence job now
    id ← new_uuid env
    step ← store (
        upsert_step (record {
          owner_id = job.owner_id;
          job_id = job.id;
          step_key = step_key;
          input_hash = input_hash;
          id = id;
          industry_id = job.industry_id;
          state = running;
          output_ref = none;
          attempt = job.attempt;
          started_at = some now;
          completed_at = none;
        }))
    append_event job ev_stage_started (field "step" (text step_key) end)
    pure step

  -- What follows the test for a committed step.
  unfoldable pub commit_step :
      JobRecord → ℕ → String → String → Option String → Option Fields → M JobStepRecord
  commit_step job now step_key input_hash output_ref progress = do
    base ← fresh_progress job
    fenced job now (step_row now base progress)
    id ← new_uuid env
    step ← store (
        upsert_step (record {
          owner_id = job.owner_id;
          job_id = job.id;
          step_key = step_key;
          input_hash = input_hash;
          id = id;
          industry_id = job.industry_id;
          state = succeeded;
          output_ref = output_ref;
          attempt = job.attempt;
          started_at = some now;
          completed_at = some now;
        }))
    pick output_ref (pure tt) (λ ref. do
      append_event job ev_artifact_ready
          (field "step" (text step_key) (field "output_ref" (text ref) end))
      pure tt)
    pick progress (pure tt) (λ more. do append_event job ev_progress more; pure tt)
    pure step

  unfoldable pub complete_step :
      JobRecord → String → String → Option String → Option Fields → M JobStepRecord
  complete_step job step_key input_hash output_ref progress = do
    now ← read_clock env
    fence job now
    existing ← query (get_step job.id step_key input_hash)
    pick (committed existing) (commit_step job now step_key input_hash output_ref progress) pure

  unfoldable pub finish :
      JobRecord → JobState → Option String → Option Fields → Option Fields → M JobRecord
  finish job state output_ref error progress =
      if not (allowed job.state state)
      then raise invalid_transition
      else if is_partial state && not (has_gaps (gaps_of error))
      then raise validation_error
      else (do
        now ← read_clock env
        base ← fresh_progress job
        fenced job now (finish_row state now output_ref error base progress)
        pick (terminal_event state) (raise key_error)
            (λ type. do append_event job type (finish_body job.kind state error); reread job))

  -- The retry of `fail`.
  unfoldable pub park : JobRecord → ℕ → Fields → M JobRecord
  park job delay error = do
    now ← read_clock env
    fenced job now (retry_row now (now + delay) error)
    append_event job ev_failed
        (merge (field "retry" (bool true) (field "delay_seconds" (num delay) end)) error)
    reread job

  -- The branches of `fail` on the next state.
  unfoldable pub apply_decision : RetryDecision → JobRecord → Fields → JobState → M JobRecord
  apply_decision decision job error cancelled = finish job cancelled none (some error) none
  apply_decision decision job error failed =
      finish job failed none (some (audited decision.audit error)) none
  apply_decision decision job error _ =
      pick decision.delay (raise missing_job) (λ delay. park job delay error)

  -- `decision` is the classification of the error class.
  unfoldable pub fail_with : RetryDecision → JobRecord → String → Option Fields → M JobRecord
  fail_with decision job message details =
      pick decision.next_state (raise validation_error)
        (apply_decision decision job (error_of decision.error_code message details))

  unfoldable pub fail : JobRecord → String → String → Option ℕ → Option Fields → M JobRecord
  fail job error_class message retry_after details = do
    k ← (if draws_jitter (read_class error_class) job.attempt retry_after then draw env else pure 0)
    fail_with (classify_failure (read_class error_class) job.attempt retry_after k) job message
        details

  unfoldable pub request_cancel : ℕ → Option ℕ → M Bool
  request_cancel id at = do
    t ← now_or_clock env at
    n ← store (Store.request_cancel id t)
    pure (ltb 0 n)

  unfoldable pub cancel_requested : ℕ → M Bool
  cancel_requested id = do
    fresh ← query (get_job id)
    pick fresh (pure false) (λ r. pick r.cancel_requested_at (pure false) (λ _. pure true))

  unfoldable pub requeue_due : Option ℕ → M ℕ
  requeue_due now = do t ← now_or_clock env now; store (Store.requeue_due t)

  unfoldable pub lease_expired : ℕ → Fields
  lease_expired attempt = field "code" (text "lease_expired") (field "attempt" (num attempt) end)

  -- The body of the reaper's loop.
  unfoldable pub reap_one : ℕ → JobRecord → M ℕ
  reap_one now job =
      if leb job.max_attempts job.attempt
      then store (expire_update job.id now (reap_failed_row (lease_expired job.attempt)))
      else (do
        k ← draw env
        let delay = max (jittered_backoff job.attempt k) lease_expiry_backoff_base
        store (expire_update job.id now (reap_retry_row (now + delay) (lease_expired job.attempt))))

  unfoldable pub reap_all : ℕ → List JobRecord → ℕ → M ℕ
  reap_all now [] count = pure count
  reap_all now (job ∷ rest) count = do n ← reap_one now job; reap_all now rest (count + n)

  unfoldable pub reap_expired : Option ℕ → M ℕ
  reap_expired now = do
    t ← now_or_clock env now
    dead ← query (expired_running_jobs t)
    reap_all t dead 0
