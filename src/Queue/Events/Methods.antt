-- ===== src/Queue/Events/Methods.antt =====
-- Every method of the service only appends to the logs, and so does every sequence of them.
use semiconductor_intel.Prelude.{
  ℕ, ◌+◌, String, ◌≡◌, Option, List, [], ◌∷◌, ◌++◌, nat_eq, string_eq,
}
use semiconductor_intel.Prelude.Dict.{triple_eq}
use semiconductor_intel.Prelude.Json.{Fields}
use semiconductor_intel.Prelude.Exec.{Relates, Relates-bind, run}
use semiconductor_intel.Queue.Rows.{JobRecord, JobEventRecord, JobState, failed, cancelled}
use semiconductor_intel.Queue.Effects.{Env, Sys}
use semiconductor_intel.Queue.Store.{events_of}
use semiconductor_intel.Queue.Retry.{RetryDecision}
use semiconductor_intel.Queue.Rules.{IndustryScope}
use semiconductor_intel.Queue.Service.{
  fenced, fence, fresh_progress, reread, after_insert, insert_or_find, enqueue, claim, heartbeat,
  start_step, commit_step, complete_step, finish, park, apply_decision, fail_with, fail,
  request_cancel, requeue_due, reap_one, reap_all, reap_expired,
}
use semiconductor_intel.Queue.Lifecycle.Runs.{
  Step, Run, start, then_step, enqueues, claims_one, claims_none, heartbeats, starts_step,
  completes_step, finishes, fails, requests_cancel, requeues, reaps,
}
use semiconductor_intel.Queue.Events.{Appends, Appends-order, WellNumbered}
use semiconductor_intel.Queue.Events.Primitives.{
  append_rules, fenced_heartbeat-quiet, expire_update-quiet, cancel-quiet, requeue-quiet,
  claim_next-quiet, store-insert_job-Appends,
}

module _ (env : Env) where
  fenced-Appends :
      (job : JobRecord) (now : ℕ) (values : JobRecord → JobRecord)
      → Relates Appends (fenced env job now values)
  unfolding fenced
  fenced-Appends job now values = search append_rules depth 10

  fence-Appends : (job : JobRecord) (now : ℕ) → Relates Appends (fence env job now)
  unfolding fence
  fence-Appends job now = search (append_rules, fenced-Appends)

  fresh_progress-Appends : (job : JobRecord) → Relates Appends (fresh_progress env job)
  unfolding fresh_progress
  fresh_progress-Appends job = search append_rules depth 8

  reread-Appends : (job : JobRecord) → Relates Appends (reread env job)
  unfolding reread
  reread-Appends job = search append_rules depth 8

  after_insert-Appends :
      (r : JobRecord) (o : Option JobRecord) → Relates Appends (after_insert env r o)
  unfolding after_insert
  after_insert-Appends r o = search append_rules depth 12

  enqueue-Appends :
      (scope : IndustryScope) (kind : String) (payload : Fields) (key : String)
      (spec_attempts max_attempts : Option ℕ)
      → Relates Appends (enqueue env scope kind payload key spec_attempts max_attempts)
  unfolding enqueue insert_or_find
  enqueue-Appends scope kind payload key spec_attempts max_attempts =
      search (append_rules, store-insert_job-Appends, after_insert-Appends) depth 12

  claim-Appends :
      (session : String) (now : Option ℕ) (kinds : Option (List String))
      → Relates Appends (claim env session now kinds)
  unfolding claim
  claim-Appends session now kinds = search (append_rules, claim_next-quiet) depth 10

  heartbeat-Appends :
      (id : ℕ) (token : String) (now : Option ℕ) → Relates Appends (heartbeat env id token now)
  unfolding heartbeat
  heartbeat-Appends id token now = search (append_rules, fenced_heartbeat-quiet) depth 10

  start_step-Appends :
      (job : JobRecord) (step_key input_hash : String)
      → Relates Appends (start_step env job step_key input_hash)
  unfolding start_step
  start_step-Appends job step_key input_hash = search (append_rules, fence-Appends) depth 14

  commit_step-Appends :
      (job : JobRecord) (now : ℕ) (step_key input_hash : String) (output_ref : Option String)
      (progress : Option Fields)
      → Relates Appends (commit_step env job now step_key input_hash output_ref progress)
  unfolding commit_step
  commit_step-Appends job now step_key input_hash output_ref progress =
      search (append_rules, fresh_progress-Appends, fenced-Appends) depth 16

  complete_step-Appends :
      (job : JobRecord) (step_key input_hash : String) (output_ref : Option String)
      (progress : Option Fields)
      → Relates Appends (complete_step env job step_key input_hash output_ref progress)
  unfolding complete_step
  complete_step-Appends job step_key input_hash output_ref progress =
      search (append_rules, fence-Appends, commit_step-Appends) depth 12

  finish-Appends :
      (job : JobRecord) (state : JobState) (output_ref : Option String)
      (error progress : Option Fields)
      → Relates Appends (finish env job state output_ref error progress)
  unfolding finish
  finish-Appends job state output_ref error progress =
      search (append_rules, fresh_progress-Appends, fenced-Appends, reread-Appends) depth 16

  park-Appends :
      (job : JobRecord) (delay : ℕ) (error : Fields) → Relates Appends (park env job delay error)
  unfolding park
  park-Appends job delay error = search (append_rules, fenced-Appends, reread-Appends) depth 14

  apply_decision-Appends :
      (decision : RetryDecision) (job : JobRecord) (error : Fields) (state : JobState)
      → Relates Appends (apply_decision env decision job error state)
  unfolding apply_decision
  apply_decision-Appends decision job error cancelled = finish-Appends job cancelled _ _ _
  apply_decision-Appends decision job error failed = finish-Appends job failed _ _ _
  apply_decision-Appends decision job error state = search (append_rules, park-Appends)

  fail-Appends :
      (job : JobRecord) (error_class message : String) (retry_after : Option ℕ)
      (details : Option Fields)
      → Relates Appends (fail env job error_class message retry_after details)
  unfolding fail fail_with
  fail-Appends job error_class message retry_after details =
      search (append_rules, apply_decision-Appends) depth 12

  request_cancel-Appends : (id : ℕ) (at : Option ℕ) → Relates Appends (request_cancel env id at)
  unfolding request_cancel
  request_cancel-Appends id at = search (append_rules, cancel-quiet) depth 10

  requeue_due-Appends : (now : Option ℕ) → Relates Appends (requeue_due env now)
  unfolding requeue_due
  requeue_due-Appends now = search (append_rules, requeue-quiet) depth 10

  reap_one-Appends : (now : ℕ) (job : JobRecord) → Relates Appends (reap_one env now job)
  unfolding reap_one
  reap_one-Appends now job = search (append_rules, expire_update-quiet) depth 10

  reap_all-Appends :
      (now : ℕ) (l : List JobRecord) (count : ℕ) → Relates Appends (reap_all env now l count)
  unfolding reap_all
  reap_all-Appends now [] count = search append_rules
  reap_all-Appends now (job ∷ rest) count =
      Relates-bind Appends-order _ _ (reap_one-Appends now job)
        (λ n. reap_all-Appends now rest (count + n))

  reap_expired-Appends : (now : Option ℕ) → Relates Appends (reap_expired env now)
  unfolding reap_expired
  reap_expired-Appends now = search (append_rules, reap_all-Appends) depth 10

  Step-Appends :
      {claims : List JobRecord} {s : Sys} {held : List JobRecord} {t : Sys}
      → Step env claims s held t
      → Appends s t
  Step-Appends {s = s} (enqueues scope kind payload key spec max_attempts) =
      (enqueue-Appends scope kind payload key spec max_attempts).at s
  Step-Appends {s = s} (claims_one session now kinds c e) = (claim-Appends session now kinds).at s
  Step-Appends {s = s} (claims_none session now kinds e) = (claim-Appends session now kinds).at s
  Step-Appends {s = s} (heartbeats id token now) = (heartbeat-Appends id token now).at s
  Step-Appends {s = s} (starts_step job step_key input_hash mem) =
      (start_step-Appends job step_key input_hash).at s
  Step-Appends {s = s} (completes_step job step_key input_hash output_ref progress mem) =
      (complete_step-Appends job step_key input_hash output_ref progress).at s
  Step-Appends {s = s} (finishes job state output_ref error progress mem ends) =
      (finish-Appends job state output_ref error progress).at s
  Step-Appends {s = s} (fails job error_class message retry_after details mem) =
      (fail-Appends job error_class message retry_after details).at s
  Step-Appends {s = s} (requests_cancel id at) = (request_cancel-Appends id at).at s
  Step-Appends {s = s} (requeues now) = (requeue_due-Appends now).at s
  Step-Appends {s = s} (reaps now) = (reap_expired-Appends now).at s

  Run-Appends :
      {claims : List JobRecord} {s : Sys} {held : List JobRecord} {t : Sys}
      → Run env claims s held t
      → Appends s t
  Run-Appends {s = s} start = Appends-order.same s
  Run-Appends {s = s} (then_step run step) =
      Appends-order.chain s _ _ (Run-Appends run) (Step-Appends step)

  -- From well numbered logs, any sequence of the service's methods leaves the log of every job
  -- numbered 1, 2, 3, ... and what it held before at its front.
  pub Run-logs :
      {claims : List JobRecord} {s : Sys} {held : List JobRecord} {t : Sys}
      → WellNumbered s
      → Run env claims s held t
      → WellNumbered t
        × ((id : ℕ)
            → (more : List JobEventRecord) × (events_of id t.db ≡ events_of id s.db ++ more))
  Run-logs n run = ((Run-Appends run).numbered n, (Run-Appends run).grown n)
