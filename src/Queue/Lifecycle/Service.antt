-- ===== src/Queue/Lifecycle/Service.antt =====
-- The methods of `JobService` that a worker calls with the snapshot that it claimed.
use semiconductor_intel.Prelude.{
  refl, some, not, ℕ, ◌<◌, String, ◌≡◌, true, false, Option, List, arith, In, nat_eq, string_eq,
}
use semiconductor_intel.Prelude.Json.{Fields}
use semiconductor_intel.Queue.Rows.{
  failed, cancelled, JobRecord, is_retry_wait, JobStepRecord, JobEventRecord, EventType, JobState,
  running,
}
use semiconductor_intel.Queue.Effects.{Env, store}
use semiconductor_intel.Queue.Store.{upsert_step, insert_event}
use semiconductor_intel.Queue.Rules.{allowed}
use semiconductor_intel.Queue.Service.{
  apply_decision, fail, fail_with, append_event, fence, fresh_progress, reread, start_step,
  commit_step, complete_step, finish, park,
}
use semiconductor_intel.Queue.Lifecycle.{taken}
use semiconductor_intel.Queue.Retry.{
  RetryDecision, ErrorClass, transient, classify_failure, read_class, draws_jitter,
}
use semiconductor_intel.Queue.Lifecycle.Updates.{Advance-same_jobs}
use semiconductor_intel.Queue.Lifecycle.Methods.{
  Advances-pure, Advances-raise, Advances-bind, Advances-pick, Advances-if, draw-Advances, Advances,
  Advances-store, advance_rules,
}
use semiconductor_intel.Queue.Lifecycle.RowUpdates.{
  touch-ValuesOk, step_row-ValuesOk, retry_row-ValuesOk, finish_row-ValuesOk,
}

-- A decision with a delay is made below the limit on transient errors.
delay-lt-five :
    (c : ErrorClass) (attempt : ℕ) (retry_after : Option ℕ) (k d : ℕ)
    → (classify_failure c attempt retry_after k).delay ≡ some d
    → attempt < 5
unfolding classify_failure
delay-lt-five transient attempt retry_after k d h = ground arith
delay-lt-five _ attempt retry_after k d h = ground arith

module _ (env : Env) (claims : List JobRecord) where
  insert_event-Advances :
      (e : JobEventRecord) → Advances env claims running (store (insert_event e))
  unfolding insert_event
  insert_event-Advances e =
      Advances-store env claims running _
        (λ s. Advance-same_jobs env claims running s _ (omega arith) (ground arith))

  upsert_step-Advances : (st : JobStepRecord) → Advances env claims running (store (upsert_step st))
  unfolding upsert_step
  upsert_step-Advances st =
      Advances-store env claims running _
        (λ s. Advance-same_jobs env claims running s _ (omega arith) (ground arith))

  pub append_event-Advances :
      (job : JobRecord) (type : EventType) (body : Fields)
      → Advances env claims running (append_event env job type body)
  unfolding append_event
  append_event-Advances job type body = search (advance_rules, insert_event-Advances)

  fresh_progress-Advances : (job : JobRecord) → Advances env claims running (fresh_progress env job)
  unfolding fresh_progress
  fresh_progress-Advances job = search advance_rules

  reread-Advances : (job : JobRecord) → Advances env claims running (reread env job)
  unfolding reread
  reread-Advances job = search advance_rules

  module _ (job : JobRecord) (mem : In job claims) where
    fence-Advances : (now : ℕ) → Advances env claims running (fence env job now)
    unfolding fence
    fence-Advances now = search (advance_rules, touch-ValuesOk, mem)

    pub start_step-Advances :
        (step_key input_hash : String)
        → Advances env claims running (start_step env job step_key input_hash)
    unfolding start_step
    start_step-Advances step_key input_hash =
        search (advance_rules, fence-Advances, upsert_step-Advances, append_event-Advances) depth 12

    commit_step-Advances :
        (now : ℕ) (step_key input_hash : String) (output_ref : Option String)
        (progress : Option Fields)
        → Advances env claims running
            (commit_step env job now step_key input_hash output_ref progress)
    unfolding commit_step
    commit_step-Advances now step_key input_hash output_ref progress =
        search
          (
            advance_rules, fresh_progress-Advances, step_row-ValuesOk, mem, upsert_step-Advances,
            append_event-Advances,
          )
          depth 14

    pub complete_step-Advances :
        (step_key input_hash : String) (output_ref : Option String) (progress : Option Fields)
        → Advances env claims running
            (complete_step env job step_key input_hash output_ref progress)
    unfolding complete_step
    complete_step-Advances step_key input_hash output_ref progress =
        search (advance_rules, fence-Advances, commit_step-Advances) depth 10

    may_finish :
        (state : JobState)
        → job.state ≡ running
        → not (allowed job.state state) ≡ false
        → taken running state ≡ true
    unfolding allowed taken
    may_finish state is h = ground arith

    pub finish-Advances :
        (state : JobState) (output_ref : Option String) (error progress : Option Fields)
        → job.state ≡ running
        → is_retry_wait state ≡ false
        → Advances env claims running (finish env job state output_ref error progress)
    unfolding finish
    finish-Advances state output_ref error progress is ends =
        search
          (
            advance_rules, may_finish, fresh_progress-Advances, finish_row-ValuesOk, mem,
            append_event-Advances, reread-Advances,
          )
          depth 14

    park-Advances :
        (delay : ℕ) (error : Fields)
        → job.attempt < 5
        → Advances env claims running (park env job delay error)
    unfolding park
    park-Advances delay error low =
        search (advance_rules, retry_row-ValuesOk, mem, append_event-Advances, reread-Advances)
          depth 12

    apply_decision-Advances :
        (decision : RetryDecision) (error : Fields) (state : JobState)
        → job.state ≡ running
        → ((d : ℕ) → decision.delay ≡ some d → job.attempt < 5)
        → Advances env claims running (apply_decision env decision job error state)
    unfolding apply_decision
    apply_decision-Advances decision error cancelled is low =
        finish-Advances cancelled _ _ _ is refl
    apply_decision-Advances decision error failed is low = finish-Advances failed _ _ _ is refl
    apply_decision-Advances decision error state is low = search (advance_rules, park-Advances)

    pub fail-Advances :
        (error_class message : String) (retry_after : Option ℕ) (details : Option Fields)
        → job.state ≡ running
        → Advances env claims running (fail env job error_class message retry_after details)
    unfolding fail fail_with
    fail-Advances error_class message retry_after details is =
        Advances-bind env claims running _ _
          (Advances-if env claims running
            (draws_jitter (read_class error_class) job.attempt retry_after) _ _
            (λ _. draw-Advances env claims running) (λ _. Advances-pure env claims running 0))
          (λ k.
            let decision = classify_failure (read_class error_class) job.attempt retry_after k in
            Advances-pick env claims running decision.next_state _ _
              (Advances-raise env claims running _)
              (λ state _.
                apply_decision-Advances decision _ state is
                  (delay-lt-five (read_class error_class) job.attempt retry_after k)))
