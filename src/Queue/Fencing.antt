-- ===== src/Queue/Fencing.antt =====
-- A worker whose lease has expired or passed to another cannot write.
use semiconductor_intel.Prelude.{
  ◌≤◌, string_eq, ℕ, ◌+◌, String, ◌≡◌, refl, ◌∙◌, ap, Bool, true, false, not, ◌&&◌, Option, none,
  some, arith, nat_eq, string_eq, Option-cases, if◌then◌else◌, inl, inr,
}
use semiconductor_intel.Prelude.Dict.{get}
use semiconductor_intel.Prelude.Json.{Fields}
use semiconductor_intel.Prelude.Exec.{
  Result, ok, err, pure, raise, pick, run, ◌>>=◌, bind-err, bind-ok,
}
use semiconductor_intel.Queue.Rows.{
  JobRecord, JobState, failed, cancelled, is_partial, InMemoryJobsDatabase,
}
use semiconductor_intel.Queue.Effects.{
  Env, Sys, M, QueueError, lease_lost, invalid_transition, validation_error, missing_job, store,
  query, read_clock, draw,
}
use semiconductor_intel.Queue.Store.{update_if, fenced_update, fence_ok, get_job}
use semiconductor_intel.Queue.Retry.{RetryDecision, classify_failure, read_class, draws_jitter}
use semiconductor_intel.Queue.Rules.{
  allowed, carried, touch, finish_row, error_of, audited, has_gaps, gaps_of,
}
use semiconductor_intel.Queue.Service.{
  fenced, fence, fresh_progress, start_step, complete_step, finish, park, apply_decision, fail_with,
  fail,
}

-- The worker's lease is lost: if the row is there and still has the snapshot's token, its lease has no
-- end or has run out.
abbrev pub Lost : JobRecord → ℕ → Sys → Type 0
Lost job now s =
    (r : JobRecord) (token : String) (until : ℕ)
    → get job.id s.jobs ≡ some r
    → job.lease_token ≡ some token
    → r.lease_token ≡ some token
    → r.lease_until ≡ some until
    → until ≤ now

Lost-fence_ok :
    (job r : JobRecord) (token : String) (now : ℕ) (s : Sys)
    → Lost job now s
    → get job.id s.jobs ≡ some r
    → job.lease_token ≡ some token
    → fence_ok token now r ≡ false
unfolding fence_ok
Lost-fence_ok job r token now s lost found carries = elim (Option-cases r.lease_token) [
  | inl bare ↦ rw bare refl
  | inr (t, has) ↦ elim (Option-cases r.lease_until) [
    | inl endless ↦ ground (arith, endless, has)
    | inr (until, ends) ↦
        ground (arith, has, ends, string_eq.beq_iff t token, lost r token until found carries)
  ]
]

-- An exception, and the database as it was.
abbrev pub Refused : {A : Type 0} → Result QueueError A × Sys → Sys → Type 0
Refused x s = (e : QueueError) × (x.0 ≡ err e) × (x.1.db ≡ s.db)

update_if-none :
    (guard : JobRecord → Bool) (id : ℕ) (values : JobRecord → JobRecord) (db : InMemoryJobsDatabase)
    → ((r : JobRecord) → get id db.jobs ≡ some r → guard r ≡ false)
    → update_if guard id values db ≡ (0, db)
unfolding update_if
update_if-none guard id values db h = elim (Option-cases (get id db.jobs)) [
  | inl missing ↦ rw (missing, update_if)
  | inr (r, found) ↦ rw (found, update_if) (rw (h r found))
]

pub carried-eq : (o : Option String) (token : String) → carried o ≡ some token → o ≡ some token
unfolding carried
carried-eq none token h = cc
carried-eq (some t) token h = ground arith

-- The clock answers and is one reading further.
abbrev pub ticked : Sys → Sys
ticked s = record s { reads = s.reads + 1 }

pub read_clock-result :
    (env : Env) (s : Sys)
    → read_clock env s ≡ (ok (env.clock s.reads), record s { reads = s.reads + 1 })
unfolding read_clock run
read_clock-result env s = refl

abbrev first_of : {A : Type 0} → Result QueueError A × Sys → Result QueueError A
first_of x = x.0

abbrev database_of : {A : Type 0} → Result QueueError A × Sys → InMemoryJobsDatabase
database_of x = x.1.db

module _ {A : Type 0} where
  raise-Refused : (e : QueueError) (s : Sys) → Refused {A = A} (raise e s) s
  unfolding raise
  raise-Refused e s = (e, refl, refl)

  stopped-Refused :
      (e : QueueError) (m : M A) (s t : Sys) → m s ≡ (err e, t) → t.db ≡ s.db → Refused (m s) s
  stopped-Refused e m s t is same = (e, ap first_of is, ap database_of is ∙ same)

  pick-Refused :
      {B : Type 0} (o : Option B) (m : M A) (f : B → M A) (s : Sys)
      → Refused (m s) s
      → ((b : B) → Refused (f b s) s)
      → Refused (pick o m f s) s
  unfolding pick
  pick-Refused none m f s km kf = km
  pick-Refused (some b) m f s km kf = kf b

  if-Refused :
      (b : Bool) (m n : M A) (s : Sys)
      → Refused (m s) s
      → Refused (n s) s
      → Refused ((if b then m else n) s) s
  if-Refused true m n s km kn = km
  if-Refused false m n s km kn = kn

  bind-Refused :
      {B : Type 0} (m : M B) (f : B → M A) (s t : Sys) (b : B)
      → m s ≡ (ok b, t)
      → t.db ≡ s.db
      → Refused (f b t) t
      → Refused ((m >>= f) s) s
  bind-Refused m f s t b is same (e, raised, kept) = (
    e,
    ap first_of (bind-ok m f s t b is) ∙ raised,
    ap database_of (bind-ok m f s t b is) ∙ kept ∙ same,
  )

module _ {A B : Type 0} where
  raised-Refused :
      (e : QueueError) (m : M B) (f : B → M A) (s t : Sys)
      → m s ≡ (err e, t)
      → t.db ≡ s.db
      → Refused ((m >>= f) s) s
  raised-Refused e m f s t is same =
      (e, ap first_of (bind-err m f s t e is), ap database_of (bind-err m f s t e is) ∙ same)

module _ (env : Env) (job : JobRecord) where
  pub fenced-Lost :
      (now : ℕ) (values : JobRecord → JobRecord) (s : Sys)
      → Lost job now s
      → fenced env job now values s ≡ (err lease_lost, s)
  unfolding fenced pick
  fenced-Lost now values s lost = elim (Option-cases (carried job.lease_token)) [
    | inl bare ↦ rw (bare, pick) (unfold raise in refl)
    | inr (token, carries) ↦
        rw (carries, pick)
          (unfold ◌>>=◌ store fenced_update in
            rw (
              update_if-none (fence_ok token now) job.id values s.db (λ r found.
                Lost-fence_ok job r token now s lost found
                  (carried-eq job.lease_token token carries))))
  ]

  fence-Lost : (now : ℕ) (s : Sys) → Lost job now s → fence env job now s ≡ (err lease_lost, s)
  unfolding fence pick
  fence-Lost now s lost = elim (Option-cases (carried job.lease_token)) [
    | inl bare ↦ rw (bare, pick) (unfold raise in refl)
    | inr (token, carries) ↦ rw (carries, pick) (fenced-Lost now (touch now) s lost)
  ]

  start_step-Lost :
      (step_key input_hash : String) (s : Sys)
      → Lost job (env.clock s.reads) s
      → start_step env job step_key input_hash s
        ≡ (err lease_lost, record s { reads = s.reads + 1 })
  unfolding start_step
  start_step-Lost step_key input_hash s lost =
      bind-ok (read_clock env) _ s (record s { reads = s.reads + 1 }) (env.clock s.reads)
        (read_clock-result env s)
      ∙ bind-err (fence env job (env.clock s.reads)) _ _ _ lease_lost
          (fence-Lost (env.clock s.reads) (record s { reads = s.reads + 1 }) lost)

  complete_step-Lost :
      (step_key input_hash : String) (output_ref : Option String) (progress : Option Fields)
      (s : Sys)
      → Lost job (env.clock s.reads) s
      → complete_step env job step_key input_hash output_ref progress s
        ≡ (err lease_lost, record s { reads = s.reads + 1 })
  unfolding complete_step
  complete_step-Lost step_key input_hash output_ref progress s lost =
      bind-ok (read_clock env) _ s (record s { reads = s.reads + 1 }) (env.clock s.reads)
        (read_clock-result env s)
      ∙ bind-err (fence env job (env.clock s.reads)) _ _ _ lease_lost
          (fence-Lost (env.clock s.reads) (record s { reads = s.reads + 1 }) lost)

  pub fresh_progress-result :
      (s : Sys) → (base : Fields) × (fresh_progress env job s ≡ (ok base, s))
  unfolding fresh_progress query pick ◌>>=◌
  fresh_progress-result s = elim (Option-cases (get_job job.id s.db)) [
    | inl missing ↦ (job.progress, rw (missing, pick))
    | inr (r, found) ↦ (r.progress, rw (found, pick))
  ]

  finish-Lost :
      (state : JobState) (output_ref : Option String) (error progress : Option Fields) (s : Sys)
      → Lost job (env.clock s.reads) s
      → Refused (finish env job state output_ref error progress s) s
  unfolding finish
  finish-Lost state output_ref error progress s lost =
      let (base, read) = fresh_progress-result (ticked s) in
      if-Refused (not (allowed job.state state)) _ _ s (raise-Refused invalid_transition s) (
        if-Refused (is_partial state && not (has_gaps (gaps_of error))) _ _ s
          (raise-Refused validation_error s)
          (bind-Refused (read_clock env) _ s (ticked s) (env.clock s.reads)
            (read_clock-result env s) refl
            (bind-Refused (fresh_progress env job) _ (ticked s) (ticked s) base read refl (
              raised-Refused lease_lost
                (fenced env job (env.clock s.reads)
                  (finish_row state (env.clock s.reads) output_ref error base progress))
                _ (ticked s) (ticked s) (fenced-Lost (env.clock s.reads) _ (ticked s) lost) refl))))

  park-Lost :
      (delay : ℕ) (error : Fields) (s : Sys)
      → Lost job (env.clock s.reads) s
      → park env job delay error s ≡ (err lease_lost, record s { reads = s.reads + 1 })
  unfolding park
  park-Lost delay error s lost =
      bind-ok (read_clock env) _ s (record s { reads = s.reads + 1 }) (env.clock s.reads)
        (read_clock-result env s)
      ∙ bind-err (fenced env job (env.clock s.reads) _) _ _ _ lease_lost
          (fenced-Lost (env.clock s.reads) _ (record s { reads = s.reads + 1 }) lost)

  retries-Lost :
      (delay : Option ℕ) (error : Fields) (s : Sys)
      → Lost job (env.clock s.reads) s
      → Refused (pick delay (raise missing_job) (λ delay. park env job delay error) s) s
  retries-Lost delay error s lost = pick-Refused delay _ _ s (raise-Refused missing_job s) (λ delay.
      stopped-Refused lease_lost (park env job delay error) s (ticked s)
        (park-Lost delay error s lost) refl)

  apply_decision-Lost :
      (decision : RetryDecision) (error : Fields) (next : JobState) (s : Sys)
      → Lost job (env.clock s.reads) s
      → Refused (apply_decision env decision job error next s) s
  unfolding apply_decision
  apply_decision-Lost decision error cancelled s lost =
      finish-Lost cancelled none (some error) none s lost
  apply_decision-Lost decision error failed s lost =
      finish-Lost failed none (some (audited decision.audit error)) none s lost
  apply_decision-Lost decision error _ s lost = retries-Lost decision.delay error s lost

  fail_with-Lost :
      (decision : RetryDecision) (message : String) (details : Option Fields) (s : Sys)
      → Lost job (env.clock s.reads) s
      → Refused (fail_with env decision job message details s) s
  unfolding fail_with
  fail_with-Lost decision message details s lost =
      pick-Refused decision.next_state _ _ s (raise-Refused validation_error s) (λ next.
        apply_decision-Lost decision (error_of decision.error_code message details) next s lost)

  jitter-result :
      (b : Bool) (s : Sys)
      → (k : ℕ) × (n : ℕ) × ((if b then draw env else pure 0) s ≡ (ok k, record s { draws = n }))
  unfolding draw pure run
  jitter-result true s = (env.random s.draws, s.draws + 1, refl)
  jitter-result false s = (0, s.draws, refl)

  pub fail-Lost :
      (error_class message : String) (retry_after : Option ℕ) (details : Option Fields) (s : Sys)
      → Lost job (env.clock s.reads) s
      → Refused (fail env job error_class message retry_after details s) s
  unfolding fail
  fail-Lost error_class message retry_after details s lost =
      let (k, n, drawn) =
        jitter-result (draws_jitter (read_class error_class) job.attempt retry_after) s in
      bind-Refused _ _ s (record s { draws = n }) k drawn refl
        (fail_with-Lost (classify_failure (read_class error_class) job.attempt retry_after k)
          message details (record s { draws = n }) lost)

  -- When the row of a snapshot is gone, has another token or none, or its lease has no end or has run
  -- out by the clock,
  -- each of start_step, complete_step, finish (whatever the target state) and fail (whatever the
  -- error class) raises, and leaves the database as it was.
  pub stale-Refused :
      (s : Sys)
      → Lost job (env.clock s.reads) s
      → ((step_key input_hash : String) → Refused (start_step env job step_key input_hash s) s)
        × ((step_key input_hash : String) (output_ref : Option String) (progress : Option Fields)
            → Refused (complete_step env job step_key input_hash output_ref progress s) s)
        × ((state : JobState) (output_ref : Option String) (error progress : Option Fields)
            → Refused (finish env job state output_ref error progress s) s)
        × ((error_class message : String) (retry_after : Option ℕ) (details : Option Fields)
            → Refused (fail env job error_class message retry_after details s) s)
  stale-Refused s lost = (
    (λ step_key input_hash.
        stopped-Refused lease_lost (start_step env job step_key input_hash) s (ticked s)
          (start_step-Lost step_key input_hash s lost) refl),
    (λ step_key input_hash output_ref progress.
        stopped-Refused lease_lost (complete_step env job step_key input_hash output_ref progress) s
          (ticked s) (complete_step-Lost step_key input_hash output_ref progress s lost) refl),
    (λ state output_ref error progress. finish-Lost state output_ref error progress s lost),
    (λ error_class message retry_after details.
        fail-Lost error_class message retry_after details s lost),
  )
