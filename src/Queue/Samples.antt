-- ===== src/Queue/Samples.antt =====
-- The queue's theorems on concrete queues.
use semiconductor_intel.Queue.KindSpec.{
  KindSpec, kind_specs, names_of, build_idempotency_key, build_idempotency_key-parts,
}
use semiconductor_intel.Prelude.{
  ◌↔◌, In, ℕ, zero, suc, ◌+◌, ◌≤◌, ◌<◌, ◌*◌, String, ◌≡◌, ◌≢◌, refl, ap, true, false, Option, none,
  some, List, [], ◌∷◌, ◌++◌, arith, inl, nat_eq, string_eq, ◌⊎◌,
}
use semiconductor_intel.Prelude.Dict.{Dict, get, put, remove, Distinct, triple_eq}
use semiconductor_intel.Prelude.Json.{Fields, end, assign}
use semiconductor_intel.Prelude.Exec.{ok, pure, raise, gets, run, pick, ◌>>=◌}
use semiconductor_intel.Queue.Rows.{
  InMemoryJobsDatabase, JobState, JobRecord, JobEventRecord, queued, running, succeeded, retry_wait,
  seconds, terminal,
}
use semiconductor_intel.Queue.Effects.{
  Env, Sys, now_or_clock, new_token, new_uuid, read_clock, store, query,
}
use semiconductor_intel.Queue.Store.{
  unlocked, events_of, claim_select, claim_next, claimable, choose, candidates, first_of_sorted,
  before, after_select, claim_write, lease_row, insert_job, find_idempotent_job, next_event_seq,
  top_seq, insert_event, get_job, fenced_update, update_if, fence_ok,
}
use semiconductor_intel.Queue.Rules.{
  IndustryScope, finish_row, finish_body, allowed, terminal_event, carried,
}
use semiconductor_intel.Queue.Service.{
  enqueue, claim, finish, fail, request_cancel, start_step, complete_step, insert_or_find,
  after_insert, append_event, new_job, fenced, fresh_progress, reread,
}
use semiconductor_intel.Queue.Retry.{transient, parser_error, classify_failure, jittered_backoff}
use semiconductor_intel.Queue.Lifecycle.{Sound, NoRepeats, Development, settled}
use semiconductor_intel.Queue.Lease.{new_lease}
use semiconductor_intel.Queue.Events.{WellNumbered}
use semiconductor_intel.Queue.Events.Methods.{Run-logs}
use semiconductor_intel.Queue.Fencing.{Lost, Refused, stale-Refused}
use semiconductor_intel.Queue.Keys.{enqueue-again}
use semiconductor_intel.Queue.Retries.{requeued, requeue_due-claimed}
use semiconductor_intel.Queue.Backoff.{
  classify_failure-retries, jittered_backoff-bounds, raw_backoff,
}
use semiconductor_intel.Queue.Claims.{claim_next-outcome, claim_select-exclusive, Oldest}
use semiconductor_intel.Queue.Lifecycle.Runs.{
  Run, start, then_step, enqueues, claims_one, finishes, requests_cancel, Run-Sound, Run-settled,
}
use semiconductor_intel.Queue.Lifecycle.Table.{Permitted, Step-Permitted}

-- Tokens in unary.
abbrev pub marks : ℕ → String
marks zero = "t"
marks (suc n) = String.◌∷◌ "t" (marks n)

abbrev size : String → ℕ
size String.[] = 0
size (String.◌∷◌ c s) = suc (size s)

size-marks : (n : ℕ) → size (marks n) ≡ suc n
size-marks zero = refl
size-marks (suc n) = ap suc (size-marks n)

-- The clock stands at one million seconds; identifiers and tokens are numbered.
abbrev pub sample_env : Env
sample_env = record {
  clock = λ n. seconds 1_000_000 + n;
  random = λ n. n;
  uuid = λ n. 100 + n;
  token = marks;
}

sample_apart : NoRepeats sample_env
sample_apart = record {
  uuid = λ m n e. omega (arith, e);
  token = λ m n e. omega (arith, ap size e, size-marks m, size-marks n);
}

abbrev pub empty : Sys
empty = record {
  db = record { jobs = []; idempotency = []; steps = []; events = []; locks = [] };
  reads = 0;
  draws = 0;
  mints = 0;
}

-- Nothing was handed out yet.
empty-Sound : Sound sample_env [] empty
unfolding get
empty-Sound = record {
  distinct = tt;
  keys = λ id r e. cc;
  rows = λ id r e. cc;
  fresh = λ n above. refl;
  held = λ c mem. absurd mem;
}

abbrev sample_scope : IndustryScope
sample_scope = record { owner_id = 7; industry_id = none }

abbrev enqueued : Sys
enqueued = (enqueue sample_env sample_scope "digest" end "k" none none empty).1

-- The one job of the queue.
abbrev pub job_queued : JobRecord
job_queued = record {
  owner_id = 7;
  idempotency_key = "k";
  kind = "digest";
  id = 100;
  industry_id = none;
  state = queued;
  input = end;
  available_at = some (seconds 1_000_000);
  attempt = 0;
  max_attempts = 3;
  lease_token = none;
  lease_until = none;
  heartbeat_at = none;
  cancel_requested_at = none;
  progress = end;
  error = none;
  output_ref = none;
}

abbrev pub job_claimed : JobRecord
job_claimed = record job_queued {
  state = running;
  attempt = 1;
  lease_token = some "tt";
  lease_until = some (seconds 1_000_090 + 2);
  heartbeat_at = some (seconds 1_000_000 + 2);
}

abbrev leased : Sys
leased = (claim sample_env "s1" none none enqueued).1

-- What the methods unfold to.
program : Unit {0}
unfolding enqueue claim finish fail now_or_clock new_token new_uuid read_clock store query pure
    raise gets run pick claim_next claim_select choose candidates claimable first_of_sorted before
    after_select claim_write lease_row insert_job find_idempotent_job insert_or_find after_insert
    append_event next_event_seq top_seq events_of insert_event new_lease new_job get put remove
    fenced fresh_progress reread get_job fenced_update update_if fence_ok finish_row finish_body
    allowed terminal_event carried assign ◌>>=◌ settled terminal
program = tt

claim-leases : (claim sample_env "s1" none none enqueued).0 ≡ ok (some job_claimed)
unfolding program
claim-leases = refl

abbrev done : Sys
done = (finish sample_env job_claimed succeeded (some "out") none none leased).1

-- The job is enqueued, claimed and finished.
to_done : Run sample_env [] empty (job_claimed ∷ []) done
to_done =
    then_step
      (then_step (then_step start (enqueues sample_scope "digest" end "k" none none))
        (claims_one "s1" none none job_claimed claim-leases))
      (finishes job_claimed succeeded (some "out") none none (inl refl) refl)

abbrev job_done : JobRecord
job_done = record job_claimed {
  state = succeeded;
  lease_token = none;
  lease_until = none;
  heartbeat_at = some (seconds 1_000_000 + 3);
  output_ref = some "out";
}

done-row : get 100 done.jobs ≡ some job_done
unfolding program
done-row = refl

succeeded-settled : settled succeeded ≡ true
unfolding program
succeeded-settled = refl

enqueued-Distinct : Distinct enqueued.jobs
unfolding program
enqueued-Distinct = (refl, tt)

Run-Sound_example : Sound sample_env (job_claimed ∷ []) done × Development empty done
Run-Sound_example = Run-Sound sample_env sample_apart to_done empty-Sound

Run-settled_example :
    (r : JobRecord) × (get 100 (request_cancel sample_env 100 none done).1.jobs ≡ some r)
    × (r.state ≡ succeeded)
Run-settled_example =
    Run-settled sample_env sample_apart 100 job_done
      (Run-Sound sample_env sample_apart to_done empty-Sound).0
      (then_step start (requests_cancel 100 none)) done-row succeeded-settled

to_leased : Run sample_env [] empty (job_claimed ∷ []) leased
to_leased =
    then_step (then_step start (enqueues sample_scope "digest" end "k" none none))
      (claims_one "s1" none none job_claimed claim-leases)

leased-row : get 100 leased.jobs ≡ some job_claimed
unfolding program
leased-row = refl

-- The claimed job is finished.
Step-Permitted_example : (r : JobRecord) × (get 100 done.jobs ≡ some r) × Permitted job_claimed r
Step-Permitted_example =
    Step-Permitted sample_env sample_apart 100 job_claimed
      (Run-Sound sample_env sample_apart to_leased empty-Sound).0
      (finishes job_claimed succeeded (some "out") none none (inl refl) refl) leased-row

empty-WellNumbered : WellNumbered empty
unfolding program
empty-WellNumbered id = tt

Run-logs_example :
    WellNumbered done
    × ((id : ℕ)
        → (more : List JobEventRecord) × (events_of id done.db ≡ events_of id empty.db ++ more))
Run-logs_example = Run-logs sample_env empty-WellNumbered to_done

-- The lease has run out when the worker comes back.
abbrev late : Sys
late = record leased { reads = seconds 90 + 2 }

late-Lost : Lost job_claimed (sample_env.clock late.reads) late
unfolding program
late-Lost r token until found has same ends =
    ground (arith, ap (λ (o : Option JobRecord). o) found, ends)

stale-Refused_example :
    ((step_key input_hash : String)
      → Refused (start_step sample_env job_claimed step_key input_hash late) late)
    × ((step_key input_hash : String) (output_ref : Option String) (progress : Option Fields)
        → Refused
            (complete_step sample_env job_claimed step_key input_hash output_ref progress late)
            late)
    × ((state : JobState) (output_ref : Option String) (error progress : Option Fields)
        → Refused (finish sample_env job_claimed state output_ref error progress late) late)
    × ((error_class message : String) (retry_after : Option ℕ) (details : Option Fields)
        → Refused (fail sample_env job_claimed error_class message retry_after details late) late)
stale-Refused_example = stale-Refused sample_env job_claimed late late-Lost

enqueue-first :
    enqueue sample_env sample_scope "digest" end "k" none none empty
    ≡ (ok (job_queued, true), enqueued)
unfolding program
enqueue-first = refl

enqueue-again_example :
    enqueue sample_env
      (record { owner_id = 7; industry_id = some 1 })
      "digest"
      end
      "k"
      none
      (some 9)
      enqueued
    ≡ (
      ok (job_queued, false),
      record enqueued { reads = enqueued.reads + 1; mints = enqueued.mints + 1 },
    )
enqueue-again_example =
    enqueue-again sample_env sample_scope "digest" end "k" none none job_queued true empty enqueued
      enqueue-first (some 1) end none (some 9)

retried : (classify_failure transient 3 none 5).next_state ≡ some retry_wait
unfolding classify_failure
retried = refl

classify_failure-retries_example :
    (((transient ≡ transient) × (3 < 5)) ⊎ ((transient ≡ parser_error) × (3 < 2)))
    × (delay : ℕ) × ((classify_failure transient 3 none 5).delay ≡ some delay)
    × (Path (Option ℕ) none none → (seconds 30 ≤ delay) × (delay ≤ seconds 1800))
classify_failure-retries_example = classify_failure-retries transient 3 none 5 (omega arith) retried

jittered_backoff-bounds_example :
    (raw_backoff 2 ≤ jittered_backoff 2 9)
    × (jittered_backoff 2 9 ≤ 2 * raw_backoff 2)
    × (seconds 30 ≤ jittered_backoff 2 9)
    × (jittered_backoff 2 9 ≤ seconds 1800)
jittered_backoff-bounds_example = jittered_backoff-bounds 2 9 (omega arith)

claim_next-outcome_example :
    ((claim_next "s2" 2_000_000_000_000 "x" 5 none enqueued.db ≡ (none, enqueued.db))
      × ((j : ℕ) (q : JobRecord)
          → get j enqueued.jobs ≡ some q
          → claimable "s2" 2_000_000_000_000 none enqueued.db j q ≡ false))
    ⊎ ((id : ℕ) × (r : JobRecord) × Oldest "s2" 2_000_000_000_000 none enqueued.db enqueued-Distinct
          id r
        × (claim_next "s2" 2_000_000_000_000 "x" 5 none enqueued.db ≡ (
          some (lease_row 2_000_000_000_000 "x" 5 r),
          record enqueued.db {
            jobs = put id (lease_row 2_000_000_000_000 "x" 5 r) enqueued.jobs;
            locks = remove id (put id "s2" enqueued.locks);
          },
        )))
claim_next-outcome_example =
    claim_next-outcome "s2" 2_000_000_000_000 none enqueued.db enqueued-Distinct "x" 5

-- Two jobs, and a session that has chosen the first.
abbrev two_jobs : Sys
two_jobs = (enqueue sample_env sample_scope "digest" end "k2" none none enqueued).1

two_jobs-Distinct : Distinct two_jobs.jobs
unfolding program
two_jobs-Distinct = (refl, (refl, tt))

first-choice : (claim_select "s1" 2_000_000_000_000 none two_jobs.db).0 ≡ some 100
unfolding program
first-choice = refl

second-choice :
    (claim_select "s2" 2_000_000_000_001 none
      (claim_select "s1" 2_000_000_000_000 none two_jobs.db).1).0
    ≡ some 101
unfolding program
second-choice = refl

claim_select-exclusive_example : ◌≢◌ {A = ℕ} 101 100
claim_select-exclusive_example =
    claim_select-exclusive "s1" 2_000_000_000_000 none two_jobs.db two_jobs-Distinct "s2"
      2_000_000_000_001 none 100 101 refl first-choice second-choice

abbrev watch_parts : Dict String String
watch_parts = ("watch", "w") ∷ ("industry", "i") ∷ ("schedule_slot", "s") ∷ []

build_idempotency_key-parts_example :
    ((k : String) × (build_idempotency_key "watch_check" watch_parts ≡ some k)) ↔ (
      (spec : KindSpec) × (get "watch_check" kind_specs ≡ some spec)
      × ((n : String) → In n spec.key_parts ↔ In n (names_of watch_parts)))
build_idempotency_key-parts_example = build_idempotency_key-parts "watch_check" watch_parts

-- The job has failed once and waits for its retry.
abbrev parked : JobRecord
parked = record job_claimed {
  state = retry_wait;
  available_at = some 5;
  lease_token = none;
  lease_until = none;
}

abbrev waiting_db : InMemoryJobsDatabase
waiting_db = record empty.db { jobs = (100, parked) ∷ [] }

parked-row : get 100 waiting_db.jobs ≡ some parked
unfolding program
parked-row = refl

waiting-Distinct : Distinct waiting_db.jobs
unfolding program
waiting-Distinct = (refl, tt)

waiting-unlocked : unlocked "s1" (get 100 waiting_db.locks) ≡ true
unfolding program
waiting-unlocked = refl

requeue_due-claimed_example :
    (j : ℕ) × (q : JobRecord) × (get j (requeued "s1" "x" 9 20 none waiting_db).jobs ≡ some q)
    × (claimable "s1" 9 none (requeued "s1" "x" 9 20 none waiting_db) j q ≡ true)
    × (before (record parked { state = queued }) q ≡ false)
    × ((claim_next "s1" 9 "x" 20 none (requeued "s1" "x" 9 20 none waiting_db)).0
        ≡ some (lease_row 9 "x" 20 q))
requeue_due-claimed_example =
    requeue_due-claimed "s1" "x" 9 20 none waiting_db 100 5 parked waiting-Distinct parked-row refl
      refl (omega arith) waiting-unlocked refl
