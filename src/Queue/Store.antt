-- ===== src/Queue/Store.antt =====
-- `InMemoryJobsStore` of src/intel/repositories/jobs.py, one function for each method: the new
-- database beside the result. The SQL adapter states the same predicates in its WHERE clauses.
use semiconductor_intel.Prelude.{
  ℕ, ◌+◌, String, Bool, true, false, not, ◌&&◌, ◌||◌, Option, none, some, List, [], ◌∷◌, ◌++◌, max,
  ltb, ◌==◌, nat_eq, string_eq, if◌then◌else◌, any_of,
}
use semiconductor_intel.Prelude.Dict.{Dict, get, put, remove, map_values, triple_eq}
use semiconductor_intel.Queue.Rows.{
  JobRecord, JobStepRecord, JobEventRecord, InMemoryJobsDatabase, running, queued, is_queued,
  is_running, is_retry_wait, cancellable, reached, ahead, JobKey,
}

abbrev Db : Type 0
Db = InMemoryJobsDatabase

abbrev pub has : {A : Type 0} → Option A → Bool
has none = false
has (some a) = true

-- The new row is stored unless its idempotency key is taken.
unfoldable pub insert_job : JobRecord → Db → Option JobRecord × Db
insert_job r db =
    let key : JobKey = (r.owner_id, r.kind, r.idempotency_key) in
    if has (get key db.idempotency) then (none, db) else (
      some r,
      record db {
        jobs = put r.id r db.jobs;
        idempotency = put key r.id db.idempotency;
        events = if has (get r.id db.events) then db.events else put r.id [] db.events;
      },
    )

abbrev pub bind_option : {A B : Type 0} → Option A → (A → Option B) → Option B
bind_option none f = none
bind_option (some a) f = f a

unfoldable pub find_idempotent_job : ℕ → String → String → Db → Option JobRecord
find_idempotent_job owner kind key db =
    bind_option (get (owner, kind, key) db.idempotency) (λ id. get id db.jobs)

unfoldable pub get_job : ℕ → Db → Option JobRecord
get_job id db = get id db.jobs

unfoldable pub get_step : ℕ → String → String → Db → Option JobStepRecord
get_step id step hash db = get (id, step, hash) db.steps

-- `kinds` limits a worker to its handlers; none or an empty list allows every kind.
abbrev pub allows : Option (List String) → String → Bool
allows none kind = true
allows (some []) kind = true
allows (some (k ∷ ks)) kind = any_of (λ j. j == kind) (k ∷ ks)

-- The row is not locked by another session.
abbrev pub unlocked : String → Option String → Bool
unlocked session none = true
unlocked session (some other) = other == session

unfoldable pub claimable : String → ℕ → Option (List String) → Db → ℕ → JobRecord → Bool
claimable session now kinds db id r =
    is_queued r.state
    && reached r.available_at now
    && unlocked session (get id db.locks)
    && allows kinds r.kind

unfoldable pub candidates : (ℕ → JobRecord → Bool) → Dict ℕ JobRecord → Dict ℕ JobRecord
candidates ok [] = []
candidates ok ((id, r) ∷ rest) =
    let more = candidates ok rest in if ok id r then (id, r) ∷ more else more

abbrev pub due : Option ℕ → ℕ
due none = 0
due (some t) = t

-- The order of the sort key `(available_at, id)`.
unfoldable pub before : JobRecord → JobRecord → Bool
before r q =
    ltb (due r.available_at) (due q.available_at)
    || (due r.available_at == due q.available_at && ltb r.id q.id)

-- The first element of the sorted candidates.
unfoldable pub first_of_sorted : ℕ × JobRecord → Dict ℕ JobRecord → ℕ × JobRecord
first_of_sorted best [] = best
first_of_sorted best (c ∷ rest) = first_of_sorted (if before c.1 best.1 then c else best) rest

abbrev pub first : Dict ℕ JobRecord → Option (ℕ × JobRecord)
first [] = none
first (c ∷ rest) = some (first_of_sorted c rest)

unfoldable pub choose : String → ℕ → Option (List String) → Db → Option (ℕ × JobRecord)
choose session now kinds db = first (candidates (claimable session now kinds db) db.jobs)

-- `claim_next` up to its `await`: the oldest candidate is chosen and locked.
unfoldable pub claim_select : String → ℕ → Option (List String) → Db → Option ℕ × Db
claim_select session now kinds db = elim (choose session now kinds db) [
  | none ↦ (none, db)
  | some (id, r) ↦ (some id, record db { locks = put id session db.locks })
]

unfoldable pub lease_row : ℕ → String → ℕ → JobRecord → JobRecord
lease_row now token until r = record r {
  state = running;
  attempt = r.attempt + 1;
  lease_token = some token;
  lease_until = some until;
  heartbeat_at = some now;
}

-- The rest of `claim_next`: the lease is written and the lock released. Rows are never deleted.
unfoldable pub claim_write : ℕ → ℕ → String → ℕ → Db → Option JobRecord × Db
unfolding lease_row
claim_write id now token until db = elim (get id db.jobs) [
  | none ↦ (none, db)
  | some r ↦ (
    some (lease_row now token until r),
    record db { jobs = put id (lease_row now token until r) db.jobs; locks = remove id db.locks },
  )
]

unfoldable pub after_select :
    ℕ → String → ℕ → Option ℕ × InMemoryJobsDatabase → Option JobRecord × InMemoryJobsDatabase
after_select now token until (none, db) = (none, db)
after_select now token until (some id, db) = claim_write id now token until db

unfoldable pub claim_next :
    String → ℕ → String → ℕ → Option (List String) → Db → Option JobRecord × Db
unfolding after_select
claim_next session now token until kinds db =
    after_select now token until (claim_select session now kinds db)

unfoldable pub expired : ℕ → JobRecord → Bool
expired now r = is_running r.state && reached r.lease_until now

unfoldable pub select_rows : (JobRecord → Bool) → Dict ℕ JobRecord → List JobRecord
select_rows p [] = []
select_rows p ((id, r) ∷ rest) = let more = select_rows p rest in if p r then r ∷ more else more

unfoldable pub expired_running_jobs : ℕ → Db → List JobRecord
expired_running_jobs now db = select_rows (expired now) db.jobs

-- `row.update(values)` behind a guard on the row: the number of rows changed.
unfoldable pub update_if : (JobRecord → Bool) → ℕ → (JobRecord → JobRecord) → Db → ℕ × Db
update_if guard id values db = elim (get id db.jobs) [
  | none ↦ (0, db)
  | some r ↦ if guard r then (1, record db { jobs = put id (values r) db.jobs }) else (0, db)
]

unfoldable pub expire_update : ℕ → ℕ → (JobRecord → JobRecord) → Db → ℕ × Db
unfolding update_if expired
expire_update id now values db = update_if (expired now) id values db

unfoldable pub requeueable : ℕ → JobRecord → Bool
requeueable now r = is_retry_wait r.state && reached r.available_at now

unfoldable pub requeue_row : ℕ → JobRecord → JobRecord
unfolding requeueable
requeue_row now r = if requeueable now r then record r { state = queued } else r

unfoldable pub count_rows : (JobRecord → Bool) → Dict ℕ JobRecord → ℕ
count_rows p [] = 0
count_rows p ((id, r) ∷ rest) = (if p r then 1 else 0) + count_rows p rest

unfoldable pub requeue_due : ℕ → Db → ℕ × Db
requeue_due now db = (
  count_rows (requeueable now) db.jobs,
  record db { jobs = map_values (requeue_row now) db.jobs },
)

abbrev pub holds : Option String → String → Bool
holds none token = false
holds (some t) token = t == token

-- The fencing predicate, on a row that is there.
unfoldable pub fence_ok : String → ℕ → JobRecord → Bool
fence_ok token now r = holds r.lease_token token && ahead r.lease_until now

unfoldable pub fenced_update : ℕ → String → ℕ → (JobRecord → JobRecord) → Db → ℕ × Db
unfolding update_if fence_ok
fenced_update id token now values db = update_if (fence_ok token now) id values db

unfoldable pub beat : ℕ → ℕ → JobRecord → JobRecord
beat until now r = record r { lease_until = some until; heartbeat_at = some now }

unfoldable pub fenced_heartbeat : ℕ → String → ℕ → ℕ → Db → ℕ × Db
unfolding fenced_update beat
fenced_heartbeat id token until now db = fenced_update id token now (beat until now) db

abbrev or_else : {A : Type 0} → Option A → Option A → Option A
or_else none o = o
or_else (some a) o = some a

unfoldable pub step_key_of : JobStepRecord → ℕ × String × String
step_key_of step = (step.job_id, step.step_key, step.input_hash)

unfoldable pub converge : JobStepRecord → JobStepRecord → JobStepRecord
converge step row = record row {
  state = step.state;
  output_ref = step.output_ref;
  completed_at = step.completed_at;
  started_at = or_else step.started_at row.started_at;
}

unfoldable pub upsert_step : JobStepRecord → Db → JobStepRecord × Db
unfolding step_key_of converge
upsert_step step db = elim (get (step_key_of step) db.steps) [
  | none ↦ (step, record db { steps = put (step_key_of step) step db.steps })
  | some row ↦
      (converge step row, record db { steps = put (step_key_of step) (converge step row) db.steps })
]

abbrev pub or_empty : {A : Type 0} → Option (List A) → List A
or_empty none = []
or_empty (some l) = l

unfoldable pub events_of : ℕ → Db → List JobEventRecord
events_of id db = or_empty (get id db.events)

unfoldable pub top_seq : List JobEventRecord → ℕ
top_seq [] = 0
top_seq (e ∷ es) = max e.seq (top_seq es)

unfoldable pub next_event_seq : ℕ → Db → ℕ
unfolding events_of top_seq
next_event_seq id db = top_seq (events_of id db) + 1

-- The result is false where the ValueError for a duplicate seq is raised.
unfoldable pub insert_event : JobEventRecord → Db → Bool × Db
unfolding events_of
insert_event e db =
    if any_of (λ (o : JobEventRecord). o.seq == e.seq) (events_of e.job_id db)
    then (false, db)
    else (true, record db { events = put e.job_id (events_of e.job_id db ++ e ∷ []) db.events })

unfoldable pub may_cancel : JobRecord → Bool
unfolding cancellable
may_cancel r = cancellable r.state && not (has r.cancel_requested_at)

unfoldable pub request_cancel : ℕ → ℕ → Db → ℕ × Db
unfolding update_if may_cancel
request_cancel id at db =
    update_if may_cancel id (λ r. record r { cancel_requested_at = some at }) db
