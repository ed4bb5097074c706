-- ===== src/Workers/Slots.antt =====
-- A tick of the scheduler enqueues each job once for each slot, however often it is repeated.
use semiconductor_intel.Prelude.{
  ℕ, ◌+◌, ◌/◌, String, ◌≡◌, refl, sym, ◌∙◌, ap, Bool, false, Option, none, some, List, [], ◌∷◌,
  nat_eq, string_eq, subst, Bool-cases, ◌==◌, Eq, inl, inr, In, if◌then◌else◌,
}
use semiconductor_intel.Prelude.Dict.{Dict, triple_eq, get, put, get-put, get-put_self}
use semiconductor_intel.Prelude.Json.{Fields}
use semiconductor_intel.Prelude.Exec.{
  Result, Preorder, Relates, Relates-pure, Relates-raise, Relates-gets, Relates-run, Relates-if,
  Relates-bind, Relates-pick, ok, pure, run, pick, bind-inv, pick-inv, bind-ok,
}
use semiconductor_intel.Queue.Rows.{JobRecord, EventType, JobKey, InMemoryJobsDatabase}
use semiconductor_intel.Queue.Effects.{Env, Sys, M, QueueError, store, query, read_clock, new_uuid}
use semiconductor_intel.Queue.Store.{insert_job, find_idempotent_job, bind_option}
use semiconductor_intel.Queue.Rules.{IndustryScope}
use semiconductor_intel.Queue.KindSpec.{build_idempotency_key}
use semiconductor_intel.Queue.Service.{enqueue, after_insert, insert_or_find, append_event}
use semiconductor_intel.Queue.Keys.{enqueue-found, enqueue-kept, append_event-SameRows, SameRows}
use semiconductor_intel.Workers.Scheduler.{
  DueFeed, DailyReportTarget, DueWatch, SchedulerTickResult, nothing, Printers, Request,
  schedule_slot, feed_request, report_request, watch_request, enqueue_request, dispatch, run_once,
  feed_created, report_created, watch_created,
}
use semiconductor_intel.Queue.Lifecycle.Enqueue.{key_taken, insert_job-taken}

-- The owner's key of that kind names a job.
abbrev Named : ℕ → String → String → InMemoryJobsDatabase → Type 0
Named owner kind key db = (job : JobRecord) × (find_idempotent_job owner kind key db ≡ some job)

-- Every key that names a job goes on to name one.
abbrev Keeps : Sys → Sys → Type 0
Keeps s t = (owner : ℕ) (kind key : String) → Named owner kind key s.db → Named owner kind key t.db

Keeps-order : Preorder Keeps
Keeps-order = record {
  same = λ s owner kind key n. n;
  chain = λ s t u h k owner kind key n. k owner kind key (h owner kind key n);
}

SameRows-Keeps : (s t : Sys) → SameRows s t → Keeps s t
unfolding find_idempotent_job
SameRows-Keeps s t (jobs, index) owner kind key (job, found) = (job, rw (jobs, index) found)

-- A write leaves every key that had a value with a value.
put_kept :
    {K V : Type 0} ⦃e : Eq K⦄ (k j : K) (x v : V) (d : Dict K V)
    → get j d ≡ some v
    → (w : V) × (get j (put k x d) ≡ some w)
put_kept k j x v d found = elim (Bool-cases (k == j)) [
  | inl same ↦ (x, get-put k j x d ∙ rw same refl)
  | inr other ↦ (v, get-put k j x d ∙ rw other found)
]

bind_option-inv :
    {A B : Type 0} (o : Option A) (f : A → Option B) (b : B)
    → bind_option o f ≡ some b
    → (a : A) × (o ≡ some a) × (f a ≡ some b)
bind_option-inv none f b h = absurd cc
bind_option-inv (some a) f b h = (a, refl, h)

abbrev looked_up : JobKey → Dict JobKey ℕ → Dict ℕ JobRecord → Option JobRecord
looked_up key index jobs = bind_option (get key index) (λ id. get id jobs)

looked_up-put :
    (key new : JobKey) (r job : JobRecord) (index : Dict JobKey ℕ) (jobs : Dict ℕ JobRecord)
    → looked_up key index jobs ≡ some job
    → (kept : JobRecord) × (looked_up key (put new r.id index) (put r.id r jobs) ≡ some kept)
looked_up-put key new r job index jobs found =
    let (id, named, there) = bind_option-inv (get key index) (λ id. get id jobs) job found in
    let (id', named') = put_kept new key r.id id index named in
    elim (Bool-cases (new == key)) [
      | inl same ↦ (r, rw (get-put new key r.id index) (rw same (get-put_self r.id r jobs)))
      | inr other ↦
          let (kept, still) = put_kept r.id id r job jobs there in
          (kept, rw (get-put new key r.id index) (rw (other, named) still))
    ]

insert_job-Keeps : (r : JobRecord) → Relates Keeps (store (insert_job r))
unfolding store run insert_job find_idempotent_job
insert_job-Keeps r = record {
  at = λ s owner kind key (job, found).
      let new : JobKey = (r.owner_id, r.kind, r.idempotency_key) in
      elim (Bool-cases (key_taken r s)) [
        | inl taken ↦ (job, rw (insert_job-taken r s taken) found)
        | inr free ↦
            let (kept, still) =
              looked_up-put (owner, kind, key) new r job s.idempotency s.jobs found in
            (kept, unfold key_taken in rw (free) still)
      ];
}

module _ (env : Env) where
  append_event-Keeps :
      (job : JobRecord) (type : EventType) (body : Fields)
      → Relates Keeps (append_event env job type body)
  append_event-Keeps job type body = record {
    at = λ s.
        SameRows-Keeps s (append_event env job type body s).1
          (append_event-SameRows env job type body s);
  }

  read_clock-Keeps : Relates Keeps (read_clock env)
  unfolding read_clock
  read_clock-Keeps = Relates-run _ (λ s owner kind key named. named)

  new_uuid-Keeps : Relates Keeps (new_uuid env)
  unfolding new_uuid
  new_uuid-Keeps = Relates-run _ (λ s owner kind key named. named)

query-Keeps : {A : Type 0} (f : InMemoryJobsDatabase → A) → Relates Keeps (query f)
unfolding query
query-Keeps f = Relates-gets Keeps-order (λ s. f s.db)

ruleset keep_rules = (
  Relates-pure, Relates-raise, Relates-bind, Relates-pick, Relates-if, Keeps-order, query-Keeps,
  read_clock-Keeps, new_uuid-Keeps, insert_job-Keeps, append_event-Keeps,
)

module _ (env : Env) where
  after_insert-Keeps : (r : JobRecord) (o : Option JobRecord) → Relates Keeps (after_insert env r o)
  unfolding after_insert
  after_insert-Keeps r o = search keep_rules depth 12

  enqueue-Keeps :
      (scope : IndustryScope) (kind : String) (payload : Fields) (key : String)
      (spec_attempts max_attempts : Option ℕ)
      → Relates Keeps (enqueue env scope kind payload key spec_attempts max_attempts)
  unfolding enqueue insert_or_find
  enqueue-Keeps scope kind payload key spec_attempts max_attempts =
      search (keep_rules, after_insert-Keeps) depth 12

  enqueue_request-Keeps : (q : Request) → Relates Keeps (enqueue_request env q)
  unfolding enqueue_request
  enqueue_request-Keeps q = search (keep_rules, enqueue-Keeps) depth 12

-- The key of a request is built and names a job.
abbrev Filed : Request → InMemoryJobsDatabase → Type 0
Filed q db =
    (key : String) × (build_idempotency_key q.kind q.parts ≡ some key)
    × Named q.scope.owner_id q.kind key db

module _ (env : Env) where
  enqueue_request-Filed :
      (q : Request) (job : JobRecord) (created : Bool) (s t : Sys)
      → enqueue_request env q s ≡ (ok (job, created), t)
      → Filed q t.db
  unfolding enqueue_request
  enqueue_request-Filed q job created s t is =
      let (key, built, rest) =
        pick-inv (build_idempotency_key q.kind q.parts) _ _ s t (job, created) is in
      (key, built, (job, enqueue-kept env q.scope q.kind q.payload key _ none job created s t rest))

  Filed-quiet :
      (q : Request) (s : Sys)
      → Filed q s.db
      → (job : JobRecord) × (t : Sys) × (t.db ≡ s.db)
        × (enqueue_request env q s ≡ (ok (job, false), t))
  unfolding enqueue_request pick
  Filed-quiet q s (key, built, (job, found)) = (
    job,
    record s { reads = s.reads + 1; mints = s.mints + 1 },
    refl,
    rw built (enqueue-found env q.scope q.kind q.payload key _ none job s found),
  )

  module _ {A : Type 0} (request : A → Request)
      (count : JobRecord → SchedulerTickResult → SchedulerTickResult) where
    dispatch-Keeps :
        (items : List A) (r : SchedulerTickResult)
        → Relates Keeps (dispatch env request count items r)
    unfolding dispatch
    dispatch-Keeps [] r = Relates-pure Keeps-order r
    dispatch-Keeps (a ∷ rest) r =
        Relates-bind Keeps-order _ _ (enqueue_request-Keeps env (request a))
          (λ answer. dispatch-Keeps rest (if answer.1 then count answer.0 r else r))

    dispatch-Filed :
        (items : List A) (r r' : SchedulerTickResult) (s t : Sys)
        → dispatch env request count items r s ≡ (ok r', t)
        → (a : A) → In a items
        → Filed (request a) t.db
    unfolding dispatch
    dispatch-Filed [] r r' s t is a m = absurd m
    dispatch-Filed (a ∷ rest) r r' s t is b m =
        let (answer, mid, first, later) = bind-inv (enqueue_request env (request a)) _ s t r' is in
        let (key, built, named) = enqueue_request-Filed (request a) answer.0 answer.1 s mid first in
        elim m [
          | inr there ↦ dispatch-Filed rest _ r' mid t later b there
          | inl same ↦
              subst (λ x. Filed (request x) t.db) (sym same)
                (
                  key,
                  built,
                  subst (λ (x : Sys). Named (request a).scope.owner_id (request a).kind key x.db)
                      (ap (λ (x : Result QueueError SchedulerTickResult × Sys). x.1) later)
                      ((dispatch-Keeps rest _).at mid _ _ key named),
                )
        ]

    dispatch-quiet :
        (items : List A) (r : SchedulerTickResult) (s : Sys)
        → ((a : A) → In a items → Filed (request a) s.db)
        → (t : Sys) × (t.db ≡ s.db) × (dispatch env request count items r s ≡ (ok r, t))
    unfolding dispatch
    dispatch-quiet [] r s filed = (s, refl, unfold pure in refl)
    dispatch-quiet (a ∷ rest) r s filed =
        let (job, mid, same, first) = Filed-quiet (request a) s (filed a (inl refl)) in
        let (t, same', later) =
          dispatch-quiet rest r mid
            (λ b m. subst (Filed (request b)) (sym same) (filed b (inr m))) in
        (
          t,
          same' ∙ same,
          bind-ok (enqueue_request env (request a)) _ s mid (job, false) first ∙ later,
        )

Keeps-result :
    {A : Type 0} (m : M A) (a : A) (s t : Sys) → Relates Keeps m → m s ≡ (ok a, t) → Keeps s t
Keeps-result m a s t keeps is =
    subst (Keeps s) (ap (λ (x : Result QueueError _ × Sys). x.1) is) (keeps.at s)

Keeps-Filed : (q : Request) (s t : Sys) → Keeps s t → Filed q s.db → Filed q t.db
Keeps-Filed q s t keeps (key, built, named) = (key, built, keeps _ _ key named)

-- What is due in a later tick was due in the former, in the same slot.
pub record StillDue (watch_interval now later : ℕ) (feeds feeds' : List DueFeed)
    (targets targets' : List DailyReportTarget) (watches watches' : List DueWatch) : Type 0 where
  pub feed :
      (f : DueFeed) → In f feeds' → In f feeds × (schedule_slot f later ≡ schedule_slot f now)
  pub target : (d : DailyReportTarget) → In d targets' → In d targets
  pub watch : (w : DueWatch) → In w watches' → In w watches
  pub slot : later / watch_interval ≡ now / watch_interval

module _ (env : Env) (str : Printers) (watch_interval : ℕ) where
  feeds-Filed :
      (now later : ℕ) (f : DueFeed) (db : InMemoryJobsDatabase)
      → schedule_slot f later ≡ schedule_slot f now
      → Filed (feed_request str now f) db
      → Filed (feed_request str later f) db
  unfolding feed_request
  feeds-Filed now later f db same filed = rw same filed

  -- What a tick that returned leaves of its requests.
  run_once-Filed :
      (now : ℕ) (feeds : List DueFeed) (targets : List DailyReportTarget) (watches : List DueWatch)
      (r : SchedulerTickResult) (s t : Sys)
      → run_once env str watch_interval now feeds targets watches s ≡ (ok r, t)
      → ((f : DueFeed) → In f feeds → Filed (feed_request str now f) t.db)
        × ((d : DailyReportTarget) → In d targets → Filed (report_request str d) t.db)
        × ((w : DueWatch) → In w watches → Filed (watch_request str (now / watch_interval) w) t.db)
  unfolding run_once
  run_once-Filed now feeds targets watches r s t is =
      let (found, mid, first, rest) = bind-inv _ _ s t r is in
      let (reported, late, second, third) = bind-inv _ _ mid t r rest in
      let kept : Keeps late t =
        Keeps-result _ r late t (dispatch-Keeps env _ watch_created watches reported) third in
      let kept_first : Keeps mid late =
        Keeps-result _ reported mid late (dispatch-Keeps env _ report_created targets found)
          second in
      (
        (λ f m. Keeps-Filed (feed_request str now f) late t kept (
            Keeps-Filed (feed_request str now f) mid late kept_first (
              dispatch-Filed env (feed_request str now) feed_created feeds nothing found s mid first
                f m))),
        (λ d m. Keeps-Filed (report_request str d) late t kept (
            dispatch-Filed env (report_request str) report_created targets found reported mid late
              second d m)),
        dispatch-Filed env (watch_request str (now / watch_interval)) watch_created watches reported
            r late t third,
      )

  -- A tick whose requests all name jobs already.
  run_once-quiet :
      (now : ℕ) (feeds : List DueFeed) (targets : List DailyReportTarget) (watches : List DueWatch)
      (t : Sys)
      → ((f : DueFeed) → In f feeds → Filed (feed_request str now f) t.db)
      → ((d : DailyReportTarget) → In d targets → Filed (report_request str d) t.db)
      → ((w : DueWatch) → In w watches → Filed (watch_request str (now / watch_interval) w) t.db)
      → (u : Sys) × (u.db ≡ t.db)
        × (run_once env str watch_interval now feeds targets watches t ≡ (ok nothing, u))
  unfolding run_once
  run_once-quiet now feeds targets watches t for_feeds for_targets for_watches =
      let (s1, same1, quiet1) =
        dispatch-quiet env (feed_request str now) feed_created feeds nothing t for_feeds in
      let (s2, same2, quiet2) =
        dispatch-quiet env (report_request str) report_created targets nothing s1
          (λ d m. subst (Filed (report_request str d)) (sym same1) (for_targets d m)) in
      let (s3, same3, quiet3) =
        dispatch-quiet env (watch_request str (now / watch_interval)) watch_created watches nothing
          s2
          (λ w m.
            subst (Filed (watch_request str (now / watch_interval) w)) (sym (same2 ∙ same1))
              (for_watches w m)) in
      (
        s3,
        same3 ∙ same2 ∙ same1,
        bind-ok _ _ t s1 nothing quiet1 ∙ bind-ok _ _ s1 s2 nothing quiet2 ∙ quiet3,
      )

  -- Once a tick has returned, a later one of the same slots, in which nothing else is due than was
  -- due then, in whatever order and however often, also returns, counts nothing, and leaves the
  -- database as it was.
  pub run_once-again :
      (now later : ℕ) (feeds feeds' : List DueFeed) (targets targets' : List DailyReportTarget)
      (watches watches' : List DueWatch) (r : SchedulerTickResult) (s t : Sys)
      → run_once env str watch_interval now feeds targets watches s ≡ (ok r, t)
      → StillDue watch_interval now later feeds feeds' targets targets' watches watches'
      → (u : Sys) × (u.db ≡ t.db)
        × (run_once env str watch_interval later feeds' targets' watches' t ≡ (ok nothing, u))
  run_once-again now later feeds feeds' targets targets' watches watches' r s t is due =
      let (for_feeds, for_targets, for_watches) =
        run_once-Filed now feeds targets watches r s t is in
      run_once-quiet later feeds' targets' watches' t
        (λ f m. feeds-Filed now later f t.db (due.feed f m).1 (for_feeds f (due.feed f m).0))
        (λ d m. for_targets d (due.target d m))
        (λ w m.
          subst (λ slot. Filed (watch_request str slot w) t.db) (sym due.slot)
            (for_watches w (due.watch w m)))
