-- ===== src/Workers/Zombie.antt =====
-- A run whose row passed to another worker, or whose lease ran out, writes nothing when it ends.
use semiconductor_intel.Prelude.{
  ℕ, ◌≤◌, String, ◌≡◌, refl, sym, ◌∙◌, ap, true, false, not, Option, none, some, arith, nat_eq,
  string_eq, Bool-cases, Option-cases, inl, inr, ◌⊎◌, subst, if◌then◌else◌,
}
use semiconductor_intel.Prelude.Dict.{get}
use semiconductor_intel.Prelude.Json.{Fields}
use semiconductor_intel.Prelude.Exec.{
  Result, Preorder, Relates, Relates-pure, Relates-raise, Relates-gets, Relates-run, Relates-if,
  Relates-bind, Relates-pick, ok, err, pure, raise, gets, pick, ◌>>=◌, ◌>>◌, bind-ok, bind-err,
  rescue, rescue-ok, rescue-err,
}
use semiconductor_intel.Queue.Rows.{
  JobRecord, JobState, InMemoryJobsDatabase, terminal, failed, cancelled, is_partial, EventType,
}
use semiconductor_intel.Queue.Retry.{RetryDecision}
use semiconductor_intel.Queue.Effects.{
  Env, Sys, M, QueueError, lease_lost, invalid_transition, query, store, read_clock, draw,
}
use semiconductor_intel.Queue.Rules.{allowed}
use semiconductor_intel.Queue.Store.{get_job}
use semiconductor_intel.Queue.Service.{
  append_event, fenced, fresh_progress, reread, finish, park, apply_decision, fail_with, fail,
}
use semiconductor_intel.Queue.Fencing.{
  Lost, fenced-Lost, fresh_progress-result, fail-Lost, read_clock-result, ticked,
}
use semiconductor_intel.Workers.Runner.{
  Outcome, JobFailure, Ending, returned, job_cancelled, deadline_exceeded, cancelled_error,
  job_failure, lost_lease, unclassified, finished, interrupted, same_token, finalize, finalize_row,
  service_fail, settle, conclude, absorb, misclassified, found_or,
}

-- The clock is read more often, or as often.
abbrev Later : Sys → Sys → Type 0
Later s t = s.reads ≤ t.reads

Later-order : Preorder Later
Later-order = record { same = λ s. omega arith; chain = λ s t u h k. omega (arith, h, k) }

store-Later :
    {A : Type 0} (f : InMemoryJobsDatabase → A × InMemoryJobsDatabase) → Relates Later (store f)
unfolding store
store-Later f = Relates-run _ (λ s. omega arith)

query-Later : {A : Type 0} (f : InMemoryJobsDatabase → A) → Relates Later (query f)
unfolding query
query-Later f = Relates-gets Later-order (λ s. f s.db)

module _ (env : Env) where
  read_clock-Later : Relates Later (read_clock env)
  unfolding read_clock
  read_clock-Later = Relates-run _ (λ s. omega arith)

  draw-Later : Relates Later (draw env)
  unfolding draw
  draw-Later = Relates-run _ (λ s. omega arith)

ruleset later_rules = (
  Relates-pure, Relates-raise, Relates-bind, Relates-pick, Relates-if, Later-order, store-Later,
  query-Later, read_clock-Later, draw-Later,
)

module _ (env : Env) where
  append_event-Later :
      (job : JobRecord) (type : EventType) (body : Fields)
      → Relates Later (append_event env job type body)
  unfolding append_event
  append_event-Later job type body = search later_rules depth 12

  fenced-Later :
      (job : JobRecord) (now : ℕ) (values : JobRecord → JobRecord)
      → Relates Later (fenced env job now values)
  unfolding fenced
  fenced-Later job now values = search later_rules depth 12

  fresh_progress-Later : (job : JobRecord) → Relates Later (fresh_progress env job)
  unfolding fresh_progress
  fresh_progress-Later job = search later_rules depth 8

  reread-Later : (job : JobRecord) → Relates Later (reread env job)
  unfolding reread
  reread-Later job = search later_rules depth 8

  finish-Later :
      (job : JobRecord) (state : JobState) (output_ref : Option String)
      (error progress : Option Fields)
      → Relates Later (finish env job state output_ref error progress)
  unfolding finish
  finish-Later job state output_ref error progress =
      search (later_rules, append_event-Later, fenced-Later, fresh_progress-Later, reread-Later)
        depth 14

  park-Later :
      (job : JobRecord) (delay : ℕ) (error : Fields) → Relates Later (park env job delay error)
  unfolding park
  park-Later job delay error =
      search (later_rules, append_event-Later, fenced-Later, reread-Later) depth 12

  apply_decision-Later :
      (decision : RetryDecision) (job : JobRecord) (error : Fields) (next : JobState)
      → Relates Later (apply_decision env decision job error next)
  unfolding apply_decision
  apply_decision-Later decision job error cancelled = finish-Later job _ _ _ _
  apply_decision-Later decision job error failed = finish-Later job _ _ _ _
  apply_decision-Later decision job error _ = search (later_rules, park-Later) depth 8

  fail-Later :
      (job : JobRecord) (error_class message : String) (retry_after : Option ℕ)
      (details : Option Fields)
      → Relates Later (fail env job error_class message retry_after details)
  unfolding fail fail_with
  fail-Later job error_class message retry_after details =
      search (later_rules, apply_decision-Later) depth 12

-- An action returns and leaves the database as it was.
abbrev Quiet : {A : Type 0} → M A → Sys → Type 0
Quiet {A = A} m s = (a : A) × (t : Sys) × (m s ≡ (ok a, t)) × (t.db ≡ s.db)

Quiet-pure : {A : Type 0} (a : A) (s : Sys) → Quiet (pure a) s
unfolding pure
Quiet-pure a s = (a, s, refl, refl)

Quiet-then : {A B : Type 0} (m : M A) (b : B) (s : Sys) → Quiet m s → Quiet (m >> pure b) s
unfolding pure
Quiet-then m b s (a, t, is, same) = (b, t, bind-ok m _ s t a is, same)

-- Stopped by an exception that `_finalize` swallows.
abbrev Swallowed : {A : Type 0} → M A → Sys → Type 0
Swallowed m s =
    (t : Sys) × (t.db ≡ s.db) × ((m s ≡ (err lease_lost, t)) ⊎ (m s ≡ (err invalid_transition, t)))

Swallowed-then :
    {A B : Type 0} (m : M A) (f : A → M B) (s : Sys) → Swallowed m s → Swallowed (m >>= f) s
Swallowed-then m f s (t, same, is) = (
  t,
  same,
  elim is [
    | inl lost ↦ inl (bind-err m f s t lease_lost lost)
    | inr illegal ↦ inr (bind-err m f s t invalid_transition illegal)
  ],
)

abbrev Harmless : {A : Type 0} → M A → Sys → Type 0
Harmless m s = Quiet m s ⊎ Swallowed m s

query-Harmless :
    {A B : Type 0} (q : InMemoryJobsDatabase → Option A) (m : M B) (f : A → M B) (o : Option A)
    (s : Sys)
    → q s.db ≡ o
    → Harmless (pick o m f) s
    → Harmless (query q >>= λ a. pick a m f) s
unfolding query gets ◌>>=◌
query-Harmless q m f o s e h = subst (λ o. Harmless (pick o m f) s) (sym e) h

module _ (env : Env) where
  finish-Swallowed :
      (job : JobRecord) (state : JobState) (error : Option Fields) (s : Sys)
      → is_partial state ≡ false
      → Lost job (env.clock s.reads) s
      → Swallowed (finish env job state none error none) s
  unfolding finish
  finish-Swallowed job state error s whole lost = elim (Bool-cases (allowed job.state state)) [
    | inr illegal ↦ (s, refl, inr (rw illegal (unfold raise in refl)))
    | inl legal ↦ (
      ticked s,
      refl,
      inl (
          rw legal (
            rw whole (
              let (base, read) = fresh_progress-result env job (ticked s) in
              bind-ok (read_clock env) _ s (ticked s) (env.clock s.reads) (read_clock-result env s)
              ∙ bind-ok (fresh_progress env job) _ (ticked s) (ticked s) base read
              ∙ bind-err (fenced env job (env.clock s.reads) _) _ (ticked s) (ticked s) lease_lost
                  (fenced-Lost env job (env.clock s.reads) _ (ticked s) lost)))),
    )
  ]

  -- The row of a snapshot is gone, or has another token, or its lease has run out for good.
  pub record Superseded (job : JobRecord) (s : Sys) : Type 0 where
    pub named : (r : JobRecord) → get job.id s.jobs ≡ some r → r.id ≡ job.id
    pub expired :
        (r : JobRecord) (until n : ℕ)
        → get job.id s.jobs ≡ some r
        → r.lease_token ≡ job.lease_token
        → r.lease_until ≡ some until
        → s.reads ≤ n
        → until ≤ env.clock n

  Superseded-Lost : (job : JobRecord) (s : Sys) → Superseded job s → Lost job (env.clock s.reads) s
  Superseded-Lost job s dead r token until found carries has ends =
      dead.expired r until s.reads found (has ∙ sym carries) ends (omega arith)

  same_token-eq : (o p : Option String) → same_token o p ≡ true → o ≡ p
  unfolding same_token
  same_token-eq none none h = refl
  same_token-eq none (some u) h = cc
  same_token-eq (some t) none h = cc
  same_token-eq (some t) (some u) h = ap some ((string_eq.beq_iff t u).0 h)

  finalize_row-Superseded :
      (job r : JobRecord) (state : JobState) (error : Option Fields) (s : Sys)
      → is_partial state ≡ false
      → Superseded job s
      → get job.id s.jobs ≡ some r
      → Harmless (finalize_row env job state error r) s
  unfolding finalize_row
  finalize_row-Superseded job r state error s whole dead found =
      elim (Bool-cases (terminal r.state)) [
        | inl over ↦ inl (rw over (Quiet-pure tt s))
        | inr open_ ↦ elim (Bool-cases (same_token r.lease_token job.lease_token)) [
          | inr other ↦ inl (rw (open_) (rw other (Quiet-pure tt s)))
          | inl same ↦ inr (
              let lost : Lost r (env.clock s.reads) s = λ q token until there carries has ends.
                dead.expired q until s.reads
                  (subst (λ id. get id s.jobs ≡ some q) (dead.named r found) there)
                  (has ∙ sym carries ∙ same_token-eq _ _ same) ends (omega arith) in
              rw (open_)
                (rw same (Swallowed-then _ _ s (finish-Swallowed r state error s whole lost))))
        ]
      ]

  absorbed : (m : M (Unit {0})) (s : Sys) → Harmless m s → Quiet (rescue m (absorb env)) s
  unfolding pure
  absorbed m s (inl (a, t, is, same)) = (a, t, rescue-ok m _ s t a is, same)
  absorbed m s (inr (t, same, inl is)) = (tt, t, rescue-err m _ s t lease_lost is, same)
  absorbed m s (inr (t, same, inr is)) = (tt, t, rescue-err m _ s t invalid_transition is, same)

  finalize-Superseded :
      (job : JobRecord) (state : JobState) (error : Option Fields) (s : Sys)
      → is_partial state ≡ false
      → Superseded job s
      → Quiet (finalize env job state error) s
  unfolding finalize get_job pick
  finalize-Superseded job state error s whole dead =
      absorbed _ s (elim (Option-cases (get job.id s.jobs)) [
        | inl missing ↦
            query-Harmless (get_job job.id) (pure tt) (finalize_row env job state error) none s
              missing (inl (Quiet-pure tt s))
        | inr (r, found) ↦
            query-Harmless (get_job job.id) (pure tt) (finalize_row env job state error) (some r) s
              found (finalize_row-Superseded job r state error s whole dead found)
      ])

  Superseded-later :
      (job : JobRecord) (s t : Sys)
      → s.reads ≤ t.reads
      → t.db ≡ s.db
      → Superseded job s
      → Superseded job t
  Superseded-later job s t later same dead =
      let rows : t.jobs ≡ s.jobs = ap (λ (d : InMemoryJobsDatabase). d.jobs) same in
      record {
        named = λ r found. dead.named r (sym (ap (get job.id) rows) ∙ found);
        expired = λ r until n found has ends later_still.
            dead.expired r until n (sym (ap (get job.id) rows) ∙ found) has ends
              (omega (arith, later, later_still));
      }

  misclassified-Superseded :
      (repr : QueueError → String) (job : JobRecord) (e : QueueError) (s : Sys)
      → Superseded job s
      → Quiet (misclassified env repr job e) s
  misclassified-Superseded repr job lease_lost s dead = Quiet-pure tt s
  misclassified-Superseded repr job e s dead = finalize-Superseded job failed _ s refl dead

  service_fail-Superseded :
      (repr : QueueError → String) (job : JobRecord) (failure : JobFailure) (s : Sys)
      → Superseded job s
      → Quiet (service_fail env repr job failure) s
  unfolding service_fail
  service_fail-Superseded repr job failure s dead =
      let failing : M JobRecord =
        fail env job failure.error_class failure.message failure.retry_after failure.details in
      let (e, raised, same) =
        fail-Lost env job failure.error_class failure.message failure.retry_after failure.details s
          (Superseded-Lost job s dead) in
      let t : Sys = (failing s).1 in
      let is : failing s ≡ (err e, t) = ap (λ (r : Result QueueError JobRecord). (r, t)) raised in
      let later : Later s t =
        (fail-Later env job failure.error_class failure.message failure.retry_after
            failure.details).at
          s in
      let (a, u, done, same') =
        misclassified-Superseded repr job e t (Superseded-later job s t later same dead) in
      (
        a,
        u,
        rescue-err (failing >> pure tt) (misclassified env repr job) s t e
              (bind-err failing _ s t e is)
            ∙ done,
        same' ∙ same,
      )

  settle-Superseded :
      (repr : QueueError → String) (job : JobRecord) (budget : ℕ) (outcome : Outcome) (s : Sys)
      → Superseded job s
      → Quiet (settle env repr job budget outcome) s
  unfolding settle
  settle-Superseded repr job budget returned s dead = Quiet-pure false s
  settle-Superseded repr job budget job_cancelled s dead =
      Quiet-then _ false s (finalize-Superseded job cancelled _ s refl dead)
  settle-Superseded repr job budget deadline_exceeded s dead =
      Quiet-then _ false s (finalize-Superseded job failed _ s refl dead)
  settle-Superseded repr job budget (cancelled_error lost) s dead = Quiet-pure (not lost) s
  settle-Superseded repr job budget (job_failure failure) s dead =
      Quiet-then _ false s (service_fail-Superseded repr job failure s dead)
  settle-Superseded repr job budget lost_lease s dead = Quiet-pure false s
  settle-Superseded repr job budget (unclassified message) s dead =
      Quiet-then _ false s (finalize-Superseded job failed _ s refl dead)

  -- When a handler ends, in whatever way, and by then its row is gone, or has another token than the
  -- run's, or its lease has run out for every later reading of the clock, the run ends without an
  -- exception of the service and leaves the database as it was.
  pub conclude-Superseded :
      (repr : QueueError → String) (job : JobRecord) (budget : ℕ) (outcome : Outcome) (s : Sys)
      → Superseded job s
      → (ending : Ending) × (t : Sys) × (conclude env repr job budget outcome s ≡ (ok ending, t))
        × (t.db ≡ s.db)
  unfolding conclude query gets pure
  conclude-Superseded repr job budget outcome s dead =
      let (again, t, is, same) = settle-Superseded repr job budget outcome s dead in
      (
        (if again then interrupted else finished (found_or job (get_job job.id t.db))),
        t,
        bind-ok (settle env repr job budget outcome) _ s t again is ∙ unfold ◌>>=◌ in refl,
        same,
      )
