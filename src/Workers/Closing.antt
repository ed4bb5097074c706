-- ===== src/Workers/Closing.antt =====
-- A run that still holds its lease closes its row in the way that its handler ended.
use semiconductor_intel.Prelude.{
  ℕ, ◌<◌, String, ◌≡◌, refl, sym, ◌∙◌, ap, true, false, Option, none, some, List, [], ◌∷◌, arith,
  nat_eq, string_eq, ◌==◌, subst, any_of,
}
use semiconductor_intel.Prelude.Dict.{get, put, get-put_self}
use semiconductor_intel.Prelude.Json.{Fields, field, text, num, end}
use semiconductor_intel.Prelude.Exec.{
  Result, ok, pure, raise, gets, run, pick, ◌>>=◌, ◌>>◌, bind-ok, rescue-ok,
}
use semiconductor_intel.Queue.Rows.{
  JobRecord, JobState, JobEventRecord, terminal, running, failed, cancelled, is_partial, EventType,
}
use semiconductor_intel.Queue.Effects.{Env, Sys, QueueError, query, store, read_clock}
use semiconductor_intel.Queue.Rules.{allowed, carried, terminal_event, finish_row, finish_body}
use semiconductor_intel.Queue.Store.{
  get_job, fenced_update, update_if, fence_ok, events_of, top_seq, next_event_seq, insert_event,
}
use semiconductor_intel.Queue.Service.{
  append_event, new_event, fenced, fresh_progress, reread, finish,
}
use semiconductor_intel.Queue.Fencing.{carried-eq, read_clock-result, fresh_progress-result, ticked}
use semiconductor_intel.Queue.Keys.{append_event-SameRows}
use semiconductor_intel.Workers.Runner.{
  Outcome, Ending, job_cancelled, deadline_exceeded, unclassified, finished, same_token, finalize,
  finalize_row, settle, conclude, absorb, found_or,
}

-- No event has a number above the highest.
unseen :
    (l : List JobEventRecord) (n : ℕ)
    → top_seq l < n
    → any_of (λ (o : JobEventRecord). o.seq == n) l ≡ false
unfolding top_seq
unseen [] n h = refl
unseen (e ∷ es) n h = ground (arith, nat_eq.beq_iff e.seq n, unseen es n (omega (arith, h)))

module _ (env : Env) where
  append_event-result :
      (job : JobRecord) (type : EventType) (body : Fields) (s : Sys)
      → (e : JobEventRecord) × (t : Sys) × (append_event env job type body s ≡ (ok e, t))
        × (t.jobs ≡ s.jobs)
  unfolding append_event query read_clock store pure raise gets run insert_event next_event_seq
      ◌>>=◌
  append_event-result job type body s =
      let e : JobEventRecord =
        new_event env job type body (next_event_seq job.id s.db) (env.clock s.reads) in
      let free : any_of (λ (o : JobEventRecord). o.seq == e.seq) (events_of job.id s.db) ≡ false =
        unseen (events_of job.id s.db) e.seq (omega arith) in
      let t : Sys = (append_event env job type body s).1 in
      let is : (append_event env job type body s).0 ≡ ok e = rw (free) refl in
      (
        e,
        t,
        ap (λ (r : Result QueueError JobEventRecord). (r, t)) is,
        (append_event-SameRows env job type body s).0,
      )

  abbrev rewritten : JobRecord → (JobRecord → JobRecord) → JobRecord → Sys → Sys
  rewritten job values r s = record s { db = record s.db { jobs = put job.id (values r) s.jobs } }

  fenced-live :
      (job r : JobRecord) (token : String) (until now : ℕ) (values : JobRecord → JobRecord)
      (s : Sys)
      → get job.id s.jobs ≡ some r
      → carried job.lease_token ≡ some token
      → r.lease_token ≡ some token
      → r.lease_until ≡ some until
      → now < until
      → fenced env job now values s ≡ (ok tt, rewritten job values r s)
  unfolding fenced pick store run fenced_update update_if pure raise ◌>>=◌
  fenced-live job r token until now values s found carries has ends early =
      let current : fence_ok token now r ≡ true =
        unfold fence_ok in ground (arith, has, ends, string_eq.beq_iff token token) in
      let write : update_if (fence_ok token now) job.id values s.db
          ≡ (1, (rewritten job values r s).db) =
        rw (found, update_if) (rw current refl) in
      rw (carries, pick) (rw write refl)

-- The row is the run's own, and its lease has not ended at the next reading of the clock.
pub record Held (env : Env) (job r : JobRecord) (token : String) (until : ℕ) (s : Sys)
    : Type 0 where
  pub found : get job.id s.jobs ≡ some r
  pub named : r.id ≡ job.id
  pub active : r.state ≡ running
  pub carries : carried job.lease_token ≡ some token
  pub has : r.lease_token ≡ job.lease_token
  pub ends : r.lease_until ≡ some until
  pub early : env.clock s.reads < until

-- The row is closed: the state and the error are written and the lease is given up.
pub record Closed (row : JobRecord) (state : JobState) (error : Fields) (t : Sys) : Type 0 where
  pub stored : get row.id t.jobs ≡ some row
  pub state_is : row.state ≡ state
  pub released : row.lease_token ≡ none
  pub error_is : row.error ≡ some error

module _ (env : Env) where
  reread-result :
      (job row : JobRecord) (s : Sys)
      → get job.id s.jobs ≡ some row
      → reread env job s ≡ (ok row, s)
  unfolding reread query get_job gets pure pick ◌>>=◌
  reread-result job row s found = rw (found, pick) refl

  finish-live :
      (r : JobRecord) (token : String) (until : ℕ) (state : JobState) (type : EventType)
      (error : Fields) (s : Sys)
      → Held env r r token until s
      → allowed running state ≡ true
      → is_partial state ≡ false
      → terminal_event state ≡ some type
      → (row : JobRecord) × (t : Sys) × (finish env r state none (some error) none s ≡ (ok row, t))
        × (row.id ≡ r.id)
        × Closed row state error t
  unfolding finish finish_row pick
  finish-live r token until state type error s held legal whole closes =
      let legal_here : allowed r.state state ≡ true =
        ap (λ from. allowed from state) held.active ∙ legal in
      let now : ℕ = env.clock s.reads in
      let (base, read) = fresh_progress-result env r (ticked s) in
      let row : JobRecord = finish_row state now none (some error) base none r in
      let mid : Sys =
        rewritten env r (finish_row state now none (some error) base none) r (ticked s) in
      let body : Fields = finish_body r.kind state (some error) in
      let (e, t, logged, kept) = append_event-result env r type body mid in
      let stored : get r.id t.jobs ≡ some row = ap (get r.id) kept ∙ get-put_self r.id row s.jobs in
      (
        row,
        t,
        rw legal_here (
            rw whole (
              rw closes (
                bind-ok (read_clock env) _ s (ticked s) now (read_clock-result env s)
                ∙ bind-ok (fresh_progress env r) _ (ticked s) (ticked s) base read
                ∙ bind-ok (fenced env r now _) _ (ticked s) mid tt (
                    fenced-live env r r token until now _ (ticked s) held.found held.carries
                      (carried-eq r.lease_token token held.carries) held.ends held.early)
                ∙ bind-ok (append_event env r type body) _ mid t e logged
                ∙ reread-result r row t stored))),
        refl,
        record { stored = stored; state_is = refl; released = refl; error_is = refl },
      )

abbrev answered : Option JobRecord → Sys → Result QueueError (Option JobRecord) × Sys
answered o s = (ok o, s)

abbrev read_back : JobRecord → Option JobRecord → Sys → Result QueueError Ending × Sys
read_back job o s = (ok (finished (found_or job o)), s)

same_token-same : (o : Option String) → same_token o o ≡ true
unfolding same_token
same_token-same none = refl
same_token-same (some t) = (string_eq.beq_iff t t).1 refl

module _ (env : Env) (job r : JobRecord) (token : String) (until : ℕ) (s : Sys)
    (held : Held env job r token until s) where
  Held-row : Held env r r token until s
  Held-row = record {
    found = ap (λ id. get id s.jobs) held.named ∙ held.found;
    named = refl;
    active = held.active;
    carries = ap carried held.has ∙ held.carries;
    has = refl;
    ends = held.ends;
    early = held.early;
  }

  finalize-live :
      (state : JobState) (type : EventType) (error : Fields)
      → allowed running state ≡ true
      → is_partial state ≡ false
      → terminal_event state ≡ some type
      → (row : JobRecord) × (t : Sys) × (finalize env job state (some error) s ≡ (ok tt, t))
        × (row.id ≡ job.id)
        × Closed row state error t
  unfolding finalize finalize_row query get_job gets pure
  finalize-live state type error legal whole closes =
      let (row, t, is, same, closed) =
        finish-live env r token until state type error s Held-row legal whole closes in
      let open_ : terminal r.state ≡ false = unfold terminal in ap terminal held.active in
      let ours : same_token r.lease_token job.lease_token ≡ true =
        ap (same_token r.lease_token) (sym held.has) ∙ same_token-same r.lease_token in
      (
        row,
        t,
        rescue-ok _ (absorb env) s t tt (
            bind-ok (query (get_job job.id)) _ s s (some r) (ap (λ o. answered o s) held.found)
            ∙ unfold pick in
              rw (open_)
                (rw ours (bind-ok (finish env r state none (some error) none) _ s t row is))),
        same ∙ held.named,
        closed,
      )

-- What `_execute` writes for each ending that it closes the row for.
abbrev pub verdict : ℕ → Outcome → Option (JobState × Fields)
verdict budget job_cancelled = some (cancelled, field "code" (text "cancelled") end)
verdict budget deadline_exceeded =
    some (failed, field "code" (text "deadline_exceeded") (field "budget_seconds" (num budget) end))
verdict budget (unclassified message) =
    some (failed, field "code" (text "internal_error") (field "message" (text message) end))
verdict budget _ = none

some_injective : {A : Type 0} {x y : A} → Path (Option A) (some x) (some y) → x ≡ y
some_injective e = cc

module _ (env : Env) (job r : JobRecord) (token : String) (until : ℕ) (s : Sys)
    (held : Held env job r token until s) where
  finalize-settles :
      (state : JobState) (type : EventType) (error : Fields)
      → allowed running state ≡ true
      → is_partial state ≡ false
      → terminal_event state ≡ some type
      → (is : JobState) (with_ : Fields)
      → Path (Option (JobState × Fields)) (some (state, error)) (some (is, with_))
      → (row : JobRecord) × (t : Sys) × ((finalize env job state (some error) >> pure false) s
          ≡ (ok false, t))
        × (row.id ≡ job.id)
        × Closed row is with_ t
  unfolding pure
  finalize-settles state type error legal whole closes is with_ e =
      let (row, t, done, same, closed) =
        finalize-live env job r token until s held state type error legal whole closes in
      (
        row,
        t,
        bind-ok (finalize env job state (some error)) _ s t tt done,
        same,
        subst (λ (p : JobState × Fields). Closed row p.0 p.1 t) (some_injective e) closed,
      )

  settle-Closed :
      (repr : QueueError → String) (budget : ℕ) (outcome : Outcome) (state : JobState)
      (error : Fields)
      → verdict budget outcome ≡ some (state, error)
      → (row : JobRecord) × (t : Sys) × (settle env repr job budget outcome s ≡ (ok false, t))
        × (row.id ≡ job.id)
        × Closed row state error t
  unfolding settle allowed terminal_event
  settle-Closed repr budget job_cancelled state error is =
      finalize-settles cancelled _ _ refl refl refl state error is
  settle-Closed repr budget deadline_exceeded state error is =
      finalize-settles failed _ _ refl refl refl state error is
  settle-Closed repr budget (unclassified message) state error is =
      finalize-settles failed _ _ refl refl refl state error is
  settle-Closed repr budget _ state error is = absurd cc

  -- When a handler ends by a cancellation, the deadline or an unclassified exception while its row is
  -- running under the run's token and the lease lasts beyond the next reading of the clock, the run
  -- returns the row with the state and error of that ending and no lease, and the store holds that
  -- row.
  pub conclude-Closed :
      (repr : QueueError → String) (budget : ℕ) (outcome : Outcome) (state : JobState)
      (error : Fields)
      → verdict budget outcome ≡ some (state, error)
      → (row : JobRecord) × (t : Sys) × (conclude env repr job budget outcome s
          ≡ (ok (finished row), t))
        × (row.id ≡ job.id)
        × Closed row state error t
  unfolding conclude query get_job gets pure ◌>>=◌
  conclude-Closed repr budget outcome state error is =
      let (row, t, done, same, closed) = settle-Closed repr budget outcome state error is in
      let stored : get job.id t.jobs ≡ some row =
        ap (λ id. get id t.jobs) (sym same) ∙ closed.stored in
      (
        row,
        t,
        bind-ok (settle env repr job budget outcome) _ s t false done
            ∙ ap (λ o. read_back job o t) stored,
        same,
        closed,
      )
