-- ===== src/Queue/Events/Primitives.antt =====
-- The operations of the store leave the logs alone, or append the next event.
use semiconductor_intel.Prelude.{
  ℕ, ◌+◌, String, ◌≡◌, refl, Bool, Option, none, some, List, arith, nat_eq, string_eq, Bool-cases,
  inl, inr,
}
use semiconductor_intel.Prelude.Dict.{triple_eq}
use semiconductor_intel.Prelude.Json.{Fields}
use semiconductor_intel.Prelude.Exec.{
  Relates, Relates-pure, Relates-raise, Relates-gets, Relates-run, Relates-if, Relates-bind,
  Relates-pick, pure, raise, gets, pick, run, ◌>>=◌, ◌>>◌,
}
use semiconductor_intel.Queue.Rows.{JobRecord, JobStepRecord, InMemoryJobsDatabase, EventType}
use semiconductor_intel.Queue.Effects.{
  Env, Sys, store, query, read_clock, draw, new_uuid, new_token, now_or_clock,
}
use semiconductor_intel.Queue.Store.{
  insert_job, insert_event, next_event_seq, update_if, fenced_update, fenced_heartbeat,
  expire_update, upsert_step, claim_next, claim_select, claim_write, requeue_due as store_requeue,
  request_cancel as store_cancel,
}
use semiconductor_intel.Queue.Service.{new_event, append_event}
use semiconductor_intel.Queue.Events.{
  Appends, Appends-same, Appends-order, insert_event-Appends, insert_job-Appends, WellNumbered,
}

update_if-events :
    (guard : JobRecord → Bool) (id : ℕ) (values : JobRecord → JobRecord) (db : InMemoryJobsDatabase)
    → (update_if guard id values db).1.events ≡ db.events
unfolding update_if
update_if-events guard id values db = ground arith

claim_next-events :
    (session : String) (now : ℕ) (token : String) (until : ℕ) (kinds : Option (List String))
    (db : InMemoryJobsDatabase)
    → (claim_next session now token until kinds db).1.events ≡ db.events
unfolding claim_next claim_select claim_write
claim_next-events session now token until kinds db = ground arith

quiet :
    {A : Type 0} (f : InMemoryJobsDatabase → A × InMemoryJobsDatabase)
    → ((db : InMemoryJobsDatabase) → (f db).1.events ≡ db.events)
    → Relates Appends (store f)
unfolding store
quiet f h = Relates-run _ (λ s. Appends-same s _ (h s.db))

pub query-Appends : {A : Type 0} (f : InMemoryJobsDatabase → A) → Relates Appends (query f)
unfolding query
query-Appends f = Relates-gets Appends-order (λ s. f s.db)

pub fenced_update-quiet :
    (id : ℕ) (token : String) (now : ℕ) (values : JobRecord → JobRecord)
    → Relates Appends (store (fenced_update id token now values))
unfolding fenced_update
fenced_update-quiet id token now values = quiet _ (update_if-events _ id values)

pub fenced_heartbeat-quiet :
    (id : ℕ) (token : String) (until now : ℕ)
    → Relates Appends (store (fenced_heartbeat id token until now))
unfolding fenced_heartbeat fenced_update
fenced_heartbeat-quiet id token until now = quiet _ (update_if-events _ id _)

pub expire_update-quiet :
    (id now : ℕ) (values : JobRecord → JobRecord)
    → Relates Appends (store (expire_update id now values))
unfolding expire_update
expire_update-quiet id now values = quiet _ (update_if-events _ id values)

pub cancel-quiet : (id at : ℕ) → Relates Appends (store (store_cancel id at))
unfolding store_cancel
cancel-quiet id at = quiet _ (update_if-events _ id _)

pub requeue-quiet : (now : ℕ) → Relates Appends (store (store_requeue now))
unfolding store_requeue
requeue-quiet now = quiet _ (λ db. refl)

pub upsert_step-quiet : (step : JobStepRecord) → Relates Appends (store (upsert_step step))
unfolding upsert_step
upsert_step-quiet step = quiet _ (λ db. ground arith)

pub claim_next-quiet :
    (session : String) (now : ℕ) (token : String) (until : ℕ) (kinds : Option (List String))
    → Relates Appends (store (claim_next session now token until kinds))
claim_next-quiet session now token until kinds =
    quiet _ (claim_next-events session now token until kinds)

pub store-insert_job-Appends : (r : JobRecord) → Relates Appends (store (insert_job r))
unfolding store
store-insert_job-Appends r = Relates-run _ (insert_job-Appends r)

module _ (env : Env) where
  pub read_clock-quiet : Relates Appends (read_clock env)
  unfolding read_clock
  read_clock-quiet = Relates-run _ (λ s. Appends-same s _ refl)

  pub draw-quiet : Relates Appends (draw env)
  unfolding draw
  draw-quiet = Relates-run _ (λ s. Appends-same s _ refl)

  pub new_uuid-quiet : Relates Appends (new_uuid env)
  unfolding new_uuid
  new_uuid-quiet = Relates-run _ (λ s. Appends-same s _ refl)

  pub new_token-quiet : Relates Appends (new_token env)
  unfolding new_token
  new_token-quiet = Relates-run _ (λ s. Appends-same s _ refl)

  pub now_or_clock-quiet : (o : Option ℕ) → Relates Appends (now_or_clock env o)
  unfolding now_or_clock pick
  now_or_clock-quiet none = read_clock-quiet
  now_or_clock-quiet (some t) = Relates-pure Appends-order t

  append_event-state :
      (job : JobRecord) (type : EventType) (body : Fields) (s : Sys)
      → (append_event env job type body s).1 ≡ record s {
        reads = s.reads + 1;
        db =
            (insert_event
              (new_event env job type body (next_event_seq job.id s.db) (env.clock s.reads))
              s.db).1;
      }
  unfolding append_event query read_clock store ◌>>=◌
  append_event-state job type body s =
      elim (Bool-cases
        (insert_event (new_event env job type body (next_event_seq job.id s.db) (env.clock s.reads))
          s.db).0) [ inl done ↦ rw done | inr clash ↦ rw clash ]

  pub append_event-Appends :
      (job : JobRecord) (type : EventType) (body : Fields)
      → Relates Appends (append_event env job type body)
  append_event-Appends job type body = record {
    at = λ s. rw (append_event-state job type body s) (
        Appends-order.chain s (record s { reads = s.reads + 1 }) _ (Appends-same s _ refl)
          (insert_event-Appends
            (new_event env job type body (next_event_seq job.id s.db) (env.clock s.reads))
            (record s { reads = s.reads + 1 }) refl));
  }

pub ruleset append_rules = (
  Relates-pure, Relates-raise, Relates-if, Relates-bind, Relates-pick, Appends-order, query-Appends,
  read_clock-quiet, draw-quiet, new_uuid-quiet, new_token-quiet, now_or_clock-quiet,
  fenced_update-quiet, append_event-Appends, upsert_step-quiet,
)
