-- ===== src/Queue/Keys.antt =====
-- One job for each idempotency key.
use semiconductor_intel.Prelude.{
  ℕ, ◌+◌, String, ◌≡◌, refl, sym, ◌∙◌, ap, Bool, true, false, Option, none, some, arith, nat_eq,
  string_eq, subst, Bool-cases, Option-cases, inl, inr,
}
use semiconductor_intel.Prelude.Dict.{triple_eq, get-put_self}
use semiconductor_intel.Prelude.Json.{Fields, field, text, end}
use semiconductor_intel.Prelude.Exec.{Result, pick, ok, err, pure, raise, run, then-pure, ◌>>=◌}
use semiconductor_intel.Queue.Rows.{JobRecord, ev_queued, EventType}
use semiconductor_intel.Queue.Effects.{
  Env, Sys, QueueError, missing_job, store, query, read_clock, new_uuid,
}
use semiconductor_intel.Queue.Store.{insert_job, insert_event, find_idempotent_job}
use semiconductor_intel.Queue.Rules.{IndustryScope, optional}
use semiconductor_intel.Queue.Service.{enqueue, after_insert, insert_or_find, append_event}
use semiconductor_intel.Queue.Lifecycle.Enqueue.{key_taken, insert_job-taken}

-- The job that an idempotency key names.
found-taken :
    (r old : JobRecord) (s : Sys)
    → find_idempotent_job r.owner_id r.kind r.idempotency_key s.db ≡ some old
    → key_taken r s ≡ true
unfolding find_idempotent_job key_taken
found-taken r old s h = ground arith

module _ (env : Env) where
  insert_or_find-found :
      (r old : JobRecord) (s : Sys)
      → find_idempotent_job r.owner_id r.kind r.idempotency_key s.db ≡ some old
      → insert_or_find env r s ≡ (ok (old, false), s)
  unfolding insert_or_find store after_insert query pick pure run ◌>>=◌
  insert_or_find-found r old s h = rw (insert_job-taken r s (found-taken r old s h)) (rw (h, pick))

  -- If the owner's key of that kind names a job, enqueue returns that job as it is, says that it
  -- created none, and leaves the database as it was, whatever the payload and the limits.
  pub enqueue-found :
      (scope : IndustryScope) (kind : String) (payload : Fields) (key : String)
      (spec_attempts max_attempts : Option ℕ) (old : JobRecord) (s : Sys)
      → find_idempotent_job scope.owner_id kind key s.db ≡ some old
      → enqueue env scope kind payload key spec_attempts max_attempts s
        ≡ (ok (old, false), record s { reads = s.reads + 1; mints = s.mints + 1 })
  unfolding enqueue read_clock new_uuid run ◌>>=◌
  enqueue-found scope kind payload key spec_attempts max_attempts old s h =
      insert_or_find-found _ old (record s { reads = s.reads + 1; mints = s.mints + 1 }) h

abbrev pair_first : JobRecord × Bool → JobRecord
pair_first x = x.0

abbrev result_of : Result QueueError (JobRecord × Bool) × Sys → Result QueueError (JobRecord × Bool)
result_of x = x.0

abbrev state_of : Result QueueError (JobRecord × Bool) × Sys → Sys
state_of x = x.1

ok_err :
    {x : JobRecord × Bool} {e : QueueError}
    → Path (Result QueueError (JobRecord × Bool)) (ok x) (err e)
    → ⊥
ok_err h = cc

ok_injective :
    {x y : JobRecord × Bool} → Path (Result QueueError (JobRecord × Bool)) (ok x) (ok y) → x ≡ y
ok_injective h = cc

-- What `append_event` leaves of the rows and of the index.
abbrev pub SameRows : Sys → Sys → Type 0
SameRows s t = (t.jobs ≡ s.jobs) × (t.idempotency ≡ s.idempotency)

module _ (env : Env) where
  pub append_event-SameRows :
      (job : JobRecord) (type : EventType) (body : Fields) (s : Sys)
      → SameRows s (append_event env job type body s).1
  unfolding append_event query read_clock store pure raise run insert_event ◌>>=◌
  append_event-SameRows job type body s = ground arith

  found-SameRows :
      (owner : ℕ) (kind key : String) (s t : Sys)
      → SameRows s t
      → find_idempotent_job owner kind key t.db ≡ find_idempotent_job owner kind key s.db
  unfolding find_idempotent_job
  found-SameRows owner kind key s t (same, index) = rw (same, index) refl

  -- The rest of `insert_or_find` when the row was stored.
  after_some :
      (r old : JobRecord) (b : Bool) (s : Sys)
      → (after_insert env r (some r) s).0 ≡ ok (old, b)
      → (old ≡ r) × SameRows s (after_insert env r (some r) s).1
  unfolding after_insert pick
  after_some r old b s is =
      let logged =
        append_event env r ev_queued
          (field "kind" (text r.kind) (field "industry_id" (optional r.industry_id) end)) in
      let (same, value) = then-pure logged (r, true) (old, b) s in
      let (rows, index) =
        append_event-SameRows r ev_queued
          (field "kind" (text r.kind) (field "industry_id" (optional r.industry_id) end)) s in
      (
        ap pair_first (value is),
        (ap (λ (x : Sys). x.jobs) same ∙ rows, ap (λ (x : Sys). x.idempotency) same ∙ index),
      )

  stored :
      (r : JobRecord) (s : Sys)
      → key_taken r s ≡ false
      → ((insert_job r s.db).0 ≡ some r)
        × (find_idempotent_job r.owner_id r.kind r.idempotency_key (insert_job r s.db).1 ≡ some r)
  unfolding insert_job key_taken find_idempotent_job
  stored r s free = (
    rw (free) refl,
    rw (free) (
        rw (get-put_self (r.owner_id, r.kind, r.idempotency_key) r.id s.idempotency)
          (get-put_self r.id r s.jobs)),
  )

  created :
      (r old : JobRecord) (b : Bool) (s : Sys)
      → key_taken r s ≡ false
      → (insert_or_find env r s).0 ≡ ok (old, b)
      → (old ≡ r)
        × (find_idempotent_job r.owner_id r.kind r.idempotency_key (insert_or_find env r s).1.db
            ≡ some r)
  unfolding insert_or_find store ◌>>=◌
  created r old b s free is =
      let (some_r, indexed) = stored r s free in
      let mid : Sys = record s { db = (insert_job r s.db).1 } in
      let (same, rows) =
        after_some r old b mid
          (subst (λ o. (after_insert env r o mid).0 ≡ ok (old, b)) some_r is) in
      (
        same,
        subst
            (λ o.
              find_idempotent_job r.owner_id r.kind r.idempotency_key
                (after_insert env r o mid).1.db
              ≡ some r)
            (sym some_r)
            (found-SameRows r.owner_id r.kind r.idempotency_key mid
                (after_insert env r (some r) mid).1 rows
              ∙ indexed),
      )

  dangling :
      (r : JobRecord) (s : Sys)
      → key_taken r s ≡ true
      → find_idempotent_job r.owner_id r.kind r.idempotency_key s.db ≡ none
      → (insert_or_find env r s).0 ≡ err missing_job
  unfolding insert_or_find store after_insert query pick pure raise run ◌>>=◌
  dangling r s taken h = rw (insert_job-taken r s taken) (rw (h, pick) refl)

  -- An enqueue that returns leaves its job under the key.
  kept :
      (r old : JobRecord) (b : Bool) (s : Sys)
      → (insert_or_find env r s).0 ≡ ok (old, b)
      → find_idempotent_job r.owner_id r.kind r.idempotency_key (insert_or_find env r s).1.db
        ≡ some old
  kept r old b s is = elim (Bool-cases (key_taken r s)) [
    | inl taken ↦
        elim (Option-cases (find_idempotent_job r.owner_id r.kind r.idempotency_key s.db)) [
          | inl none_there ↦ absurd (ok_err (sym is ∙ dangling r s taken none_there))
          | inr (o, there) ↦
              let result = insert_or_find-found env r o s there in
              ap
                (λ (x : Result QueueError (JobRecord × Bool) × Sys).
                  find_idempotent_job r.owner_id r.kind r.idempotency_key x.1.db)
                result
              ∙ there
              ∙ ap some (ap pair_first (ok_injective (sym (ap result_of result) ∙ is)))
        ]
    | inr free ↦ let (same, indexed) = created r old b s free is in indexed ∙ ap some (sym same)
  ]

  pub enqueue-kept :
      (scope : IndustryScope) (kind : String) (payload : Fields) (key : String)
      (spec_attempts max_attempts : Option ℕ) (job : JobRecord) (created : Bool) (s t : Sys)
      → enqueue env scope kind payload key spec_attempts max_attempts s ≡ (ok (job, created), t)
      → find_idempotent_job scope.owner_id kind key t.db ≡ some job
  unfolding enqueue read_clock new_uuid run ◌>>=◌
  enqueue-kept scope kind payload key spec_attempts max_attempts job created s t is =
      subst (λ (x : Sys). find_idempotent_job scope.owner_id kind key x.db ≡ some job)
        (ap state_of is)
        (kept _ job created (record s { reads = s.reads + 1; mints = s.mints + 1 })
          (ap result_of is))

  -- When enqueue returns a job, a second enqueue of the same key and kind by the same owner, whatever
  -- its payload, industry and limits, returns that job, says that it created none, and leaves the
  -- database as it was.
  pub enqueue-again :
      (scope : IndustryScope) (kind : String) (payload : Fields) (key : String)
      (spec_attempts max_attempts : Option ℕ) (job : JobRecord) (created : Bool) (s t : Sys)
      → enqueue env scope kind payload key spec_attempts max_attempts s ≡ (ok (job, created), t)
      → (industry : Option ℕ) (payload' : Fields) (spec' max' : Option ℕ)
      → enqueue env
          (record { owner_id = scope.owner_id; industry_id = industry })
          kind
          payload'
          key
          spec'
          max'
          t
        ≡ (ok (job, false), record t { reads = t.reads + 1; mints = t.mints + 1 })
  enqueue-again scope kind payload key spec_attempts max_attempts job created s t is industry
        payload' spec' max' =
      enqueue-found env (record { owner_id = scope.owner_id; industry_id = industry }) kind payload'
        key spec' max' job t
        (enqueue-kept scope kind payload key spec_attempts max_attempts job created s t is)
