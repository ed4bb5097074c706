-- ===== src/Queue/Lifecycle/Runs.antt =====
-- Every sequence of the service's methods, by any workers with any snapshots that were handed out.
use semiconductor_intel.Prelude.{
  ℕ, suc, ◌+◌, ◌≤◌, String, ◌≡◌, refl, sym, ◌∙◌, ap, inl, inr, true, false, Option, none, some,
  List, ◌∷◌, arith, In, nat_eq,
}
use semiconductor_intel.Prelude.Dict.{Dict, get, put}
use semiconductor_intel.Prelude.Json.{Fields}
use semiconductor_intel.Prelude.Exec.{Result, ok, ◌>>=◌, pick}
use semiconductor_intel.Queue.Rows.{
  JobRecord, JobState, InMemoryJobsDatabase, is_queued, is_retry_wait, queued, seconds, running,
}
use semiconductor_intel.Queue.Effects.{
  QueueError, Env, Sys, store, now_or_clock, new_token, read_clock,
}
use semiconductor_intel.Queue.Store.{claimable, claim_next, lease_row}
use semiconductor_intel.Queue.Lease.{lease_seconds, new_lease}
use semiconductor_intel.Queue.Claims.{claim_next-outcome}
use semiconductor_intel.Queue.Rules.{IndustryScope}
use semiconductor_intel.Queue.Service.{
  enqueue, claim, heartbeat, start_step, complete_step, finish, fail, request_cancel, requeue_due,
  reap_expired,
}
use semiconductor_intel.Queue.Lifecycle.{
  Sound, NoRepeats, Evolves-trans, Legal-Change, Change-Evolves, Changes, Development, Advance,
  here, Follows-settled, settled,
}
use semiconductor_intel.Queue.Lifecycle.Updates.{Advance-same_jobs}
use semiconductor_intel.Queue.Lifecycle.Claim.{claimed-Sound, claimed-Changes}
use semiconductor_intel.Queue.Lifecycle.Enqueue.{enqueue-Sound}
use semiconductor_intel.Queue.Lifecycle.Service.{
  start_step-Advances, complete_step-Advances, finish-Advances, fail-Advances,
}
use semiconductor_intel.Queue.Lifecycle.Upkeep.{
  heartbeat-Advances, request_cancel-Advances, requeue_due-Advances, reap_expired-Advances,
}

abbrev first_part : Option JobRecord × InMemoryJobsDatabase → Option JobRecord
first_part x = x.0

abbrev second_part : Option JobRecord × InMemoryJobsDatabase → InMemoryJobsDatabase
second_part x = x.1

abbrev jobs_of : InMemoryJobsDatabase → Dict ℕ JobRecord
jobs_of db = db.jobs

ok_injective :
    {x y : Option JobRecord} → Path (Result QueueError (Option JobRecord)) (ok x) (ok y) → x ≡ y
ok_injective e = cc

none-some : {x : JobRecord} → Path (Option JobRecord) none (some x) → ⊥
none-some e = cc

some_injective : {x y : JobRecord} → Path (Option JobRecord) (some x) (some y) → x ≡ y
some_injective e = cc

claimable-queued :
    (session : String) (now : ℕ) (kinds : Option (List String)) (db : InMemoryJobsDatabase) (id : ℕ)
    (r : JobRecord)
    → claimable session now kinds db id r ≡ true
    → r.state ≡ queued
unfolding claimable
claimable-queued session now kinds db id r h = ground arith

module _ (env : Env) where
  -- One call of a method. `claims` are the snapshots handed out so far: a worker may act on one of
  -- them long after its lease was lost. A job is not finished with `retry_wait`, which `fail` is for.
  pub data Step (claims : List JobRecord) (s : Sys) : List JobRecord → Sys → Type 0 where
    enqueues :
        (scope : IndustryScope) (kind : String) (payload : Fields) (key : String)
        (spec_attempts max_attempts : Option ℕ)
        → Step claims s claims (enqueue env scope kind payload key spec_attempts max_attempts s).1
    claims_one :
        (session : String) (now : Option ℕ) (kinds : Option (List String)) (c : JobRecord)
        → (claim env session now kinds s).0 ≡ ok (some c)
        → Step claims s (c ∷ claims) (claim env session now kinds s).1
    claims_none :
        (session : String) (now : Option ℕ) (kinds : Option (List String))
        → (claim env session now kinds s).0 ≡ ok none
        → Step claims s claims (claim env session now kinds s).1
    heartbeats :
        (id : ℕ) (token : String) (now : Option ℕ)
        → Step claims s claims (heartbeat env id token now s).1
    starts_step :
        (job : JobRecord) (step_key input_hash : String)
        → In job claims
        → Step claims s claims (start_step env job step_key input_hash s).1
    completes_step :
        (job : JobRecord) (step_key input_hash : String) (output_ref : Option String)
        (progress : Option Fields)
        → In job claims
        → Step claims s claims (complete_step env job step_key input_hash output_ref progress s).1
    finishes :
        (job : JobRecord) (state : JobState) (output_ref : Option String)
        (error progress : Option Fields)
        → In job claims
        → is_retry_wait state ≡ false
        → Step claims s claims (finish env job state output_ref error progress s).1
    fails :
        (job : JobRecord) (error_class message : String) (retry_after : Option ℕ)
        (details : Option Fields)
        → In job claims
        → Step claims s claims (fail env job error_class message retry_after details s).1
    requests_cancel : (id : ℕ) (at : Option ℕ) → Step claims s claims (request_cancel env id at s).1
    requeues : (now : Option ℕ) → Step claims s claims (requeue_due env now s).1
    reaps : (now : Option ℕ) → Step claims s claims (reap_expired env now s).1

  pub data Run (claims : List JobRecord) (s : Sys) : List JobRecord → Sys → Type 0 where
    start : Run claims s claims s
    then_step :
        {held held' : List JobRecord} {t u : Sys}
        → Run claims s held t
        → Step held t held' u
        → Run claims s held' u

  -- What `claim` amounts to: a time, a token, and `claim_next`.
  claim-parts :
      (session : String) (now : Option ℕ) (kinds : Option (List String)) (s : Sys)
      → (t : ℕ) × (mid : Sys) × (mid.mints ≡ suc s.mints)
        × (claim env session now kinds s ≡ (
          ok (claim_next session t (env.token s.mints) (t + seconds lease_seconds) kinds s.db).0,
          record mid {
            db =
                (claim_next session t (env.token s.mints) (t + seconds lease_seconds) kinds s.db).1;
          },
        ))
  unfolding claim now_or_clock new_token read_clock store pick new_lease ◌>>=◌
  claim-parts session none kinds s =
      (env.clock s.reads, record s { reads = s.reads + 1; mints = s.mints + 1 }, omega arith, refl)
  claim-parts session (some t) kinds s = (t, record s { mints = s.mints + 1 }, omega arith, refl)

  module _ (apart : NoRepeats env) where
    Advance-step :
        {from : JobState} (claims : List JobRecord) (s t : Sys)
        → is_queued from ≡ false
        → Advance env claims from s t
        → Sound env claims s
        → Sound env claims t × Changes s t
    Advance-step {from} claims s t idle step k = (
      step.sound k,
      λ id r e. let (r', e', l) = step.rows k id r e in (r', e', Legal-Change r r' idle l),
    )

    claim_at :
        (claims : List JobRecord) (s t : Sys) (session token : String) (now until mint : ℕ)
        (kinds : Option (List String))
        → Sound env claims s
        → token ≡ env.token mint
        → s.mints ≤ mint
        → suc mint ≤ t.mints
        → t.db ≡ (claim_next session now token until kinds s.db).1
        → ((c : JobRecord)
            → (claim_next session now token until kinds s.db).0 ≡ some c
            → Sound env (c ∷ claims) t × Changes s t)
          × ((claim_next session now token until kinds s.db).0 ≡ none
              → Sound env claims t × Changes s t)
    claim_at claims s t session token now until mint kinds k is drawn minted e =
        elim (claim_next-outcome session now kinds s.db k.distinct token until) [
          | inl (idle, _) ↦ (
            (λ c some_c. absurd (none-some (sym (ap first_part idle) ∙ some_c))),
            (λ _.
                Advance-step claims s t refl
                  (Advance-same_jobs env claims running s t (omega arith)
                    (ap jobs_of (e ∙ ap second_part idle)))
                  k),
          )
          | inr (id, r, oldest, taken) ↦ (
            (λ c some_c.
                let leased : c ≡ lease_row now (env.token mint) until r =
                  some_injective (sym some_c ∙ ap first_part taken)
                  ∙ ap (λ w. lease_row now w until r) is in
                let written : t.jobs ≡ put id c s.jobs =
                  ap jobs_of (e ∙ ap second_part taken)
                  ∙ ap (λ w. put id w s.jobs) (ap (λ w. lease_row now w until r) is ∙ sym leased) in
                let waits = claimable-queued session now kinds s.db id r oldest.may in
                (
                  claimed-Sound env apart claims s t id r c k oldest.at waits now until mint leased
                      written drawn minted,
                  claimed-Changes env apart claims s t id r c k oldest.at waits now until mint
                      leased written drawn minted,
                )),
            (λ no_c. absurd (none-some (sym no_c ∙ ap first_part taken))),
          )
        ]

    -- One step keeps the queue sound, and each row makes at most one change.
    pub Step-Sound :
        {claims : List JobRecord} {s : Sys} {held : List JobRecord} {t : Sys}
        → Step claims s held t
        → Sound env claims s
        → Sound env held t × Changes s t
    Step-Sound {claims} {s = s} (enqueues scope kind payload key spec_attempts max_attempts) k =
        let (sound, rows) =
          enqueue-Sound env apart claims s scope kind payload key spec_attempts max_attempts k in
        (sound, λ id r e. let (r', e', l) = rows id r e in (r', e', Legal-Change r r' refl l))
    Step-Sound {claims} {s = s} (claims_one session now kinds c e) k =
        let (t, mid, m, parts) = claim-parts session now kinds s in
        (claim_at claims s _ session (env.token s.mints) t (t + seconds lease_seconds) s.mints kinds
            k refl (omega arith)
            (omega
              (arith, m, ap (λ (x : Result QueueError (Option JobRecord) × Sys). x.1.mints) parts))
            (ap (λ (x : Result QueueError (Option JobRecord) × Sys). x.1.db) parts)).0
          c
          (ok_injective
            (sym (ap (λ (x : Result QueueError (Option JobRecord) × Sys). x.0) parts) ∙ e))
    Step-Sound {claims} {s = s} (claims_none session now kinds e) k =
        let (t, mid, m, parts) = claim-parts session now kinds s in
        (claim_at claims s _ session (env.token s.mints) t (t + seconds lease_seconds) s.mints kinds
            k refl (omega arith)
            (omega
              (arith, m, ap (λ (x : Result QueueError (Option JobRecord) × Sys). x.1.mints) parts))
            (ap (λ (x : Result QueueError (Option JobRecord) × Sys). x.1.db) parts)).1
          (ok_injective
            (sym (ap (λ (x : Result QueueError (Option JobRecord) × Sys). x.0) parts) ∙ e))
    Step-Sound {claims} {s = s} (heartbeats id token now) k =
        Advance-step claims s _ refl ((heartbeat-Advances env claims id token now).at s) k
    Step-Sound {claims} {s = s} (starts_step job step_key input_hash mem) k =
        Advance-step claims s _ refl
          ((start_step-Advances env claims job mem step_key input_hash).at s) k
    Step-Sound {claims} {s = s} (completes_step job step_key input_hash output_ref progress mem) k =
        Advance-step claims s _ refl
          ((complete_step-Advances env claims job mem step_key input_hash output_ref progress).at s)
          k
    Step-Sound {claims} {s = s} (finishes job state output_ref error progress mem ends) k =
        Advance-step claims s _ refl
          ((finish-Advances env claims job mem state output_ref error progress
              (k.held job mem).state ends).at
            s)
          k
    Step-Sound {claims} {s = s} (fails job error_class message retry_after details mem) k =
        Advance-step claims s _ refl
          ((fail-Advances env claims job mem error_class message retry_after details
              (k.held job mem).state).at
            s)
          k
    Step-Sound {claims} {s = s} (requests_cancel id at) k =
        Advance-step claims s _ refl ((request_cancel-Advances env claims id at).at s) k
    Step-Sound {claims} {s = s} (requeues now) k =
        Advance-step claims s _ refl ((requeue_due-Advances env claims now).at s) k
    Step-Sound {claims} {s = s} (reaps now) k =
        Advance-step claims s _ refl ((reap_expired-Advances env claims now).at s) k

    -- If the sources repeat no UUID and no token, then from a sound queue, whatever the workers,
    -- the reaper and the requests do and in whatever order, the queue stays sound for every
    -- snapshot that was handed out, and each row is still there, with a state that it reached by
    -- changes the code makes and no fewer tries.
    pub Run-Sound :
        {claims : List JobRecord} {s : Sys} {held : List JobRecord} {t : Sys}
        → Run claims s held t
        → Sound env claims s
        → Sound env held t × Development s t
    Run-Sound {s = s} start k =
        (k, λ id r e. (r, e, record { id = refl; tries = omega arith; state = here }))
    Run-Sound {s = s} (then_step run step) k =
        let (mid, rows) = Run-Sound run k in
        let (sound, more) = Step-Sound step mid in
        (
          sound,
          λ id r e.
              let (q, e', l) = rows id r e in
              let (p, e'', l') = more id q e' in
              (p, e'', Evolves-trans r q p l (Change-Evolves q p l')),
        )

    -- If the sources repeat no UUID and no token, then in any run from a sound queue a row that is
    -- in a terminal state, or waits for review, is there at the end in the same state.
    pub Run-settled :
        {claims : List JobRecord} {s : Sys} {held : List JobRecord} {t : Sys} (id : ℕ)
        (r : JobRecord)
        → Sound env claims s
        → Run claims s held t
        → get id s.jobs ≡ some r
        → settled r.state ≡ true
        → (r' : JobRecord) × (get id t.jobs ≡ some r') × (r'.state ≡ r.state)
    Run-settled id r k run e done =
        let (q, e', l) = (Run-Sound run k).1 id r e in (q, e', Follows-settled done l.state)
