-- ===== src/Queue/Lifecycle/Upkeep.antt =====
-- The methods that need no snapshot: the heartbeat, cancellation, the requeue and the reaper.
use semiconductor_intel.Prelude.{
  ap, ℕ, ◌+◌, String, ◌≡◌, refl, ◌∙◌, inl, inr, Bool, true, Option, some, List, [], ◌∷◌, arith, In,
  nat_eq, leb, Bool-cases,
}
use semiconductor_intel.Prelude.Dict.{Dict, get, In-get}
use semiconductor_intel.Prelude.Exec.{ok, ◌>>=◌}
use semiconductor_intel.Queue.Rows.{JobRecord, queued, running, retry_wait}
use semiconductor_intel.Queue.Effects.{draw, Env, Sys, store, query}
use semiconductor_intel.Queue.Store.{
  fenced_update, fenced_heartbeat, fence_ok, beat, expire_update, expired, requeueable, requeue_row,
  may_cancel, select_rows, expired_running_jobs,
}
use semiconductor_intel.Queue.Store
use semiconductor_intel.Queue.Rules.{reap_failed_row}
use semiconductor_intel.Queue.Service.{
  lease_expired, heartbeat, request_cancel, requeue_due, reap_one, reap_all, reap_expired,
}
use semiconductor_intel.Queue.Lifecycle.{Legal, RowOk, taken, Sound, Advance}
use semiconductor_intel.Queue.Lifecycle.Updates.{Advance-same_jobs, Advance-map, Advance-order}
use semiconductor_intel.Queue.Lifecycle.RowUpdates.{
  reap_failed_row-Legal, reap_retry_row-Legal, keeps_state,
}
use semiconductor_intel.Queue.Lifecycle.Methods.{
  Advances-bind, Advances, Advances-store, update_if-Advance, advance_rules, now_or_clock-Advances,
}

module _ (env : Env) (claims : List JobRecord) where
  fenced_heartbeat-Advances :
      (id : ℕ) (token : String) (until now : ℕ)
      → Advances env claims running (store (fenced_heartbeat id token until now))
  unfolding fenced_heartbeat fenced_update
  fenced_heartbeat-Advances id token until now = Advances-store env claims running _ (λ s.
      update_if-Advance env claims running (fence_ok token now) id (beat until now) s
        (λ r found pass k. keeps_state env claims r _ (k.rows id r found) refl refl refl refl refl))

  pub heartbeat-Advances :
      (id : ℕ) (token : String) (now : Option ℕ)
      → Advances env claims running (heartbeat env id token now)
  unfolding heartbeat
  heartbeat-Advances id token now = search (advance_rules, fenced_heartbeat-Advances) depth 8

  cancel-Advances : (id at : ℕ) → Advances env claims running (store (Store.request_cancel id at))
  unfolding Store.request_cancel
  cancel-Advances id at = Advances-store env claims running _ (λ s.
      update_if-Advance env claims running may_cancel id _ s
        (λ r found pass k. keeps_state env claims r _ (k.rows id r found) refl refl refl refl refl))

  pub request_cancel-Advances :
      (id : ℕ) (at : Option ℕ) → Advances env claims running (request_cancel env id at)
  unfolding request_cancel
  request_cancel-Advances id at = search (advance_rules, cancel-Advances) depth 8

  requeued :
      (now : ℕ) (r : JobRecord)
      → RowOk r
      → requeueable now r ≡ true
      → Legal retry_wait r (record r { state = queued }) × RowOk (record r { state = queued })
  unfolding requeueable taken
  requeued now r safe due =
      let waits : r.state ≡ retry_wait = ground arith in
      (
        record {
          id = refl;
          attempt = refl;
          budget = refl;
          lease = inr refl;
          state = inr (waits, refl);
        },
        record {
          leased = λ t e. ground (arith, safe.leased t e);
          bounded = safe.bounded;
          spare = λ _. safe.parked (ground arith);
          parked = λ e. ground arith;
        },
      )

  requeue_row-Legal :
      (now : ℕ) (r : JobRecord)
      → RowOk r
      → Legal retry_wait r (requeue_row now r) × RowOk (requeue_row now r)
  unfolding requeue_row
  requeue_row-Legal now r safe = elim (Bool-cases (requeueable now r)) [
    | inl due ↦ rw due (requeued now r safe due)
    | inr early ↦ rw early (keeps_state env claims r r safe refl refl refl refl refl)
  ]

  requeue-Advances : (now : ℕ) → Advances env claims retry_wait (store (Store.requeue_due now))
  unfolding Store.requeue_due
  requeue-Advances now = Advances-store env claims retry_wait _ (λ s.
      Advance-map env claims retry_wait s _ (requeue_row now) (omega arith) refl
        (requeue_row-Legal now))

  pub requeue_due-Advances : (now : Option ℕ) → Advances env claims retry_wait (requeue_due env now)
  unfolding requeue_due
  requeue_due-Advances now = search (advance_rules, requeue-Advances) depth 8

  -- A row in the reaper's list, as long as its transaction has not changed it otherwise.
  abbrev Listed : JobRecord → Sys → Type 0
  Listed job s =
      (r : JobRecord) × (get job.id s.jobs ≡ some r)
      × (r.attempt ≡ job.attempt)
      × (r.max_attempts ≡ job.max_attempts)

  expired-running : (now : ℕ) (r : JobRecord) → expired now r ≡ true → r.state ≡ running
  unfolding expired
  expired-running now r h = ground arith

  -- The two updates of the reaper, on a row whose try count the list has right.
  reap_write :
      (now : ℕ) (job : JobRecord) (values : JobRecord → JobRecord) (s : Sys)
      → ((r : JobRecord)
          → RowOk r
          → r.state ≡ running
          → r.attempt ≡ job.attempt
          → r.max_attempts ≡ job.max_attempts
          → Legal running r (values r) × RowOk (values r))
      → Listed job s
      → Advance env claims running s (record s { db = (expire_update job.id now values s.db).1 })
  unfolding expire_update
  reap_write now job values s safe (q, at, attempts, limit) =
      update_if-Advance env claims running (expired now) job.id values s (λ r found pass k.
        safe r (k.rows job.id r found) (expired-running now r pass) (ground arith) (ground arith))

  reap_one-Advance :
      (now : ℕ) (job : JobRecord) (s : Sys)
      → Listed job s
      → Advance env claims running s (reap_one env now job s).1
  unfolding reap_one ◌>>=◌ store draw
  reap_one-Advance now job s listed = elim (Bool-cases (leb job.max_attempts job.attempt)) [
    | inl spent ↦ rw spent (
        reap_write now job (reap_failed_row (lease_expired env job.attempt)) s
          (λ r safe is a m. reap_failed_row-Legal env claims _ r safe is) listed)
    | inr left ↦ rw left (
        (Advance-order env claims running).chain s _ _
          (Advance-same_jobs env claims running s _ (omega arith) refl)
          (reap_write now job _ (record s { draws = s.draws + 1 })
            (λ r safe is a m. reap_retry_row-Legal env claims _ _ r safe is (ground arith)) listed))
  ]

  -- What is still in the list stays right while earlier rows are reaped.
  Listed-Advance :
      (job : JobRecord) (s t : Sys)
      → Sound env claims s
      → Advance env claims running s t
      → Listed job s
      → Listed job t
  Listed-Advance job s t k adv (q, at, attempts, limit) =
      let (q', at', legal) = adv.rows k job.id q at in
      (q', at', legal.attempt ∙ attempts, legal.budget ∙ limit)

  AllListed : List JobRecord → Sys → Type 0
  AllListed [] s = Unit
  AllListed (job ∷ rest) s = Listed job s × AllListed rest s

  AllListed-Advance :
      (l : List JobRecord) (s t : Sys)
      → Sound env claims s
      → Advance env claims running s t
      → AllListed l s
      → AllListed l t
  unfolding AllListed
  AllListed-Advance [] s t k adv h = tt
  AllListed-Advance (job ∷ rest) s t k adv h =
      (Listed-Advance job s t k adv h.0, AllListed-Advance rest s t k adv h.1)

  reap_one-result :
      (now : ℕ) (job : JobRecord) (s : Sys) → (n : ℕ) × ((reap_one env now job s).0 ≡ ok n)
  unfolding reap_one ◌>>=◌ store draw
  reap_one-result now job s = elim (Bool-cases (leb job.max_attempts job.attempt)) [
    | inl spent ↦ rw spent (_, refl)
    | inr left ↦ rw left (_, refl)
  ]

  reap_all-Advance :
      (now : ℕ) (l : List JobRecord) (count : ℕ) (s : Sys)
      → Sound env claims s
      → AllListed l s
      → Advance env claims running s (reap_all env now l count s).1
  unfolding reap_all ◌>>=◌ AllListed
  reap_all-Advance now [] count s k h = (Advance-order env claims running).same s
  reap_all-Advance now (job ∷ rest) count s k h =
      let one = reap_one-Advance now job s h.0 in
      let s' = (reap_one env now job s).1 in
      let (n, e) = reap_one-result now job s in
      rw e (
        (Advance-order env claims running).chain s s' _ one (
          reap_all-Advance now rest (count + n) s' (one.sound k)
            (AllListed-Advance rest s s' k one h.1)))

  select-Listed :
      (p : JobRecord → Bool) (s : Sys) (d : Dict ℕ JobRecord)
      → ((id : ℕ) (r : JobRecord) → In (id, r) d → Listed r s)
      → AllListed (select_rows p d) s
  unfolding select_rows AllListed
  select-Listed p s [] h = tt
  select-Listed p s ((id, r) ∷ d) h =
      let rest : AllListed (select_rows p d) s = select-Listed p s d (λ i q m. h i q (inr m)) in
      elim (Bool-cases (p r)) [
        | inl kept ↦ rw kept (h id r (inl refl), rest)
        | inr left ↦ rw left rest
      ]

  expired-listed :
      (now : ℕ) (s : Sys) → Sound env claims s → AllListed (expired_running_jobs now s.db) s
  unfolding expired_running_jobs
  expired-listed now s k = select-Listed (expired now) s s.jobs (λ id r m.
      let at : get id s.jobs ≡ some r = In-get id r s.jobs k.distinct m in
      (r, (ap (λ i. get i s.jobs) (k.keys id r at) ∙ at), refl, refl))

  reap_at :
      (now : ℕ) (s : Sys)
      → Advance env claims running s (reap_all env now (expired_running_jobs now s.db) 0 s).1
  reap_at now s = record {
    sound = λ k.
        (reap_all-Advance now (expired_running_jobs now s.db) 0 s k (expired-listed now s k)).sound
          k;
    rows = λ k.
        (reap_all-Advance now (expired_running_jobs now s.db) 0 s k (expired-listed now s k)).rows
          k;
  }

  pub reap_expired-Advances : (now : Option ℕ) → Advances env claims running (reap_expired env now)
  unfolding reap_expired
  reap_expired-Advances now =
      Advances-bind env claims running _ _ (now_or_clock-Advances env claims running now)
        (λ t. record { at = λ s. unfold ◌>>=◌ query in reap_at t s })
