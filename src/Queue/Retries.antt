-- ===== src/Queue/Retries.antt =====
-- A job that waits for a retry comes back: `requeue_due` and then `claim_next` of
-- src/intel/repositories/jobs.py.
use semiconductor_intel.Prelude.{
  ℕ, String, ◌≡◌, ◌≤◌, refl, sym, ◌∙◌, ap, true, false, Option, some, List, arith, nat_eq,
  string_eq, inl, inr,
}
use semiconductor_intel.Prelude.Dict.{get, get-map_values, Distinct, Distinct-map_values}
use semiconductor_intel.Queue.Rows.{JobRecord, InMemoryJobsDatabase, queued, retry_wait}
use semiconductor_intel.Queue.Store.{
  allows, unlocked, claimable, requeueable, requeue_row, before, lease_row, claim_next,
}
use semiconductor_intel.Queue.Store
use semiconductor_intel.Queue.Claims.{claim_next-outcome}

true-false : true ≡ false → ⊥
true-false h = cc

module _ (session token : String) (now until : ℕ) (kinds : Option (List String))
    (db : InMemoryJobsDatabase) where
  abbrev pub requeued : InMemoryJobsDatabase
  requeued = (Store.requeue_due now db).1

  requeued-get :
      (id : ℕ) (r : JobRecord)
      → get id db.jobs ≡ some r
      → requeueable now r ≡ true
      → get id requeued.jobs ≡ some (record r { state = queued })
  unfolding Store.requeue_due requeue_row
  requeued-get id r at due =
      get-map_values (requeue_row now) id db.jobs ∙ rw (at, requeue_row, due) refl

  requeued-claimable :
      (id : ℕ) (r : JobRecord)
      → requeueable now r ≡ true
      → unlocked session (get id db.locks) ≡ true
      → allows kinds r.kind ≡ true
      → claimable session now kinds requeued id (record r { state = queued }) ≡ true
  unfolding Store.requeue_due claimable requeueable
  requeued-claimable id r due free kind = ground (arith, due, free, kind)

  waiting-requeueable :
      (due : ℕ) (r : JobRecord)
      → r.state ≡ retry_wait
      → r.available_at ≡ some due
      → due ≤ now
      → requeueable now r ≡ true
  unfolding requeueable
  waiting-requeueable due r waits time passed = ground (arith, waits, time, passed)

  requeued-Distinct : Distinct db.jobs → Distinct requeued.jobs
  unfolding Store.requeue_due
  requeued-Distinct distinct = Distinct-map_values (requeue_row now) db.jobs distinct

  -- On a table whose identifiers are distinct, let a row wait for its retry until now or earlier,
  -- and be neither locked by another session nor of a kind that the worker does not ask for. Once
  -- the due rows are requeued, the worker's claim returns a job: one that may be claimed and that
  -- this row is not due before, under the new lease and with one more try.
  pub requeue_due-claimed :
      (id due : ℕ) (r : JobRecord)
      → Distinct db.jobs
      → get id db.jobs ≡ some r
      → r.state ≡ retry_wait
      → r.available_at ≡ some due
      → due ≤ now
      → unlocked session (get id db.locks) ≡ true
      → allows kinds r.kind ≡ true
      → (j : ℕ) × (q : JobRecord) × (get j requeued.jobs ≡ some q)
        × (claimable session now kinds requeued j q ≡ true)
        × (before (record r { state = queued }) q ≡ false)
        × ((claim_next session now token until kinds requeued).0
            ≡ some (lease_row now token until q))
  requeue_due-claimed id due r distinct at waits time passed free kind =
      let ripe = waiting-requeueable due r waits time passed in
      let there = requeued-get id r at ripe in
      let may = requeued-claimable id r ripe free kind in
      elim (claim_next-outcome session now kinds requeued (requeued-Distinct distinct) token
        until) [
          | inl (idle, nothing) ↦
              absurd (true-false (sym may ∙ nothing id (record r { state = queued }) there))
          | inr (j, q, oldest, taken) ↦ (
            j,
            q,
            oldest.at,
            oldest.may,
            oldest.first id (record r { state = queued }) there may,
            ap (λ (x : Option JobRecord × InMemoryJobsDatabase). x.0) taken,
          )
        ]
