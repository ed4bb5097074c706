-- ===== src/Queue/Lifecycle/Table.antt =====
-- The queue against the table of state changes, `_ALLOWED_TRANSITIONS` of src/intel/services/jobs.py:
-- only `finish` consults it; a claim, a retry, the reaper and `requeue_due` set the state without it.
use semiconductor_intel.Prelude.{ℕ, suc, ◌≡◌, ◌⊎◌, inl, inr, true, false, some, List, arith, nat_eq}
use semiconductor_intel.Prelude.Dict.{get}
use semiconductor_intel.Queue.Rows.{JobState, JobRecord, queued, running, is_queued}
use semiconductor_intel.Queue.Effects.{Env, Sys}
use semiconductor_intel.Queue.Rules.{allowed}
use semiconductor_intel.Queue.Lifecycle.{Sound, NoRepeats, Change, stays, moves, claimed, taken}
use semiconductor_intel.Queue.Lifecycle.Runs.{Step, Step-Sound}

taken-allowed : (s t : JobState) → taken s t ≡ true → allowed s t ≡ true
unfolding taken allowed
taken-allowed s t h = ground arith

-- A row keeps its state and its tries, or it makes one change that the table allows; a change from
-- `queued` counts a try and starts the job, any other leaves the tries as they are.
abbrev pub Permitted : JobRecord → JobRecord → Type 0
Permitted r r' =
    ((r'.state ≡ r.state) × (r'.attempt ≡ r.attempt))
    ⊎ ((allowed r.state r'.state ≡ true)
        × (((is_queued r.state ≡ false) × (r'.attempt ≡ r.attempt))
            ⊎ ((r.state ≡ queued) × (r'.state ≡ running) × (r'.attempt ≡ suc r.attempt))))

Change-Permitted : (r r' : JobRecord) → Change r r' → Permitted r r'
unfolding allowed
Change-Permitted r r' (stays i a same) = inl (same, a)
Change-Permitted r r' (moves i a idle may) = inr (taken-allowed r.state r'.state may, inl (idle, a))
Change-Permitted r r' (claimed i a was is) = inr (ground (arith, was, is), inr (was, is, a))

module _ (env : Env) (apart : NoRepeats env) where
  -- If the sources repeat no UUID and no token, then in one step from a sound queue, of any method
  -- with any snapshot that was handed out, each row that is there stays there under its identifier.
  -- It keeps its state and its tries, or makes one single change that the table of the service
  -- allows, also where the method never consults the table; a try is counted exactly when a queued
  -- row is claimed.
  pub Step-Permitted :
      {claims : List JobRecord} {s : Sys} {held : List JobRecord} {t : Sys} (id : ℕ) (r : JobRecord)
      → Sound env claims s
      → Step env claims s held t
      → get id s.jobs ≡ some r
      → (r' : JobRecord) × (get id t.jobs ≡ some r') × Permitted r r'
  Step-Permitted id r k step e =
      let (q, e', c) = (Step-Sound env apart step k).1 id r e in (q, e', Change-Permitted r q c)
