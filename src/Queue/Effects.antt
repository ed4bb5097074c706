-- ===== src/Queue/Effects.antt =====
-- What the methods of `JobService` work on: the store, and how often the clock, the random number
-- generator and the sources of identifiers and tokens were read. What they answer is `Env`.
use semiconductor_intel.Prelude.{ℕ, ◌+◌, String, Option}
use semiconductor_intel.Prelude.Exec.{Exec, gets, run, pick, pure}
use semiconductor_intel.Queue.Rows.{InMemoryJobsDatabase}

-- The n-th answer of each source.
pub record Env : Type 0 where
  pub clock : ℕ → ℕ
  pub random : ℕ → ℕ
  pub uuid : ℕ → ℕ
  pub token : ℕ → String

pub record Sys : Type 0 where
  pub db : InMemoryJobsDatabase
  pub open db use *
  pub reads : ℕ
  pub draws : ℕ
  pub mints : ℕ

-- The exceptions that the methods raise.
pub data QueueError : Type 0 where
  validation_error lease_lost invalid_transition key_error duplicate_seq missing_job : QueueError

abbrev pub M : Type 0 → Type 0
M A = Exec QueueError Sys A

-- An operation of the store.
abbrev with_db : {A : Type 0} → A × InMemoryJobsDatabase → Sys → A × Sys
with_db r s = (r.0, record s { db = r.1 })

unfoldable pub store : {A : Type 0} → (InMemoryJobsDatabase → A × InMemoryJobsDatabase) → M A
store f = run (λ s. with_db (f s.db) s)

unfoldable pub query : {A : Type 0} → (InMemoryJobsDatabase → A) → M A
query f = gets (λ s. f s.db)

module _ (env : Env) where
  unfoldable pub read_clock : M ℕ
  read_clock = run (λ s. (env.clock s.reads, record s { reads = s.reads + 1 }))

  unfoldable pub draw : M ℕ
  draw = run (λ s. (env.random s.draws, record s { draws = s.draws + 1 }))

  unfoldable pub new_uuid : M ℕ
  new_uuid = run (λ s. (env.uuid s.mints, record s { mints = s.mints + 1 }))

  unfoldable pub new_token : M String
  new_token = run (λ s. (env.token s.mints, record s { mints = s.mints + 1 }))

  unfoldable pub now_or_clock : Option ℕ → M ℕ
  unfolding read_clock
  now_or_clock now = pick now read_clock pure
