-- ===== src/Queue/Lifecycle/Methods.antt =====
-- Every method of the service but `claim` and `enqueue` advances a sound queue.
use semiconductor_intel.Prelude.{
  ℕ, String, ◌≡◌, refl, sym, ◌∙◌, inl, inr, Bool, true, false, Option, none, some, List, arith, In,
  nat_eq, string_eq, ◌==◌, if◌then◌else◌, Bool-cases, Option-cases,
}
use semiconductor_intel.Prelude.Dict.{get}
use semiconductor_intel.Prelude.Exec.{
  Relates, Relates-pure, Relates-raise, Relates-gets, Relates-run, Relates-if, Relates-bind,
  Relates-pick, pure, raise, ◌>>=◌, pick,
}
use semiconductor_intel.Queue.Rows.{JobRecord, JobState, running, InMemoryJobsDatabase}
use semiconductor_intel.Queue.Effects.{
  Env, Sys, M, QueueError, store, query, read_clock, draw, new_uuid, now_or_clock,
}
use semiconductor_intel.Queue.Store.{update_if, fenced_update, fence_ok}
use semiconductor_intel.Queue.Rules.{carried}
use semiconductor_intel.Queue.Service.{fenced}
use semiconductor_intel.Queue.Lifecycle.{Legal, RowOk, Sound, Advance}
use semiconductor_intel.Queue.Lifecycle.Updates.{Advance-order, Advance-same_jobs, Advance-put}

module _ (env : Env) (claims : List JobRecord) (from : JobState) where
  abbrev pub Advances : {A : Type 0} → M A → Type 0
  Advances m = Relates (Advance env claims from) m

  pub Advances-pure : {A : Type 0} (a : A) → Advances (pure a)
  Advances-pure a = Relates-pure (Advance-order env claims from) a

  pub Advances-raise : {A : Type 0} (e : QueueError) → Advances (raise {A = A} e)
  Advances-raise e = Relates-raise (Advance-order env claims from) e

  pub Advances-bind :
      {A B : Type 0} (m : M A) (f : A → M B)
      → Advances m
      → ((a : A) → Advances (f a))
      → Advances (m >>= f)
  Advances-bind m f = Relates-bind (Advance-order env claims from) m f

  pub Advances-pick :
      {A B : Type 0} (o : Option A) (m : M B) (f : A → M B)
      → Advances m
      → ((a : A) → o ≡ some a → Advances (f a))
      → Advances (pick o m f)
  Advances-pick o m f = Relates-pick o m f

  pub Advances-if :
      {A : Type 0} (b : Bool) (m n : M A)
      → (b ≡ true → Advances m)
      → (b ≡ false → Advances n)
      → Advances (if b then m else n)
  Advances-if b m n = Relates-if b m n

  pub Advances-query : {A : Type 0} (f : InMemoryJobsDatabase → A) → Advances (query f)
  unfolding query
  Advances-query f = Relates-gets (Advance-order env claims from) (λ s. f s.db)

  pub Advances-store :
      {A : Type 0} (f : InMemoryJobsDatabase → A × InMemoryJobsDatabase)
      → ((s : Sys) → Advance env claims from s (record s { db = (f s.db).1 }))
      → Advances (store f)
  unfolding store
  Advances-store f h = Relates-run _ h

  pub read_clock-Advances : Advances (read_clock env)
  unfolding read_clock
  read_clock-Advances =
      Relates-run _ (λ s. Advance-same_jobs env claims from s _ (omega arith) refl)

  pub draw-Advances : Advances (draw env)
  unfolding draw
  draw-Advances = Relates-run _ (λ s. Advance-same_jobs env claims from s _ (omega arith) refl)

  pub new_uuid-Advances : Advances (new_uuid env)
  unfolding new_uuid
  new_uuid-Advances = Relates-run _ (λ s. Advance-same_jobs env claims from s _ (omega arith) refl)

  pub now_or_clock-Advances : (o : Option ℕ) → Advances (now_or_clock env o)
  unfolding now_or_clock
  now_or_clock-Advances o =
      Advances-pick o (read_clock env) pure read_clock-Advances (λ t _. Advances-pure t)

  -- An update behind a guard.
  pub update_if-Advance :
      (guard : JobRecord → Bool) (id : ℕ) (values : JobRecord → JobRecord) (s : Sys)
      → ((r : JobRecord)
          → get id s.jobs ≡ some r
          → guard r ≡ true
          → Sound env claims s
          → Legal from r (values r) × RowOk (values r))
      → Advance env claims from s (record s { db = (update_if guard id values s.db).1 })
  unfolding update_if
  update_if-Advance guard id values s h = elim (Option-cases (get id s.jobs)) [
    | inl missing ↦
        rw (missing, update_if) (Advance-same_jobs env claims from s s (omega arith) refl)
    | inr (r, found) ↦
        rw (found, update_if)
          (elim (Bool-cases (guard r)) [
            | inl pass ↦ rw pass (
                Advance-put env claims from s _ id r (values r) (omega arith) refl found
                  (h r found pass))
            | inr stop ↦ rw stop (Advance-same_jobs env claims from s s (omega arith) refl)
          ])
  ]

  -- What a fenced write does to the row of the lease that it proves.
  abbrev pub ValuesOk : JobRecord → (JobRecord → JobRecord) → Type 0
  ValuesOk job values =
      (r : JobRecord)
      → RowOk r
      → r.state ≡ running
      → r.attempt ≡ job.attempt
      → Legal from r (values r) × RowOk (values r)

  holder :
      (token : String) (now : ℕ) (r : JobRecord)
      → fence_ok token now r ≡ true
      → r.lease_token ≡ some token
  unfolding fence_ok
  holder token now r h = elim (Option-cases r.lease_token) [
    | inl missing ↦ ground arith
    | inr (t, found) ↦ ground (arith, string_eq.beq_iff t token)
  ]

  carried-eq : (o : Option String) (token : String) → carried o ≡ some token → o ≡ some token
  unfolding carried
  carried-eq none token h = cc
  carried-eq (some t) token h = ground arith

  module _ (job : JobRecord) (mem : In job claims) where
    fenced_update-Advances :
        (token : String) (now : ℕ) (values : JobRecord → JobRecord)
        → job.lease_token ≡ some token
        → ValuesOk job values
        → Advances (store (fenced_update job.id token now values))
    unfolding fenced_update
    fenced_update-Advances token now values carries ok = Advances-store _ (λ s.
        update_if-Advance (fence_ok token now) job.id values s (λ r found pass k.
          let same : r.lease_token ≡ some token = holder token now r pass in
          let row : RowOk r = k.rows job.id r found in
          ok r row (row.leased token same) ((k.held job mem).agree r found (same ∙ sym carries))))

    pub fenced-Advances :
        (now : ℕ) (values : JobRecord → JobRecord)
        → ValuesOk job values
        → Advances (fenced env job now values)
    unfolding fenced
    fenced-Advances now values ok =
        Advances-pick (carried job.lease_token) _ _ (Advances-raise _) (λ token e.
          Advances-bind _ _ (fenced_update-Advances token now values (carried-eq _ token e) ok)
            (λ n. Advances-if (n == 0) _ _ (λ _. Advances-raise _) (λ _. Advances-pure _)))

pub ruleset advance_rules = (
  Advances-pure, Advances-raise, Advances-bind, Advances-pick, Advances-if, Advances-query,
  read_clock-Advances, draw-Advances, new_uuid-Advances, now_or_clock-Advances, fenced-Advances,
)
