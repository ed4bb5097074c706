-- ===== src/Queue/Lifecycle/RowUpdates.antt =====
-- The row updates of the service keep a row's conditions and are legal changes.
use semiconductor_intel.Prelude.{
  sym, ◌∙◌, subst, ℕ, ◌<◌, String, ◌≡◌, refl, inl, inr, true, false, Option, none, some, List,
  arith, nat_eq, string_eq,
}
use semiconductor_intel.Prelude.Json.{Fields}
use semiconductor_intel.Queue.Rows.{JobRecord, is_retry_wait, JobState, running}
use semiconductor_intel.Queue.Effects.{Env}
use semiconductor_intel.Queue.Rules.{
  reap_failed_row, reap_retry_row, touch, step_row, finish_row, retry_row,
}
use semiconductor_intel.Queue.Lifecycle.{Legal, RowOk, taken, budget_of}
use semiconductor_intel.Queue.Lifecycle.Methods.{ValuesOk}

module _ (env : Env) (claims : List JobRecord) where
  -- The row keeps its state.
  pub keeps_state :
      {from : JobState} (r r' : JobRecord)
      → RowOk r
      → r'.id ≡ r.id
      → r'.attempt ≡ r.attempt
      → r'.max_attempts ≡ r.max_attempts
      → r'.lease_token ≡ r.lease_token
      → r'.state ≡ r.state
      → Legal from r r' × RowOk r'
  keeps_state r r' ok i a b l st = (
    record { id = i; attempt = a; budget = b; lease = inr l; state = inl st },
    record {
      leased = λ t e. st ∙ ok.leased t (sym l ∙ e);
      bounded = ground (arith, ok.bounded);
      spare = λ e. ground (arith, ok.spare);
      parked = λ e. ground (arith, ok.parked);
    },
  )

  -- The row leaves `running` and its lease.
  pub releases :
      (r r' : JobRecord)
      → RowOk r
      → r.state ≡ running
      → r'.id ≡ r.id
      → r'.attempt ≡ r.attempt
      → r'.max_attempts ≡ r.max_attempts
      → r'.lease_token ≡ none
      → taken running r'.state ≡ true
      → (is_retry_wait r'.state ≡ true → r.attempt < budget_of r)
      → Legal running r r' × RowOk r'
  unfolding taken
  releases r r' ok is i a b l st parked = (
    record { id = i; attempt = a; budget = b; lease = inl l; state = inr (is, st) },
    record {
      leased = λ t e. cc (sym l ∙ e);
      bounded = ground (arith, ok.bounded);
      spare = λ e. ground arith;
      parked = λ e. ground (arith, parked e);
    },
  )

  pub touch-ValuesOk : (job : JobRecord) (now : ℕ) → ValuesOk env claims running job (touch now)
  unfolding touch
  touch-ValuesOk job now r ok is same = keeps_state r _ ok refl refl refl refl refl

  pub step_row-ValuesOk :
      (job : JobRecord) (now : ℕ) (base : Fields) (progress : Option Fields)
      → ValuesOk env claims running job (step_row now base progress)
  unfolding step_row
  step_row-ValuesOk job now base none r ok is same = keeps_state r _ ok refl refl refl refl refl
  step_row-ValuesOk job now base (some more) r ok is same =
      keeps_state r _ ok refl refl refl refl refl

  pub retry_row-ValuesOk :
      (job : JobRecord) (now available : ℕ) (error : Fields)
      → job.attempt < 5
      → ValuesOk env claims running job (retry_row now available error)
  unfolding retry_row taken
  retry_row-ValuesOk job now available error low r ok is same =
      releases r _ ok is refl refl refl refl refl (λ _. omega (arith, same, low))

  pub finish_row-ValuesOk :
      (job : JobRecord) (state : JobState) (now : ℕ) (output_ref : Option String)
      (error : Option Fields) (base : Fields) (progress : Option Fields)
      → taken running state ≡ true
      → is_retry_wait state ≡ false
      → ValuesOk env claims running job (finish_row state now output_ref error base progress)
  unfolding finish_row
  finish_row-ValuesOk job state now output_ref error base progress t w r ok is same =
      releases r _ ok is (ground arith) (ground arith) (ground arith) (ground arith)
        (subst (λ x. taken running x ≡ true) (ground arith) t) (λ e. ground arith)

  pub reap_failed_row-Legal :
      (error : Fields) (r : JobRecord)
      → RowOk r
      → r.state ≡ running
      → Legal running r (reap_failed_row error r) × RowOk (reap_failed_row error r)
  unfolding reap_failed_row taken
  reap_failed_row-Legal error r safe is =
      releases r _ safe is refl refl refl refl refl (λ e. ground arith)

  pub reap_retry_row-Legal :
      (available : ℕ) (error : Fields) (r : JobRecord)
      → RowOk r
      → r.state ≡ running
      → r.attempt < budget_of r
      → Legal running r (reap_retry_row available error r)
        × RowOk (reap_retry_row available error r)
  unfolding reap_retry_row taken
  reap_retry_row-Legal available error r safe is room =
      releases r _ safe is refl refl refl refl refl (λ _. room)
