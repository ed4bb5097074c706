-- ===== src/Services/Reviews.antt =====
-- Decisions on reviews, and their undoing: src/intel/services/reviews.py. A row is what
-- `save_review` stores. `mutations` tells what the store was asked to apply and to compensate, in
-- order; what the rows' versions are then, and what an application returns, are parameters.
mod Once
mod Decisions
mod Runs
mod Repeats
mod Samples
use semiconductor_intel.Prelude.{
  ℕ, ◌+◌, String, Bool, true, false, not, ◌&&◌, Option, none, some, List, [], ◌∷◌, ◌++◌, all_of,
  ◌==◌, nat_eq, string_eq, if◌then◌else◌,
}
use semiconductor_intel.Prelude.Dict.{Dict, get, put}
use semiconductor_intel.Prelude.Json.{Fields, field, bool, end}
use semiconductor_intel.Prelude.Exec.{Exec, pure, raise, gets, run, pick, ◌>>=◌, ◌>>◌}

pub data ReviewError : Type 0 where
  review_state_error version_conflict : ReviewError

pub data DecisionKind : Type 0 where
  approve reject : DecisionKind

pub data Status : Type 0 where
  pending approved rejected undone : Status

pub record ReviewRecord : Type 0 where
  pub id : ℕ
  pub object_type : String
  pub payload : Fields
  pub status : Status
  pub decided_by : Option ℕ
  pub decided_at : Option ℕ
  pub decision : Option DecisionKind
  pub applied_at : Option ℕ
  pub compensated : Bool
  pub undo_of : Option ℕ

-- A table and an identifier.
abbrev pub Ref : Type 0
Ref = String × ℕ

pub data Mutation : Type 0 where
  applies compensates : ReviewRecord → Mutation

pub data Audit : Type 0 where
  decided : DecisionKind → (review_id actor at : ℕ) → Audit
  undid : (review_id new_review_id actor : ℕ) → Audit

pub record Desk : Type 0 where
  pub reviews : Dict ℕ ReviewRecord
  pub audit : List Audit
  pub mutations : List Mutation
  pub reads : ℕ
  pub mints : ℕ

pub record Sources : Type 0 where
  pub clock : ℕ → ℕ
  pub uuid : ℕ → ℕ
  -- The version of a row after these mutations, if it is there.
  pub row_version : List Mutation → Ref → Option ℕ
  -- What `apply_decision` returns after these mutations.
  pub applied : List Mutation → ReviewRecord → Fields

pub record ReviewOutcome : Type 0 where
  pub review_id : ℕ
  pub status : Status
  pub decision : Option DecisionKind
  pub applied : Bool
  pub result : Fields

abbrev pub M : Type 0 → Type 0
M A = Exec ReviewError Desk A

abbrev pub same_kind : DecisionKind → DecisionKind → Bool
same_kind approve approve = true
same_kind reject reject = true
same_kind _ _ = false

abbrev pub decision_is : Option DecisionKind → DecisionKind → Bool
decision_is none d = false
decision_is (some e) d = same_kind e d

abbrev pub is_decided : Status → Bool
is_decided approved = true
is_decided rejected = true
is_decided _ = false

abbrev pub is_pending : Status → Bool
is_pending pending = true
is_pending _ = false

abbrev pub status_for : DecisionKind → Status
status_for approve = approved
status_for reject = rejected

abbrev pub version_is : Option ℕ → ℕ → Bool
version_is none expected = false
version_is (some v) expected = v == expected

abbrev pub is_set : Option ℕ → Bool
is_set none = false
is_set (some t) = true

unfoldable pub require : ℕ → M ReviewRecord
require id = do
  found ← gets (λ (s : Desk). get id s.reviews)
  pick found (raise review_state_error) pure

unfoldable pub save_review : ReviewRecord → M (Unit {0})
save_review r = run (λ s. (tt, record s { reviews = put r.id r s.reviews }))

unfoldable pub append_audit : Audit → M (Unit {0})
append_audit entry = run (λ s. (tt, record s { audit = s.audit ++ entry ∷ [] }))

module _ (src : Sources) where
  unfoldable pub now : M ℕ
  now = run (λ s. (src.clock s.reads, record s { reads = s.reads + 1 }))

  unfoldable pub new_id : M ℕ
  new_id = run (λ s. (src.uuid s.mints, record s { mints = s.mints + 1 }))

  unfoldable pub apply_decision : ReviewRecord → M Fields
  apply_decision r =
      run (λ s. (src.applied s.mutations r, record s { mutations = s.mutations ++ applies r ∷ [] }))

  unfoldable pub compensate : ReviewRecord → M (Unit {0})
  compensate r = run (λ s. (tt, record s { mutations = s.mutations ++ compensates r ∷ [] }))

  -- Every row still has the version that the client read.
  unfoldable pub versions_match : Dict Ref ℕ → Desk → Bool
  versions_match expected s =
      all_of (λ (e : Ref × ℕ). version_is (src.row_version s.mutations e.0) e.1) expected

  -- The application of an approved review.
  unfoldable pub apply_approved : ReviewRecord → M ReviewOutcome
  unfolding apply_decision now save_review
  apply_approved r = do
    result ← apply_decision r
    t ← now
    save_review (record r { applied_at = some t })
    pure (record {
      review_id = r.id;
      status = r.status;
      decision = r.decision;
      applied = true;
      result = result;
    })

  -- The writes of `decide`, after its checks.
  unfoldable pub record_decision : ReviewRecord → ℕ → DecisionKind → M ReviewOutcome
  unfolding append_audit apply_approved
  record_decision review actor decision = do
    t ← now
    let r : ReviewRecord = record review {
      status = status_for decision;
      decision = some decision;
      decided_by = some actor;
      decided_at = some t;
    }
    save_review r
    append_audit (decided decision r.id actor t)
    if same_kind decision approve
        then apply_approved r
        else pure (record {
          review_id = r.id;
          status = r.status;
          decision = r.decision;
          applied = false;
          result = end;
        })

  unfoldable pub decide : ℕ → ℕ → DecisionKind → Dict Ref ℕ → M ReviewOutcome
  unfolding require record_decision
  decide review_id actor decision expected = do
    review ← require review_id
    if is_decided review.status && decision_is review.decision decision
        then pure (record {
          review_id = review.id;
          status = review.status;
          decision = review.decision;
          applied = false;
          result = field "idempotent" (bool true) end;
        })
        else if not (is_pending review.status)
        then raise review_state_error
        else (do
          unmoved ← gets (versions_match expected)
          if unmoved then record_decision review actor decision else raise version_conflict)

  -- The compensation of a review that was applied: the review afterwards.
  unfoldable pub compensated_review : ReviewRecord → M ReviewRecord
  unfolding compensate
  compensated_review review =
      if is_set review.applied_at
      then (do compensate review; pure (record review { compensated = true }))
      else pure review

  -- The writes of `undo`, after its checks.
  unfoldable pub reopen : ℕ → ReviewRecord → M ReviewOutcome
  unfolding compensated_review new_id
  reopen actor review = do
    r ← compensated_review review
    id ← new_id
    save_review (record r { status = undone })
    save_review (record {
      id = id;
      object_type = r.object_type;
      payload = r.payload;
      status = pending;
      decided_by = none;
      decided_at = none;
      decision = none;
      applied_at = none;
      compensated = false;
      undo_of = some r.id;
    })
    append_audit (undid r.id id actor)
    pure (record {
      review_id = id;
      status = pending;
      decision = none;
      applied = false;
      result = end;
    })

  unfoldable pub undo : ℕ → ℕ → M ReviewOutcome
  unfolding reopen
  undo review_id actor = do
    review ← require review_id
    if not (is_decided review.status)
        then raise review_state_error
        else if review.compensated
        then raise review_state_error
        else reopen actor review
