-- ===== src/Services/Reviews/Decisions.antt =====
-- What a decision leaves of the reviews.
use semiconductor_intel.Prelude.{
  ℕ, ◌+◌, ◌≡◌, refl, sym, ◌∙◌, ap, subst, Bool, true, false, not, ◌&&◌, none, some, ◌==◌, ==_refl,
  nat_eq, string_eq, arith, Bool-cases, Option-cases, inl, inr, ◌⊎◌, if◌then◌else◌,
}
use semiconductor_intel.Prelude.Dict.{Dict, get, put, get-put}
use semiconductor_intel.Prelude.Exec.{
  ok, err, pure, raise, gets, run, pick, ◌>>=◌, Result, bind-ok, bind-err,
}
use semiconductor_intel.Prelude.Json.{field, bool, end}
use semiconductor_intel.Services.Reviews.{
  ReviewRecord, ReviewError, ReviewOutcome, Status, pending, approved, rejected, undone,
  DecisionKind, approve, reject, Desk, Sources, Ref, M, require, save_review, append_audit, now,
  apply_decision, versions_match, apply_approved, record_decision, decide, is_decided, is_pending,
  decision_is, review_state_error, version_conflict,
}
use semiconductor_intel.Services.Reviews.Once.{
  applications, compensations, Standing, Sound, Writes, Writes-Sound, known-taken,
  applications-append,
}

pub put_twice :
    (k x : ℕ) (p q : ReviewRecord) (d : Dict ℕ ReviewRecord)
    → get x (put k q (put k p d)) ≡ (if k == x then some q else get x d)
put_twice k x p q d = elim (Bool-cases (k == x)) [
  | inl same ↦ get-put k x q (put k p d) ∙ rw same refl
  | inr other ↦ get-put k x q (put k p d) ∙ rw other (get-put k x p d ∙ rw other refl)
]

pub own : {b : Bool} → b ≡ true → Path ℕ (if b then 1 else 0) 1
own h = rw h refl

pub alien : {b : Bool} → b ≡ false → Path ℕ (if b then 1 else 0) 0
alien h = rw h refl

pending-status : (b : Status) → is_pending b ≡ true → b ≡ pending
pending-status pending h = refl
pending-status approved h = cc
pending-status rejected h = cc
pending-status undone h = cc

pub decided-status : (b : Status) → is_decided b ≡ true → (b ≡ approved) ⊎ (b ≡ rejected)
decided-status approved h = inl refl
decided-status rejected h = inr refl
decided-status pending h = cc
decided-status undone h = cc

pub require-found :
    (id : ℕ) (review : ReviewRecord) (s : Desk)
    → get id s.reviews ≡ some review
    → require id s ≡ (ok review, s)
unfolding require gets pure raise pick ◌>>=◌
require-found id review s found = rw found refl

pub require-missing :
    (id : ℕ) (s : Desk) → get id s.reviews ≡ none → require id s ≡ (err review_state_error, s)
unfolding require gets pure raise pick ◌>>=◌
require-missing id s missing = rw missing refl

pub branches :
    (again waits : Bool) (p q m n : M ReviewOutcome) (s : Desk)
    → m s ≡ n s
    → (if again then p else if not waits then q else m) s
      ≡ (if again then p else if not waits then q else n) s
branches true waits p q m n s h = refl
branches false false p q m n s h = refl
branches false true p q m n s h = h

abbrev pub Answer : Type 0
Answer = Result ReviewError ReviewOutcome × Desk

module _ (src : Sources) where
  reject-Writes :
      (review : ReviewRecord) (actor : ℕ) (s : Desk)
      → Sound src s
      → get review.id s.reviews ≡ some review
      → review.status ≡ pending
      → (r : ReviewRecord) × Writes src s (record_decision src review actor reject s).1 r
  unfolding record_decision now save_review append_audit pure run ◌>>=◌
  reject-Writes review actor s sound found waits =
      let standing =
        subst
          (λ b.
            Standing b review.applied_at review.compensated (applications review.id s.mutations)
              (compensations review.id s.mutations))
          waits (sound.rows review.id review found) in
      let r : ReviewRecord = record review {
        status = rejected;
        decision = some reject;
        decided_by = some actor;
        decided_at = some (src.clock s.reads);
      } in
      (
        r,
        record {
          written = λ x. get-put review.id x r s.reviews;
          stands = standing;
          others = λ x other. (refl, refl);
          later = omega arith;
          taken = known-taken src s review.id review sound found;
        },
      )

  approve-Writes :
      (review : ReviewRecord) (actor : ℕ) (s : Desk)
      → Sound src s
      → get review.id s.reviews ≡ some review
      → review.status ≡ pending
      → (r : ReviewRecord) × Writes src s (record_decision src review actor approve s).1 r
  unfolding record_decision apply_approved apply_decision now save_review append_audit pure run
      ◌>>=◌
  approve-Writes review actor s sound found waits =
      let (unapplied, uncompensated, a, c) =
        subst
          (λ b.
            Standing b review.applied_at review.compensated (applications review.id s.mutations)
              (compensations review.id s.mutations))
          waits (sound.rows review.id review found) in
      let r : ReviewRecord = record review {
        status = approved;
        decision = some approve;
        decided_by = some actor;
        decided_at = some (src.clock s.reads);
      } in
      let applied : ReviewRecord = record r { applied_at = some (src.clock (s.reads + 1)) } in
      let counts = λ (x : ℕ). applications-append x s.mutations r in
      (
        applied,
        record {
          written = λ x. put_twice review.id x r applied s.reviews;
          stands = (
            (src.clock (s.reads + 1), refl),
            uncompensated,
            omega (arith, (counts review.id).0, a, own (==_refl review.id)),
            (counts review.id).1 ∙ c,
          );
          others = λ x other. (omega (arith, (counts x).0, alien other), (counts x).1);
          later = omega arith;
          taken = known-taken src s review.id review sound found;
        },
      )

  record_decision-Sound :
      (review : ReviewRecord) (actor : ℕ) (decision : DecisionKind) (s : Desk)
      → Sound src s
      → get review.id s.reviews ≡ some review
      → review.status ≡ pending
      → Sound src (record_decision src review actor decision s).1
  record_decision-Sound review actor approve s sound found waits =
      let (r, writes) = approve-Writes review actor s sound found waits in
      Writes-Sound src s _ r sound writes
  record_decision-Sound review actor reject s sound found waits =
      let (r, writes) = reject-Writes review actor s sound found waits in
      Writes-Sound src s _ r sound writes

  abbrev pub after_checks : Bool → Bool → Bool → ReviewRecord → ℕ → DecisionKind → M ReviewOutcome
  after_checks again waits unmoved review actor decision =
      if again
      then pure (record {
        review_id = review.id;
        status = review.status;
        decision = review.decision;
        applied = false;
        result = field "idempotent" (bool true) end;
      })
      else if not waits
      then raise review_state_error
      else if unmoved
      then record_decision src review actor decision
      else raise version_conflict

  -- `decide` on a review that is there.
  pub decide-found :
      (id actor : ℕ) (decision : DecisionKind) (expected : Dict Ref ℕ) (s : Desk)
      (review : ReviewRecord)
      → get id s.reviews ≡ some review
      → decide src id actor decision expected s
        ≡ after_checks
            (is_decided review.status && decision_is review.decision decision)
            (is_pending review.status)
            (versions_match src expected s)
            review
            actor
            decision
            s
  unfolding decide gets ◌>>=◌
  decide-found id actor decision expected s review found =
      bind-ok (require id) _ s s review (require-found id review s found)
      ∙ branches (is_decided review.status && decision_is review.decision decision)
          (is_pending review.status) _ _ _ _ s refl

  pub decide-missing :
      (id actor : ℕ) (decision : DecisionKind) (expected : Dict Ref ℕ) (s : Desk)
      → get id s.reviews ≡ none
      → decide src id actor decision expected s ≡ (err review_state_error, s)
  unfolding decide
  decide-missing id actor decision expected s missing =
      bind-err (require id) _ s s review_state_error (require-missing id s missing)

  after_checks-Sound :
      (again waits unmoved : Bool) (review : ReviewRecord) (actor : ℕ) (decision : DecisionKind)
      (s : Desk)
      → Sound src s
      → get review.id s.reviews ≡ some review
      → (waits ≡ true → review.status ≡ pending)
      → Sound src (after_checks again waits unmoved review actor decision s).1
  unfolding pure raise
  after_checks-Sound true waits unmoved review actor decision s sound found h = sound
  after_checks-Sound false false unmoved review actor decision s sound found h = sound
  after_checks-Sound false true false review actor decision s sound found h = sound
  after_checks-Sound false true true review actor decision s sound found h =
      record_decision-Sound review actor decision s sound found (h refl)

  pub decide-Sound :
      (id actor : ℕ) (decision : DecisionKind) (expected : Dict Ref ℕ) (s : Desk)
      → Sound src s
      → Sound src (decide src id actor decision expected s).1
  decide-Sound id actor decision expected s sound = elim (Option-cases (get id s.reviews)) [
    | inl missing ↦
        subst (λ (x : Answer). Sound src x.1)
          (sym (decide-missing id actor decision expected s missing)) sound
    | inr (review, found) ↦
        subst (λ (x : Answer). Sound src x.1)
          (sym (decide-found id actor decision expected s review found))
          (after_checks-Sound _ (is_pending review.status) _ review actor decision s sound
            (ap (λ x. get x s.reviews) (sound.named id review found) ∙ found)
            (pending-status review.status))
  ]
