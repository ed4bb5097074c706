-- ===== src/Services/Reviews/Samples.antt =====
-- A review of a merge: approved, approved again, undone, and refused over a moved row.
use semiconductor_intel.Prelude.{
  ℕ, ◌+◌, ◌≤◌, ◌≡◌, ◌↔◌, refl, sym, ap, ◌∙◌, true, false, Option, none, some, [], ◌∷◌, arith,
  nat_eq, ◌==◌, ◌&&◌, ◌⊎◌, Bool-cases, inl, inr, subst, string_eq,
}
use semiconductor_intel.Prelude.Dict.{Dict, get, put}
use semiconductor_intel.Prelude.Json.{end}
use semiconductor_intel.Prelude.Exec.{ok, err, pure, raise, gets, run, pick, ◌>>=◌}
use semiconductor_intel.Services.Reviews.{
  ReviewRecord, ReviewOutcome, pending, approved, undone, approve, Desk, Sources, Ref, require,
  save_review, append_audit, now, new_id, apply_decision, compensate, versions_match,
  apply_approved, record_decision, decide, compensated_review, reopen, undo, version_conflict,
  is_pending, is_decided, decision_is, ReviewError, review_state_error,
}
use semiconductor_intel.Services.Reviews.Once.{applications, compensations, Sound, Stands}
use semiconductor_intel.Services.Reviews.Runs.{start, decides, undoes, Run-Standing}
use semiconductor_intel.Services.Reviews.Repeats.{Moved, decide-again, decide-refused}

-- What the operations unfold to.
program : Unit {0}
unfolding decide undo require save_review append_audit now new_id apply_decision compensate
    versions_match apply_approved record_decision compensated_review reopen get put pure raise gets
    run pick ◌>>=◌
program = tt

abbrev sources : Sources
sources = record {
  clock = λ n. n;
  uuid = λ n. 100 + n;
  row_version = λ ms ref. some 4;
  applied = λ ms r. end;
}

abbrev merge_review : ReviewRecord
merge_review = record {
  id = 1;
  object_type = "event_merge";
  payload = end;
  status = pending;
  decided_by = none;
  decided_at = none;
  decision = none;
  applied_at = none;
  compensated = false;
  undo_of = none;
}

abbrev opened : Desk
opened = record {
  reviews = (1, merge_review) ∷ [];
  audit = [];
  mutations = [];
  reads = 0;
  mints = 0;
}

none-some : {r : ReviewRecord} → Path (Option ReviewRecord) none (some r) → ⊥
none-some e = cc

some_injective : {p q : ReviewRecord} → Path (Option ReviewRecord) (some p) (some q) → p ≡ q
some_injective e = cc

only : (id : ℕ) (r : ReviewRecord) → get id opened.reviews ≡ some r → (1 ≡ id) × (merge_review ≡ r)
unfolding get
only id r found = elim (Bool-cases (1 == id)) [
  | inl same ↦ ((nat_eq.beq_iff 1 id).0 same, some_injective (sym (rw same refl) ∙ found))
  | inr other ↦ absurd (none-some (sym (rw other refl) ∙ found))
]

opened-Sound : Sound sources opened
unfolding get
opened-Sound = record {
  named = λ id r found.
      let (one, is) = only id r found in ap (λ (x : ReviewRecord). x.id) (sym is) ∙ one;
  rows = λ id r found. subst (λ x. Stands x []) (only id r found).1 (refl, refl, refl, refl);
  strangers = λ id missing. (refl, refl);
  fresh = λ n above. ground arith;
  apart = λ m n same. omega (arith, same);
}

abbrev versions : ℕ → Dict Ref ℕ
versions v = (("events", 5), v) ∷ []

abbrev approval : Desk
approval = (decide sources 1 9 approve (versions 4) opened).1

abbrev outcome : ReviewOutcome
outcome = record {
  review_id = 1;
  status = approved;
  decision = some approve;
  applied = true;
  result = end;
}

approves : decide sources 1 9 approve (versions 4) opened ≡ (ok outcome, approval)
unfolding program
approves = refl

refuses : decide sources 1 9 approve (versions 3) opened ≡ (err version_conflict, opened)
unfolding program
refuses = refl

-- Approved, approved again and undone.
Run-Standing_example :
    Sound sources (undo sources 1 9 (decide sources 1 8 approve [] approval).1).1
    × ((id : ℕ) (r : ReviewRecord)
        → get id (undo sources 1 9 (decide sources 1 8 approve [] approval).1).1.reviews ≡ some r
        → (applications r.id
              (undo sources 1 9 (decide sources 1 8 approve [] approval).1).1.mutations
            ≤ 1)
          × (compensations r.id
                (undo sources 1 9 (decide sources 1 8 approve [] approval).1).1.mutations
              ≤ applications r.id
                  (undo sources 1 9 (decide sources 1 8 approve [] approval).1).1.mutations)
          × (r.status ≡ undone
              → compensations r.id
                  (undo sources 1 9 (decide sources 1 8 approve [] approval).1).1.mutations
                ≡ applications r.id
                    (undo sources 1 9 (decide sources 1 8 approve [] approval).1).1.mutations))
Run-Standing_example =
    Run-Standing sources opened (undo sources 1 9 (decide sources 1 8 approve [] approval).1).1
      opened-Sound (undoes 1 9 (decides 1 8 approve [] (decides 1 9 approve (versions 4) start)))

decide-again_example :
    (repeated : ReviewOutcome) × (decide sources 1 8 approve [] approval ≡ (ok repeated, approval))
    × (repeated.status ≡ approved)
    × (repeated.decision ≡ some approve)
    × (repeated.applied ≡ false)
decide-again_example =
    decide-again sources 1 9 approve (versions 4) opened approval outcome (opened-Sound.named 1)
      approves 8 []

decide-refused_example :
    ((decide sources 1 9 approve (versions 3) opened ≡ (err version_conflict, opened)) ↔ (
      (r : ReviewRecord) × (get 1 opened.reviews ≡ some r)
      × (r.status ≡ pending)
      × Moved sources (versions 3) opened))
    × ((decide sources 1 9 approve (versions 3) opened ≡ (err review_state_error, opened)) ↔ (
        (get 1 opened.reviews ≡ none)
        ⊎ ((r : ReviewRecord) × (get 1 opened.reviews ≡ some r)
            × (is_pending r.status ≡ false)
            × ((is_decided r.status && decision_is r.decision approve) ≡ false))))
    × ((e : ReviewError)
        → (decide sources 1 9 approve (versions 3) opened).0 ≡ err e
        → decide sources 1 9 approve (versions 3) opened ≡ (err e, opened))
decide-refused_example = decide-refused sources 1 9 approve (versions 3) opened
