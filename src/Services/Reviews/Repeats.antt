-- ===== src/Services/Reviews/Repeats.antt =====
-- Decisions that are delivered again, and refusals.
use semiconductor_intel.Prelude.{
  ℕ, ◌≡◌, refl, sym, ◌∙◌, ap, subst, Bool, true, false, ◌&&◌, Option, none, some, nat_eq, string_eq,
  arith, Option-cases, Bool-cases, inl, inr, ◌↔◌, ◌⊎◌, In, [], ◌∷◌,
}
use semiconductor_intel.Prelude.Dict.{Dict, get, get-put_self}
use semiconductor_intel.Prelude.Json.{field, bool, end}
use semiconductor_intel.Prelude.Exec.{ok, err, pure, raise, run, ◌>>=◌}
use semiconductor_intel.Services.Reviews.{
  ReviewRecord, ReviewError, ReviewOutcome, Status, pending, DecisionKind, approve, reject, Desk,
  Sources, Ref, save_review, append_audit, now, apply_decision, versions_match, apply_approved,
  record_decision, decide, is_decided, is_pending, decision_is, version_conflict,
  review_state_error, version_is,
}
use semiconductor_intel.Services.Reviews.Decisions.{
  decide-found, decide-missing, after_checks, Answer,
}

ok-err : {o : ReviewOutcome} {e : ReviewError} {s t : Desk} → Path Answer (ok o, s) (err e, t) → ⊥
ok-err h = cc

err-desk : {e f : ReviewError} {s t : Desk} → Path Answer (err e, s) (err f, t) → s ≡ t
err-desk h = cc

err-kind : {e f : ReviewError} {s t : Desk} → Path Answer (err e, s) (err f, t) → e ≡ f
err-kind h = cc

kinds : review_state_error ≡ version_conflict → ⊥
kinds h = cc

true-false : true ≡ false → ⊥
true-false h = cc

none-some : {r : ReviewRecord} → Path (Option ReviewRecord) none (some r) → ⊥
none-some h = cc

some_injective : {p q : ReviewRecord} → Path (Option ReviewRecord) (some p) (some q) → p ≡ q
some_injective h = cc

-- The row under the identifier has that identifier.
abbrev pub Named : ℕ → Desk → Type 0
Named id s = (r : ReviewRecord) → get id s.reviews ≡ some r → r.id ≡ id

number_injective : {m n : ℕ} → Path (Option ℕ) (some m) (some n) → m ≡ n
number_injective h = cc

module _ (src : Sources) where
  -- A decided review, and the outcome that tells its status and decision.
  abbrev Settled : ℕ → DecisionKind → ReviewOutcome → Desk → Type 0
  Settled id decision outcome t =
      (r : ReviewRecord) × (get id t.reviews ≡ some r)
      × (is_decided r.status ≡ true)
      × (decision_is r.decision decision ≡ true)
      × (outcome.status ≡ r.status)
      × (outcome.decision ≡ r.decision)

  record_decision-Settled :
      (review : ReviewRecord) (actor : ℕ) (decision : DecisionKind) (s : Desk)
      → (outcome : ReviewOutcome) × (t : Desk) × (record_decision src review actor decision s
          ≡ (ok outcome, t))
        × Settled review.id decision outcome t
  unfolding record_decision apply_approved apply_decision now save_review append_audit pure run
      ◌>>=◌
  record_decision-Settled review actor approve s =
      (_, _, refl, (_, get-put_self review.id _ _, refl, refl, refl, refl))
  record_decision-Settled review actor reject s =
      (_, _, refl, (_, get-put_self review.id _ _, refl, refl, refl, refl))

  abbrev SettledBy : ℕ → DecisionKind → Answer → Type 0
  SettledBy id decision (ok outcome, t) = Settled id decision outcome t
  SettledBy id decision (err e, t) = ⊥

  after_checks-Settled :
      (again waits unmoved : Bool) (review : ReviewRecord) (actor : ℕ) (decision : DecisionKind)
      (s t : Desk) (outcome : ReviewOutcome)
      → get review.id s.reviews ≡ some review
      → (again ≡ true → (is_decided review.status && decision_is review.decision decision) ≡ true)
      → after_checks src again waits unmoved review actor decision s ≡ (ok outcome, t)
      → Settled review.id decision outcome t
  unfolding pure raise
  after_checks-Settled true waits unmoved review actor decision s t outcome found h is =
      subst (λ (x : Answer). SettledBy review.id decision x) is
        (review, found, ground (arith, h refl), ground (arith, h refl), refl, refl)
  after_checks-Settled false false unmoved review actor decision s t outcome found h is = absurd cc
  after_checks-Settled false true false review actor decision s t outcome found h is = absurd cc
  after_checks-Settled false true true review actor decision s t outcome found h is =
      let (o, u, done, settled) = record_decision-Settled review actor decision s in
      subst (λ (x : Answer). SettledBy review.id decision x) (sym done ∙ is) settled

  decide-Settled :
      (id actor : ℕ) (decision : DecisionKind) (expected : Dict Ref ℕ) (s t : Desk)
      (outcome : ReviewOutcome)
      → Named id s
      → decide src id actor decision expected s ≡ (ok outcome, t)
      → Settled id decision outcome t
  decide-Settled id actor decision expected s t outcome named_s is =
      elim (Option-cases (get id s.reviews)) [
        | inl missing ↦
            absurd (ok-err (sym is ∙ decide-missing src id actor decision expected s missing))
        | inr (review, found) ↦
            let named : review.id ≡ id = named_s review found in
            subst (λ i. Settled i decision outcome t) named
              (after_checks-Settled
                (is_decided review.status && decision_is review.decision decision)
                (is_pending review.status) (versions_match src expected s) review actor decision s t
                outcome (ap (λ i. get i s.reviews) named ∙ found) (λ h. h)
                (sym (decide-found src id actor decision expected s review found) ∙ is))
      ]

  -- If the review's row is stored under its own identifier: when a decision was returned, the same
  -- decision on that review, by anyone and whatever versions it expects, returns the same status
  -- and decision, says that it applied nothing, and leaves the store as it is.
  pub decide-again :
      (id actor : ℕ) (decision : DecisionKind) (expected : Dict Ref ℕ) (s t : Desk)
      (outcome : ReviewOutcome)
      → Named id s
      → decide src id actor decision expected s ≡ (ok outcome, t)
      → (other : ℕ) (expected' : Dict Ref ℕ)
      → (repeated : ReviewOutcome) × (decide src id other decision expected' t ≡ (ok repeated, t))
        × (repeated.status ≡ outcome.status)
        × (repeated.decision ≡ outcome.decision)
        × (repeated.applied ≡ false)
  unfolding pure
  decide-again id actor decision expected s t outcome named is other expected' =
      let (r, found, over, same, status, decided) =
        decide-Settled id actor decision expected s t outcome named is in
      let again : (is_decided r.status && decision_is r.decision decision) ≡ true =
        ground (arith, over, same) in
      (
        record {
          review_id = r.id;
          status = r.status;
          decision = r.decision;
          applied = false;
          result = field "idempotent" (bool true) end;
        },
        decide-found src id other decision expected' t r found ∙ rw again refl,
        sym status,
        sym decided,
        refl,
      )

  -- What the answers of `decide` say of the checks, by their flags.
  abbrev Verdict : Bool → Bool → Bool → Answer → Desk → Type 0
  Verdict again waits unmoved answer s =
      ((answer ≡ (err version_conflict, s))
        ↔ ((again ≡ false) × (waits ≡ true) × (unmoved ≡ false)))
      × ((answer ≡ (err review_state_error, s)) ↔ ((again ≡ false) × (waits ≡ false)))
      × ((e : ReviewError) → answer.0 ≡ err e → answer ≡ (err e, s))

  verdict :
      (again waits unmoved : Bool) (review : ReviewRecord) (actor : ℕ) (decision : DecisionKind)
      (s : Desk)
      → Verdict again waits unmoved (after_checks src again waits unmoved review actor decision s) s
  unfolding pure raise
  verdict true waits unmoved review actor decision s = (
    ((λ h. absurd (ok-err h)), λ h. absurd (true-false h.0)),
    ((λ h. absurd (ok-err h)), λ h. absurd (true-false h.0)),
    (λ e h. cc),
  )
  verdict false false unmoved review actor decision s = (
    ((λ h. absurd (kinds (err-kind h))), λ h. absurd (true-false (sym h.1))),
    ((λ h. (refl, refl)), λ h. refl),
    (λ e h. cc),
  )
  verdict false true false review actor decision s = (
    ((λ h. (refl, refl, refl)), λ h. refl),
    ((λ h. absurd (kinds (sym (err-kind h)))), λ h. absurd (true-false h.1)),
    (λ e h. cc),
  )
  verdict false true true review actor decision s =
      let (o, u, done, settled) = record_decision-Settled review actor decision s in
      (
        ((λ h. absurd (ok-err (sym done ∙ h))), λ h. absurd (true-false h.2)),
        ((λ h. absurd (ok-err (sym done ∙ h))), λ h. absurd (true-false h.1)),
        (λ e h. cc),
      )

  -- A row that the client read has another version now, or is gone.
  abbrev pub Moved : Dict Ref ℕ → Desk → Type 0
  Moved expected s =
      (e : Ref × ℕ) × In e expected × (src.row_version s.mutations e.0 ≡ some e.1 → ⊥)

  version_is-eq : (o : Option ℕ) (v : ℕ) → (version_is o v ≡ true) ↔ (o ≡ some v)
  version_is-eq none v = ((λ h. cc), λ h. cc)
  version_is-eq (some w) v =
      ((λ h. ap some ((nat_eq.beq_iff w v).0 h)), λ h. (nat_eq.beq_iff w v).1 (number_injective h))

  versions_match-Moved :
      (expected : Dict Ref ℕ) (s : Desk)
      → (versions_match src expected s ≡ false) ↔ Moved expected s
  unfolding versions_match
  versions_match-Moved [] s = ((λ h. cc), λ (e, m, other). absurd m)
  versions_match-Moved (x ∷ expected) s =
      let (rest, rest') = versions_match-Moved expected s in
      let (same, same') = version_is-eq (src.row_version s.mutations x.0) x.1 in
      elim (Bool-cases (version_is (src.row_version s.mutations x.0) x.1)) [
        | inl kept ↦ rw kept (
          (λ h. let (e, m, other) = rest h in (e, inr m, other)),
          λ (e, m, other). elim m [
            | inl is ↦ absurd (
                other (
                  ap (λ (y : Ref × ℕ). src.row_version s.mutations y.0) is
                  ∙ same kept
                  ∙ ap (λ (y : Ref × ℕ). some y.1) (sym is)))
            | inr later ↦ rest' (e, later, other)
          ],
        )
        | inr moved ↦
            rw moved ((λ h. (x, inl refl, λ is. true-false (sym (same' is) ∙ moved))), λ h. refl)
      ]

  waiting : (b : Status) → is_pending b ≡ true → b ≡ pending
  waiting pending h = refl
  waiting Status.approved h = cc
  waiting Status.rejected h = cc
  waiting Status.undone h = cc

  waiting-fresh : (b : Status) (d : Bool) → b ≡ pending → (is_decided b && d) ≡ false
  waiting-fresh b d h = rw h refl

  -- A decision is refused in two cases only, and then the store stays as it was: as a version
  -- conflict exactly when the review is pending and one of the rows that the client read has
  -- another version now or is gone, and as a state error exactly when the review is not there, or
  -- is neither pending nor decided in the same way.
  pub decide-refused :
      (id actor : ℕ) (decision : DecisionKind) (expected : Dict Ref ℕ) (s : Desk)
      → ((decide src id actor decision expected s ≡ (err version_conflict, s)) ↔ (
          (r : ReviewRecord) × (get id s.reviews ≡ some r)
          × (r.status ≡ pending)
          × Moved expected s))
        × ((decide src id actor decision expected s ≡ (err review_state_error, s)) ↔ (
            (get id s.reviews ≡ none)
            ⊎ ((r : ReviewRecord) × (get id s.reviews ≡ some r)
                × (is_pending r.status ≡ false)
                × ((is_decided r.status && decision_is r.decision decision) ≡ false))))
        × ((e : ReviewError)
            → (decide src id actor decision expected s).0 ≡ err e
            → decide src id actor decision expected s ≡ (err e, s))
  decide-refused id actor decision expected s = elim (Option-cases (get id s.reviews)) [
    | inl missing ↦ rw (decide-missing src id actor decision expected s missing) (
      (
        (λ h. absurd (kinds (err-kind h))),
        λ (r, found, waits, moved). absurd (none-some (sym missing ∙ found)),
      ),
      ((λ h. inl missing), λ h. refl),
      (λ e h. cc),
    )
    | inr (review, found) ↦
        let again = is_decided review.status && decision_is review.decision decision in
        let (conflict, state, kept) =
          verdict again (is_pending review.status) (versions_match src expected s) review actor
            decision s in
        let is_it = λ (r : ReviewRecord) (there : get id s.reviews ≡ some r).
          some_injective (sym found ∙ there) in
        rw (decide-found src id actor decision expected s review found) (
          (
            (λ h.
                let (fresh, waits, moved) = conflict.0 h in
                (
                  review,
                  found,
                  waiting review.status waits,
                  (versions_match-Moved expected s).0 moved,
                )),
            λ (r, there, waits, moved).
                let waits' : review.status ≡ pending =
                  ap (λ (x : ReviewRecord). x.status) (is_it r there) ∙ waits in
                conflict.1 (
                  waiting-fresh review.status (decision_is review.decision decision) waits',
                  ap is_pending waits',
                  (versions_match-Moved expected s).1 moved,
                ),
          ),
          (
            (λ h. let (fresh, waits) = state.0 h in inr (review, found, waits, fresh)),
            λ h. state.1 (elim h [
              | inl missing ↦ absurd (none-some (sym missing ∙ found))
              | inr (r, there, waits, fresh) ↦
                  subst
                    (λ (x : ReviewRecord).
                      ((is_decided x.status && decision_is x.decision decision) ≡ false)
                      × (is_pending x.status ≡ false))
                    (sym (is_it r there)) (fresh, waits)
            ]),
          ),
          kept,
        )
  ]
