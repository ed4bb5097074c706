-- ===== src/Services/Reviews/Runs.antt =====
-- What an undoing leaves of the reviews, and every sequence of decisions and undoings.
use semiconductor_intel.Prelude.{
  ℕ, ◌+◌, ◌≤◌, ◌≡◌, refl, sym, ◌∙◌, ap, subst, Bool, true, false, not, Option, none, some, [], ◌∷◌,
  ◌++◌, ◌==◌, ==_refl, nat_eq, string_eq, arith, Bool-cases, Option-cases, inl, inr, if◌then◌else◌,
}
use semiconductor_intel.Prelude.Dict.{Dict, get, put, get-put}
use semiconductor_intel.Prelude.Exec.{ok, err, pure, raise, run, ◌>>=◌, bind-ok, bind-err}
use semiconductor_intel.Services.Reviews.{
  ReviewRecord, ReviewOutcome, Status, pending, approved, rejected, undone, DecisionKind,
  compensates, Desk, Sources, Ref, require, save_review, append_audit, new_id, compensate, decide,
  compensated_review, reopen, undo, is_decided, is_set, review_state_error, undid,
}
use semiconductor_intel.Services.Reviews.Once.{
  applications, compensations, Standing, Sound, Writes-Sound, known-taken, compensations-append,
}
use semiconductor_intel.Services.Reviews.Decisions.{
  own, alien, require-found, require-missing, decide-Sound, Answer,
}

-- The new review of an undoing.
abbrev successor : ℕ → ReviewRecord → ReviewRecord
successor id r = record {
  id = id;
  object_type = r.object_type;
  payload = r.payload;
  status = pending;
  decided_by = none;
  decided_at = none;
  decision = none;
  applied_at = none;
  compensated = false;
  undo_of = some r.id;
}

abbrev closed : ReviewRecord → ReviewRecord
closed r = record r { status = undone }

-- The store when the undone review was saved and its successor was not.
abbrev half_way : ReviewRecord → Desk → Desk
half_way r s = record s { reviews = put r.id (closed r) s.reviews }

module _ (src : Sources) where
  -- The new review and the audit entry are written.
  abbrev succeeded : ReviewRecord → ℕ → Desk → Desk
  succeeded r actor t = record t {
    reviews = put (src.uuid t.mints) (successor (src.uuid t.mints) r) t.reviews;
    mints = t.mints + 1;
    audit = t.audit ++ undid r.id (src.uuid t.mints) actor ∷ [];
  }

  succeeded-Sound :
      (r : ReviewRecord) (actor : ℕ) (t : Desk) → Sound src t → Sound src (succeeded r actor t)
  succeeded-Sound r actor t sound =
      let id : ℕ = src.uuid t.mints in
      let (a, c) = sound.strangers id (sound.fresh t.mints (omega arith)) in
      Writes-Sound src t (succeeded r actor t) (successor id r) sound (record {
        written = λ x. get-put id x (successor id r) t.reviews;
        stands = (refl, refl, a, c);
        others = λ x other. (refl, refl);
        later = omega arith;
        taken = λ n above same. omega (arith, above, sound.apart t.mints n same);
      })

  -- The undone review, compensated or not.
  half_way-Sound :
      (r : ReviewRecord) (s t : Desk)
      → Sound src s
      → get r.id s.reviews ≡ some r
      → (kept : ReviewRecord) → kept.id ≡ r.id
      → t.reviews ≡ s.reviews
      → t.mints ≡ s.mints
      → (applications r.id t.mutations ≤ 1)
        × (compensations r.id t.mutations ≡ applications r.id t.mutations)
      → ((x : ℕ)
          → (r.id == x) ≡ false
          → (applications x t.mutations ≡ applications x s.mutations)
            × (compensations x t.mutations ≡ compensations x s.mutations))
      → Sound src (half_way kept t)
  half_way-Sound r s t sound found kept same rows mints stands others =
      Writes-Sound src s (half_way kept t) (closed kept) sound (record {
        written = λ x.
            ap (λ d. get x (put kept.id (closed kept) d)) rows
            ∙ get-put kept.id x (closed kept) s.reviews;
        stands =
            subst
              (λ i.
                (applications i t.mutations ≤ 1)
                × (compensations i t.mutations ≡ applications i t.mutations))
              (sym same) stands;
        others = λ x other. others x (ap (λ i. i == x) (sym same) ∙ other);
        later = omega (arith, mints);
        taken = λ n above is.
            known-taken src s r.id r sound found n (omega (arith, mints, above)) (sym same ∙ is);
      })

  reopen-result :
      (actor : ℕ) (review r : ReviewRecord) (s t : Desk)
      → compensated_review src review s ≡ (ok r, t)
      → (outcome : ReviewOutcome) × (reopen src actor review s
          ≡ (ok outcome, succeeded r actor (half_way r t)))
  unfolding reopen new_id save_review append_audit run pure ◌>>=◌
  reopen-result actor review r s t is =
      (_, bind-ok (compensated_review src review) _ s t r is ∙ refl)

  set-result :
      (review : ReviewRecord) (s : Desk)
      → is_set review.applied_at ≡ true
      → compensated_review src review s ≡ (
        ok (record review { compensated = true }),
        record s { mutations = s.mutations ++ compensates review ∷ [] },
      )
  unfolding compensated_review compensate run pure ◌>>=◌
  set-result review s set = rw set refl

  unset-result :
      (review : ReviewRecord) (s : Desk)
      → is_set review.applied_at ≡ false
      → compensated_review src review s ≡ (ok review, s)
  unfolding compensated_review pure
  unset-result review s unset = rw unset refl

  -- A decided review was applied once if its application has a time, and never else.
  set-Standing :
      (status : Status) (o : Option ℕ) (b : Bool) (a c : ℕ)
      → is_decided status ≡ true
      → is_set o ≡ true
      → Standing status o b a c
      → (a ≡ 1) × (c ≡ 0)
  set-Standing approved o b a c over set (time, kept, once, never) = (once, never)
  set-Standing rejected none b a c over set standing = cc
  set-Standing rejected (some t) b a c over set (unapplied, u, v, w) = absurd cc
  set-Standing pending o b a c over set standing = cc
  set-Standing undone o b a c over set standing = cc

  unset-Standing :
      (status : Status) (o : Option ℕ) (b : Bool) (a c : ℕ)
      → is_decided status ≡ true
      → is_set o ≡ false
      → Standing status o b a c
      → (a ≡ 0) × (c ≡ 0)
  unset-Standing approved none b a c over unset ((t, is), u, v, w) = absurd cc
  unset-Standing approved (some t) b a c over unset standing = cc
  unset-Standing rejected o b a c over unset (unapplied, kept, never, neither) = (never, neither)
  unset-Standing pending o b a c over unset standing = cc
  unset-Standing undone o b a c over unset standing = cc

  reopen-Sound :
      (actor : ℕ) (review : ReviewRecord) (s : Desk)
      → Sound src s
      → get review.id s.reviews ≡ some review
      → is_decided review.status ≡ true
      → Sound src (reopen src actor review s).1
  reopen-Sound actor review s sound found over =
      let standing = sound.rows review.id review found in
      elim (Bool-cases (is_set review.applied_at)) [
        | inl set ↦
            let (a, c) = set-Standing review.status _ _ _ _ over set standing in
            let r : ReviewRecord = record review { compensated = true } in
            let t : Desk = record s { mutations = s.mutations ++ compensates review ∷ [] } in
            let (o, is) = reopen-result actor review r s t (set-result review s set) in
            let counts = λ (x : ℕ). compensations-append x s.mutations review in
            let (same, more) = counts review.id in
            subst (λ (x : Answer). Sound src x.1) (sym is)
              (succeeded-Sound r actor (half_way r t) (
                half_way-Sound review s t sound found r refl refl refl
                  (omega (arith, same, a), omega (arith, same, more, a, c, own (==_refl review.id)))
                  (λ x other. ((counts x).0, omega (arith, (counts x).1, alien other)))))
        | inr unset ↦
            let (a, c) = unset-Standing review.status _ _ _ _ over unset standing in
            let (o, is) = reopen-result actor review review s s (unset-result review s unset) in
            subst (λ (x : Answer). Sound src x.1) (sym is)
              (succeeded-Sound review actor (half_way review s) (
                half_way-Sound review s s sound found review refl refl refl
                  (omega (arith, a), omega (arith, a, c)) (λ x other. (refl, refl))))
      ]

  -- `undo` on a review that is there.
  undo-found :
      (id actor : ℕ) (s : Desk) (review : ReviewRecord)
      → get id s.reviews ≡ some review
      → undo src id actor s
        ≡ (if not (is_decided review.status)
              then raise review_state_error
              else if review.compensated
              then raise review_state_error
              else reopen src actor review)
            s
  unfolding undo
  undo-found id actor s review found =
      bind-ok (require id) _ s s review (require-found id review s found)

  undo-missing :
      (id actor : ℕ) (s : Desk)
      → get id s.reviews ≡ none
      → undo src id actor s ≡ (err review_state_error, s)
  unfolding undo
  undo-missing id actor s missing =
      bind-err (require id) _ s s review_state_error (require-missing id s missing)

  if-Sound :
      (over paid : Bool) (actor : ℕ) (review : ReviewRecord) (s : Desk)
      → Sound src s
      → (over ≡ true → Sound src (reopen src actor review s).1)
      → Sound src
          ((if not over
              then raise review_state_error
              else if paid
              then raise review_state_error
              else reopen src actor review)
            s).1
  unfolding raise
  if-Sound false paid actor review s sound h = sound
  if-Sound true true actor review s sound h = sound
  if-Sound true false actor review s sound h = h refl

  undo-Sound : (id actor : ℕ) (s : Desk) → Sound src s → Sound src (undo src id actor s).1
  undo-Sound id actor s sound = elim (Option-cases (get id s.reviews)) [
    | inl missing ↦
        subst (λ (x : Answer). Sound src x.1) (sym (undo-missing id actor s missing)) sound
    | inr (review, found) ↦
        subst (λ (x : Answer). Sound src x.1) (sym (undo-found id actor s review found))
          (if-Sound (is_decided review.status) review.compensated actor review s sound (λ over.
            reopen-Sound actor review s sound
              (ap (λ x. get x s.reviews) (sound.named id review found) ∙ found) over))
  ]

  -- Decisions and undoings by anyone, in any order, also repeated and also refused.
  pub data Run (s : Desk) : Desk → Type 0 where
    start : Run s s
    decides :
        {t : Desk} (id actor : ℕ) (decision : DecisionKind) (expected : Dict Ref ℕ)
        → Run s t
        → Run s (decide src id actor decision expected t).1
    undoes : {t : Desk} (id actor : ℕ) → Run s t → Run s (undo src id actor t).1

  Run-keeps : (s t : Desk) → Sound src s → Run s t → Sound src t
  Run-keeps s t sound start = sound
  Run-keeps s t sound (decides id actor decision expected run) =
      decide-Sound src id actor decision expected _ (Run-keeps s _ sound run)
  Run-keeps s t sound (undoes id actor run) = undo-Sound id actor _ (Run-keeps s _ sound run)

  Standing-bounds :
      (status : Status) (o : Option ℕ) (b : Bool) (a c : ℕ)
      → Standing status o b a c
      → (a ≤ 1) × (c ≤ a) × (status ≡ undone → c ≡ a)
  Standing-bounds pending o b a c (u, v, once, never) =
      (omega (arith, once), omega (arith, never), λ e. omega (arith, once, never))
  Standing-bounds rejected o b a c (u, v, once, never) =
      (omega (arith, once), omega (arith, never), λ e. omega (arith, once, never))
  Standing-bounds approved o b a c (u, v, once, never) =
      (omega (arith, once), omega (arith, never), λ e. cc)
  Standing-bounds undone o b a c (once, same) = (once, omega (arith, same), λ e. same)

  -- From a sound store, by any decisions and undoings: the store stays sound, the application of a
  -- review is asked for at most once and its compensation at most as often, and a review that was
  -- undone has been compensated as often as it was applied.
  pub Run-Standing :
      (s t : Desk)
      → Sound src s
      → Run s t
      → Sound src t
        × ((id : ℕ) (r : ReviewRecord)
            → get id t.reviews ≡ some r
            → (applications r.id t.mutations ≤ 1)
              × (compensations r.id t.mutations ≤ applications r.id t.mutations)
              × (r.status ≡ undone
                  → compensations r.id t.mutations ≡ applications r.id t.mutations))
  Run-Standing s t sound run =
      let after = Run-keeps s t sound run in
      (
        after,
        λ id r found.
            Standing-bounds r.status r.applied_at r.compensated _ _ (after.rows id r found),
      )
