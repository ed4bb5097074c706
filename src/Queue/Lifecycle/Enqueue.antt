-- ===== src/Queue/Lifecycle/Enqueue.antt =====
-- `enqueue` stores a new row under an identifier of its own, or changes nothing of the rows.
use semiconductor_intel.Prelude.{
  ℕ, suc, ◌+◌, ◌≤◌, String, ◌≡◌, refl, sym, ◌∙◌, ap, ◌⊎◌, inl, inr, Bool, true, false, Option, none,
  some, List, arith, In, nat_eq, string_eq, ◌==◌, subst, Bool-cases, if◌then◌else◌,
}
use semiconductor_intel.Prelude.Dict.{triple_eq, get, put, get-put, Distinct-put}
use semiconductor_intel.Prelude.Json.{Fields}
use semiconductor_intel.Prelude.Exec.{Relates, pick, ◌>>=◌}
use semiconductor_intel.Queue.Rows.{JobRecord, running, InMemoryJobsDatabase}
use semiconductor_intel.Queue.Effects.{Env, Sys, store, query, read_clock, new_uuid}
use semiconductor_intel.Queue.Store.{has, insert_job, find_idempotent_job}
use semiconductor_intel.Queue.Rules.{IndustryScope}
use semiconductor_intel.Queue.Service.{enqueue, after_insert, insert_or_find, new_job}
use semiconductor_intel.Queue.Lifecycle.{
  RowOk, Held, Sound, NoRepeats, Progress, Advance, Legal-refl, Legal-trans,
}
use semiconductor_intel.Queue.Lifecycle.Updates.{Advance-same_jobs}
use semiconductor_intel.Queue.Lifecycle.Methods.{advance_rules}
use semiconductor_intel.Queue.Lifecycle.Service.{append_event-Advances}

-- A row is added under the identifier that was just drawn.
module _ (env : Env) (apart : NoRepeats env) (claims : List JobRecord) (s t : Sys) (r : JobRecord)
    (k : Sound env claims s) (id : r.id ≡ env.uuid s.mints) (safe : RowOk r)
    (bare : r.lease_token ≡ none) (written : t.jobs ≡ put r.id r s.jobs)
    (drawn : suc s.mints ≤ t.mints) where
  found : (j : ℕ) → get j t.jobs ≡ (if r.id == j then some r else get j s.jobs)
  found j = ap (get j) written ∙ get-put r.id j r s.jobs

  row_cases :
      (j : ℕ) (q : JobRecord)
      → get j t.jobs ≡ some q
      → ((j ≡ r.id) × (q ≡ r)) ⊎ (get j s.jobs ≡ some q)
  row_cases j q e = ground (arith, found j, nat_eq.beq_iff r.id j)

  fresh_after : (n : ℕ) → t.mints ≤ n → get (env.uuid n) t.jobs ≡ none
  fresh_after n above = elim (Bool-cases (r.id == env.uuid n)) [
    | inl same ↦ absurd (
        omega (
          arith,
          drawn,
          above,
          apart.uuid s.mints n (sym id ∙ (nat_eq.beq_iff r.id (env.uuid n)).0 same),
        ))
    | inr other ↦ ground (arith, found (env.uuid n), k.fresh n (omega (arith, drawn)))
  ]

  Held-after : (d : JobRecord) → In d claims → Held env d t
  Held-after d mem =
      let h = k.held d mem in
      record {
        state = h.state;
        mint = h.mint;
        minted = omega (arith, h.minted, drawn);
        token = h.token;
        agree = λ q e same. elim (row_cases d.id q e) [
          | inl (_, is) ↦ ground (arith, bare, h.token)
          | inr before ↦ h.agree q before same
        ];
      }

  added-Sound : Sound env claims t
  added-Sound = record {
    distinct = rw written (Distinct-put r.id r s.jobs k.distinct);
    keys = λ j q e. elim (row_cases j q e) [
      | inl (same, is) ↦ ap (λ (x : JobRecord). x.id) is ∙ sym same
      | inr before ↦ k.keys j q before
    ];
    rows = λ j q e. elim (row_cases j q e) [
      | inl (same, is) ↦ subst RowOk (sym is) safe
      | inr before ↦ k.rows j q before
    ];
    fresh = fresh_after;
    held = Held-after;
  }

  added-Progress : Progress running s t
  added-Progress j q e = elim (Bool-cases (r.id == j)) [
    | inl same ↦
        let is : r.id ≡ j = (nat_eq.beq_iff r.id j).0 same in
        let empty : get j s.jobs ≡ none =
          ap (λ i. get i s.jobs) (sym is ∙ id) ∙ k.fresh s.mints (omega arith) in
        ground (arith, empty, e)
    | inr other ↦ (q, ground (arith, found j), Legal-refl running q)
  ]

-- The key is taken: some row has it.
unfoldable pub key_taken : JobRecord → Sys → Bool
key_taken r s = has (get (r.owner_id, r.kind, r.idempotency_key) s.idempotency)

pub insert_job-taken :
    (r : JobRecord) (s : Sys) → key_taken r s ≡ true → insert_job r s.db ≡ (none, s.db)
unfolding insert_job key_taken
insert_job-taken r s h = rw (h, insert_job)

insert_job-free :
    (r : JobRecord) (s : Sys)
    → key_taken r s ≡ false
    → ((insert_job r s.db).0 ≡ some r) × ((insert_job r s.db).1.jobs ≡ put r.id r s.jobs)
unfolding insert_job key_taken
insert_job-free r s h = (rw (h, insert_job), rw (h, insert_job))

module _ (env : Env) where
  after_none :
      (r : JobRecord) (o : Option JobRecord) (s : Sys)
      → find_idempotent_job r.owner_id r.kind r.idempotency_key s.db ≡ o
      → (after_insert env r none s).1 ≡ s
  unfolding after_insert query pick ◌>>=◌
  after_none r none s e = rw (e, pick)
  after_none r (some old) s e = rw (e, pick)

  pub insert_or_find-taken :
      (r : JobRecord) (s : Sys) → key_taken r s ≡ true → (insert_or_find env r s).1 ≡ s
  unfolding insert_or_find store ◌>>=◌
  insert_or_find-taken r s h =
      subst
        (λ (x : Option JobRecord × InMemoryJobsDatabase).
          (after_insert env r x.0 (record s { db = x.1 })).1 ≡ s)
        (sym (insert_job-taken r s h)) (after_none r _ s refl)

module _ (env : Env) (apart : NoRepeats env) (claims : List JobRecord) where
  after_some-Advances :
      (r job : JobRecord) → Relates (Advance env claims running) (after_insert env r (some job))
  unfolding after_insert pick
  after_some-Advances r job = search (advance_rules, append_event-Advances)

  insert_or_find-free :
      (r : JobRecord) (s : Sys)
      → key_taken r s ≡ false
      → (mid : Sys) × (mid.jobs ≡ put r.id r s.jobs)
        × (mid.mints ≡ s.mints)
        × Advance env claims running mid (insert_or_find env r s).1
  unfolding insert_or_find store ◌>>=◌
  insert_or_find-free r s h =
      let (stored, jobs) = insert_job-free r s h in
      let mid : Sys = record s { db = (insert_job r s.db).1 } in
      (
        mid,
        jobs,
        refl,
        subst (λ o. Advance env claims running mid (after_insert env r o mid).1) (sym stored)
            ((after_some-Advances r r).at mid),
      )

  new_job-RowOk :
      (scope : IndustryScope) (kind : String) (payload : Fields) (key : String)
      (spec_attempts max_attempts : Option ℕ) (now id : ℕ)
      → RowOk (new_job env scope kind payload key spec_attempts max_attempts now id)
  unfolding new_job
  new_job-RowOk scope kind payload key spec_attempts max_attempts now id = record {
    leased = λ t e. cc;
    bounded = omega arith;
    spare = λ e. omega arith;
    parked = λ e. cc;
  }

  -- The rest of `enqueue`, after its identifier was drawn in `s`.
  insert_new :
      (s : Sys) (r : JobRecord)
      → Sound env claims s
      → r.id ≡ env.uuid s.mints
      → RowOk r
      → r.lease_token ≡ none
      → (drawn : Sys) → drawn.db ≡ s.db
      → drawn.mints ≡ suc s.mints
      → Sound env claims (insert_or_find env r drawn).1
        × Progress running s (insert_or_find env r drawn).1
  insert_new s r k id safe bare drawn same mints = elim (Bool-cases (key_taken r drawn)) [
    | inl taken ↦ rw (insert_or_find-taken env r drawn taken) (
        let step =
          Advance-same_jobs env claims running s drawn (omega (arith, mints))
            (ap (λ (d : InMemoryJobsDatabase). d.jobs) same) in
        (step.sound k, step.rows k))
    | inr free ↦
        let (mid, jobs, m, step) = insert_or_find-free r drawn free in
        let written : mid.jobs ≡ put r.id r s.jobs =
          jobs ∙ ap (λ (d : InMemoryJobsDatabase). put r.id r d.jobs) same in
        let room : suc s.mints ≤ mid.mints = omega (arith, m, mints) in
        let sound = added-Sound env apart claims s mid r k id safe bare written room in
        (
          step.sound sound,
          λ j q e.
              let (q', e', l) =
                added-Progress env apart claims s mid r k id safe bare written room j q e in
              let (q'', e'', l') = step.rows sound j q' e' in
              (q'', e'', Legal-trans running q q' q'' l l'),
        )
  ]

  pub enqueue-Sound :
      (s : Sys) (scope : IndustryScope) (kind : String) (payload : Fields) (key : String)
      (spec_attempts max_attempts : Option ℕ)
      → Sound env claims s
      → Sound env claims (enqueue env scope kind payload key spec_attempts max_attempts s).1
        × Progress running s (enqueue env scope kind payload key spec_attempts max_attempts s).1
  unfolding enqueue read_clock new_uuid ◌>>=◌
  enqueue-Sound s scope kind payload key spec_attempts max_attempts k =
      let drawn : Sys = record s { reads = s.reads + 1; mints = s.mints + 1 } in
      insert_new s _ k refl
        (new_job-RowOk scope kind payload key spec_attempts max_attempts (env.clock s.reads)
          (env.uuid s.mints))
        refl drawn refl (omega arith)
