-- ===== src/Queue/Lifecycle/Updates.antt =====
-- An operation advances a sound queue if it changes each row legally and adds none.
use semiconductor_intel.Prelude.{
  ℕ, ◌≤◌, ◌≡◌, refl, ◌∙◌, inl, inr, Option, none, some, List, arith, nat_eq, ◌==◌, Bool-cases,
  subst,
}
use semiconductor_intel.Prelude.Dict.{
  Distinct, Distinct-put, Distinct-map_values, Dict, get, put, get-put, map_values, get-map_values,
  apply_option,
}
use semiconductor_intel.Prelude.Exec.{Preorder}
use semiconductor_intel.Queue.Rows.{JobRecord, JobState}
use semiconductor_intel.Queue.Effects.{Env, Sys}
use semiconductor_intel.Queue.Lifecycle.{
  Legal, Legal-refl, Legal-trans, RowOk, Held, Sound, Advance,
}

-- Of a row that is there and its successor.
pub data RowChange (from : JobState) : Option JobRecord → Option JobRecord → Type 0 where
  absent : RowChange from none none
  changed : (r r' : JobRecord) → Legal from r r' → RowOk r' → RowChange from (some r) (some r')

RowChange-forth :
    {from : JobState} {o o' : Option JobRecord}
    → RowChange from o o'
    → (r : JobRecord) → o ≡ some r
    → (r' : JobRecord) × (o' ≡ some r') × Legal from r r'
RowChange-forth absent r e = cc
RowChange-forth {from} (changed q q' l k) r e =
    (q', refl, subst (λ p. Legal from p q') (ground arith) l)

RowChange-back :
    {from : JobState} {o o' : Option JobRecord}
    → RowChange from o o'
    → (r' : JobRecord) → o' ≡ some r'
    → (r : JobRecord) × (o ≡ some r) × Legal from r r' × RowOk r'
RowChange-back absent r' e = cc
RowChange-back {from} (changed q q' l k) r' e =
    (q, refl, subst (λ p. Legal from q p) (ground arith) l, subst RowOk (ground arith) k)

RowChange-none :
    {from : JobState} {o o' : Option JobRecord} → RowChange from o o' → o ≡ none → o' ≡ none
RowChange-none absent e = refl
RowChange-none (changed q q' l k) e = cc

pub RowChange-refl :
    (from : JobState) (o : Option JobRecord)
    → ((r : JobRecord) → o ≡ some r → RowOk r)
    → RowChange from o o
RowChange-refl from none h = absent
RowChange-refl from (some r) h = changed r r (Legal-refl from r) (h r refl)

module _ (env : Env) (claims : List JobRecord) (from : JobState) where
  Held-rowwise :
      (c : JobRecord) (s t : Sys)
      → s.mints ≤ t.mints
      → ((id : ℕ) → RowChange from (get id s.jobs) (get id t.jobs))
      → Held env c s
      → Held env c t
  Held-rowwise c s t m h k = record {
    state = k.state;
    mint = k.mint;
    minted = omega (arith, k.minted);
    token = k.token;
    agree = λ r' e same.
        let (q, was, legal, ok) = RowChange-back (h c.id) r' e in
        ground (arith, legal.lease, legal.attempt, same, k.token, k.agree q was);
  }

  pub rowwise :
      (s t : Sys)
      → s.mints ≤ t.mints
      → (Distinct s.jobs → Distinct t.jobs)
      → (Sound env claims s → (id : ℕ) → RowChange from (get id s.jobs) (get id t.jobs))
      → Advance env claims from s t
  rowwise s t m d h = record {
    sound = λ k. record {
      distinct = d k.distinct;
      keys = λ id r' e.
          let (q, was, legal, ok) = RowChange-back (h k id) r' e in legal.id ∙ k.keys id q was;
      rows = λ id r' e. let (q, was, legal, ok) = RowChange-back (h k id) r' e in ok;
      fresh = λ n below. RowChange-none (h k (env.uuid n)) (k.fresh n (omega (arith, m, below)));
      held = λ c mem. Held-rowwise c s t m (h k) (k.held c mem);
    };
    rows = λ k id r e. RowChange-forth (h k id) r e;
  }

  -- The rows are as they were.
  pub Advance-same_jobs :
      (s t : Sys) → s.mints ≤ t.mints → t.jobs ≡ s.jobs → Advance env claims from s t
  Advance-same_jobs s t m e =
      rowwise s t m (λ d. rw e d) (λ k id. rw e (RowChange-refl from (get id s.jobs) (k.rows id)))

  pub Advance-order : Preorder (Advance env claims from)
  Advance-order = record {
    same = λ s. record { sound = λ k. k; rows = λ k id r e. (r, e, Legal-refl from r) };
    chain = λ s t u h k. record {
      sound = λ x. k.sound (h.sound x);
      rows = λ x id r e.
          let (r', e', l') = h.rows x id r e in
          let (r'', e'', l'') = k.rows (h.sound x) id r' e' in
          (r'', e'', Legal-trans from r r' r'' l' l'');
    };
  }

  -- One row is rewritten.
  put_change :
      (jobs : Dict ℕ JobRecord) (id j : ℕ) (r r' : JobRecord)
      → get id jobs ≡ some r
      → ((i : ℕ) (q : JobRecord) → get i jobs ≡ some q → RowOk q)
      → Legal from r r'
      → RowOk r'
      → RowChange from (get j jobs) (get j (put id r' jobs))
  put_change jobs id j r r' e oks legal ok = elim (Bool-cases (id == j)) [
    | inl same ↦
        rw (get-put id j r' jobs, same, ← (nat_eq.beq_iff id j).0 same, e) (changed r r' legal ok)
    | inr other ↦ rw (get-put id j r' jobs, other) (RowChange-refl from (get j jobs) (oks j))
  ]

  pub Advance-put :
      (s t : Sys) (id : ℕ) (r r' : JobRecord)
      → s.mints ≤ t.mints
      → t.jobs ≡ put id r' s.jobs
      → get id s.jobs ≡ some r
      → (Sound env claims s → Legal from r r' × RowOk r')
      → Advance env claims from s t
  Advance-put s t id r r' m e found h =
      rowwise s t m (λ d. rw e (Distinct-put id r' s.jobs d))
        (λ k j. rw e (put_change s.jobs id j r r' found k.rows (h k).0 (h k).1))

  -- Every row is rewritten.
  map_change :
      (f : JobRecord → JobRecord) (o : Option JobRecord)
      → ((r : JobRecord) → o ≡ some r → Legal from r (f r) × RowOk (f r))
      → RowChange from o (apply_option f o)
  map_change f none h = absent
  map_change f (some r) h = changed r (f r) (h r refl).0 (h r refl).1

  pub Advance-map :
      (s t : Sys) (f : JobRecord → JobRecord)
      → s.mints ≤ t.mints
      → t.jobs ≡ map_values f s.jobs
      → ((r : JobRecord) → RowOk r → Legal from r (f r) × RowOk (f r))
      → Advance env claims from s t
  Advance-map s t f m e h =
      rowwise s t m (λ d. rw e (Distinct-map_values f s.jobs d))
        (λ k j.
          rw (e, get-map_values f j s.jobs)
            (map_change f (get j s.jobs) (λ r found. h r (k.rows j r found))))
