-- ===== src/Queue/Lifecycle/Claim.antt =====
-- `claim` keeps the queue sound and hands out a snapshot that the queue agrees with.
use semiconductor_intel.Prelude.{
  ℕ, ◌≤◌, ◌<◌, ◌≡◌, refl, sym, ◌∙◌, ap, ◌⊎◌, inl, inr, none, some, List, ◌∷◌, arith, In, nat_eq,
  ◌==◌, subst, Bool-cases, if◌then◌else◌,
}
use semiconductor_intel.Prelude.Dict.{get, put, get-put, Distinct-put}
use semiconductor_intel.Queue.Rows.{JobRecord, queued}
use semiconductor_intel.Queue.Effects.{Env, Sys}
use semiconductor_intel.Queue.Store.{lease_row}
use semiconductor_intel.Queue.Lifecycle.{
  RowOk, Held, Sound, NoRepeats, Change, Changes, stays, claimed,
}

module _ (env : Env) (apart : NoRepeats env) (claims : List JobRecord) (s t : Sys) (id : ℕ)
    (r c : JobRecord) (k : Sound env claims s) (at : get id s.jobs ≡ some r)
    (waits : r.state ≡ queued) (now until mint : ℕ)
    (leased : c ≡ lease_row now (env.token mint) until r) (written : t.jobs ≡ put id c s.jobs)
    (drawn : s.mints ≤ mint) (minted : mint < t.mints) where
  leased-RowOk : RowOk c
  unfolding lease_row
  leased-RowOk =
      let room : r.attempt < _ = (k.rows id r at).spare (ground arith) in
      rw leased (record {
        leased = λ t e. refl;
        bounded = omega (arith, room);
        spare = λ e. cc;
        parked = λ e. cc;
      })

  found : (j : ℕ) → get j t.jobs ≡ (if id == j then some c else get j s.jobs)
  found j = ap (get j) written ∙ get-put id j c s.jobs

  row_cases :
      (j : ℕ) (q : JobRecord)
      → get j t.jobs ≡ some q
      → ((j ≡ id) × (q ≡ c)) ⊎ (get j s.jobs ≡ some q)
  row_cases j q e = ground (arith, found j, nat_eq.beq_iff id j)

  Held-after : (d : JobRecord) → In d claims → Held env d t
  unfolding lease_row
  Held-after d mem =
      let h = k.held d mem in
      record {
        state = h.state;
        mint = h.mint;
        minted = omega (arith, h.minted);
        token = h.token;
        agree = λ q e same. elim (row_cases d.id q e) [
          | inl (_, is_c) ↦
              absurd (omega (arith, h.minted, apart.token mint h.mint (ground (arith, h.token))))
          | inr before ↦ h.agree q before same
        ];
      }

  own_snapshot : Held env c t
  unfolding lease_row
  own_snapshot = record {
    state = ap (λ (x : JobRecord). x.state) leased;
    mint = mint;
    minted = minted;
    token = ap (λ (x : JobRecord). x.lease_token) leased;
    agree = λ q e same.
        let c_id : c.id ≡ id = ap (λ (x : JobRecord). x.id) leased ∙ k.keys id r at in
        ground (arith, found c.id, nat_eq.beq_iff id c.id, e);
  }

  fresh_after : (n : ℕ) → t.mints ≤ n → get (env.uuid n) t.jobs ≡ none
  fresh_after n above =
      let was : get (env.uuid n) s.jobs ≡ none = k.fresh n (omega arith) in
      ground (arith, found (env.uuid n), nat_eq.beq_iff id (env.uuid n), was, at)

  pub claimed-Sound : Sound env (c ∷ claims) t
  unfolding lease_row
  claimed-Sound = record {
    distinct = rw written (Distinct-put id c s.jobs k.distinct);
    keys = λ j q e. elim (row_cases j q e) [
      | inl (same, is_c) ↦ ap (λ (x : JobRecord). x.id) (is_c ∙ leased) ∙ k.keys id r at ∙ sym same
      | inr before ↦ k.keys j q before
    ];
    rows = λ j q e. elim (row_cases j q e) [
      | inl (same, is_c) ↦ subst RowOk (sym is_c) leased-RowOk
      | inr before ↦ k.rows j q before
    ];
    fresh = fresh_after;
    held = λ d mem. elim mem [
      | inl e ↦ subst (λ x. Held env x t) (sym e) own_snapshot
      | inr m ↦ Held-after d m
    ];
  }

  claimed-Change : Change r c
  unfolding lease_row
  claimed-Change = rw leased (claimed refl (omega arith) waits refl)

  pub claimed-Changes : Changes s t
  claimed-Changes j q e = elim (Bool-cases (id == j)) [
    | inl same ↦
        let is : id ≡ j = (nat_eq.beq_iff id j).0 same in
        (
          c,
          ground (arith, found j),
          subst (λ x. Change x c) (ground (arith, ap (λ i. get i s.jobs) is)) claimed-Change,
        )
    | inr other ↦ (q, ground (arith, found j), stays refl refl refl)
  ]
