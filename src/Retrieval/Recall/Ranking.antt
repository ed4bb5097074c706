-- ===== src/Retrieval/Recall/Ranking.antt =====
-- The ranking has each document of the hits once.
use semiconductor_intel.Prelude.{
  ℕ, ◌≡◌, ◌⊎◌, ◌↔◌, inl, inr, refl, sym, ◌∙◌, ap, subst, true, false, List, [], ◌∷◌, map, In,
  Unique, Bool-cases, ◌==◌, nat_eq, string_eq,
}
use semiconductor_intel.Prelude.Dict.{Dict, put}
use semiconductor_intel.Retrieval.Recall.{
  Scores, RawHit, ChannelProvenance, Tally, tally_hit, tally_hits, comes_before, insert, sort,
  hit_of, rank_hits, document,
}

true-false : true ≡ false → ⊥
true-false e = cc

abbrev keys : {V : Type 0} → Dict ℕ V → List ℕ
keys [] = []
keys ((k, v) ∷ d) = k ∷ keys d

module _ {V : Type 0} where
  put-keys : (j x : ℕ) (v : V) (d : Dict ℕ V) → In x (keys (put j v d)) ↔ ((x ≡ j) ⊎ In x (keys d))
  unfolding put
  put-keys j x v [] = ((λ m. m), λ m. m)
  put-keys j x v ((k, w) ∷ d) = elim (Bool-cases (k == j)) [
    | inl same ↦
        let is : k ≡ j = (nat_eq.beq_iff k j).0 same in
        rw same ((λ m. inr m), λ m. elim m [ inl e ↦ inl (e ∙ sym is) | inr there ↦ there ])
    | inr other ↦
        let later = put-keys j x v d in
        rw other (
          (λ m. elim m [
            | inl e ↦ inr (inl e)
            | inr there ↦ elim (later.0 there) [ inl e ↦ inl e | inr old ↦ inr (inr old) ]
          ]),
          λ m. elim m [
            | inl e ↦ inr (later.1 (inl e))
            | inr (inl e) ↦ inl e
            | inr (inr old) ↦ inr (later.1 (inr old))
          ],
        )
  ]

  put-Unique : (j : ℕ) (v : V) (d : Dict ℕ V) → Unique (keys d) → Unique (keys (put j v d))
  unfolding put
  put-Unique j v [] h = ((λ m. m), tt)
  put-Unique j v ((k, w) ∷ d) (new, rest) = elim (Bool-cases (k == j)) [
    | inl same ↦ rw same (new, rest)
    | inr other ↦ rw other (
      (λ m. elim ((put-keys j k v d).0 m) [
        | inl e ↦ absurd (true-false (sym ((nat_eq.beq_iff k j).1 e) ∙ other))
        | inr old ↦ new old
      ]),
      put-Unique j v d rest,
    )
  ]

module _ {S : Type 0} (ops : Scores S) where
  insert-keys :
      (p : ℕ × S) (l : Dict ℕ S) (x : ℕ)
      → In x (keys (insert ops p l)) ↔ ((x ≡ p.0) ⊎ In x (keys l))
  unfolding insert
  insert-keys p [] x = ((λ m. m), λ m. m)
  insert-keys p (q ∷ l) x = elim (Bool-cases (comes_before ops q p)) [
    | inl first ↦
        let later = insert-keys p l x in
        rw first (
          (λ m. elim m [
            | inl e ↦ inr (inl e)
            | inr there ↦ elim (later.0 there) [ inl e ↦ inl e | inr old ↦ inr (inr old) ]
          ]),
          λ m. elim m [
            | inl e ↦ inr (later.1 (inl e))
            | inr (inl e) ↦ inl e
            | inr (inr old) ↦ inr (later.1 (inr old))
          ],
        )
    | inr behind ↦ rw behind ((λ m. m), λ m. m)
  ]

  insert-Unique :
      (p : ℕ × S) (l : Dict ℕ S)
      → (In p.0 (keys l) → ⊥)
      → Unique (keys l)
      → Unique (keys (insert ops p l))
  unfolding insert
  insert-Unique p [] fresh h = ((λ m. m), tt)
  insert-Unique p (q ∷ l) fresh (new, rest) = elim (Bool-cases (comes_before ops q p)) [
    | inl first ↦ rw first (
      (λ m. elim ((insert-keys p l q.0).0 m) [ inl e ↦ fresh (inl (sym e)) | inr old ↦ new old ]),
      insert-Unique p l (λ m. fresh (inr m)) rest,
    )
    | inr behind ↦ rw behind (fresh, (new, rest))
  ]

  sort-keys : (l : Dict ℕ S) (x : ℕ) → In x (keys (sort ops l)) ↔ In x (keys l)
  unfolding sort
  sort-keys [] x = ((λ m. m), λ m. m)
  sort-keys (p ∷ l) x =
      let step = insert-keys p (sort ops l) x in
      let later = sort-keys l x in
      (
        (λ m. elim (step.0 m) [ inl e ↦ inl e | inr there ↦ inr (later.0 there) ]),
        λ m. step.1 (elim m [ inl e ↦ inl e | inr there ↦ inr (later.1 there) ]),
      )

  sort-Unique : (l : Dict ℕ S) → Unique (keys l) → Unique (keys (sort ops l))
  unfolding sort
  sort-Unique [] h = tt
  sort-Unique (p ∷ l) (new, rest) =
      insert-Unique p (sort ops l) (λ m. new ((sort-keys l p.0).0 m)) (sort-Unique l rest)

  hits-keys :
      (provenance : Dict ℕ (List (ChannelProvenance S))) (l : Dict ℕ S)
      → map (document ops) (map (hit_of ops provenance) l) ≡ keys l
  hits-keys provenance [] = refl
  hits-keys provenance (p ∷ l) = ap (λ r. p.0 ∷ r) (hits-keys provenance l)

  abbrev pub raw_document : RawHit S → ℕ
  raw_document hit = hit.industry_document_id

  tally-Unique :
      (rrf_k : ℕ) (hits : List (RawHit S)) (t : Tally ops)
      → Unique (keys t.scores)
      → Unique (keys (tally_hits ops rrf_k hits t).scores)
  unfolding tally_hits tally_hit
  tally-Unique rrf_k [] t h = h
  tally-Unique rrf_k (hit ∷ hits) t h =
      tally-Unique rrf_k hits (tally_hit ops rrf_k hit t)
        (put-Unique (raw_document hit) _ t.scores h)

  tally-keys :
      (rrf_k : ℕ) (hits : List (RawHit S)) (t : Tally ops) (x : ℕ)
      → In x (keys (tally_hits ops rrf_k hits t).scores)
        ↔ (In x (map raw_document hits) ⊎ In x (keys t.scores))
  unfolding tally_hits tally_hit
  tally-keys rrf_k [] t x =
      ((λ m. inr m), λ m. elim m [ inl no_hit ↦ absurd no_hit | inr old ↦ old ])
  tally-keys rrf_k (hit ∷ hits) t x =
      let later = tally-keys rrf_k hits (tally_hit ops rrf_k hit t) x in
      let here_ = put-keys (raw_document hit) x _ t.scores in
      (
        (λ m. elim (later.0 m) [
          | inl there ↦ inl (inr there)
          | inr kept ↦ elim (here_.0 kept) [ inl e ↦ inl (inl e) | inr old ↦ inr old ]
        ]),
        λ m. later.1 (elim m [
          | inl (inl e) ↦ inr (here_.1 (inl e))
          | inl (inr there) ↦ inl there
          | inr old ↦ inr (here_.1 (inr old))
        ]),
      )

  -- The ranking has each document of the hits exactly once, and no other.
  pub rank_hits-Unique :
      (rrf_k : ℕ) (hits : List (RawHit S))
      → Unique (map (document ops) (rank_hits ops rrf_k hits))
        × ((x : ℕ)
            → In x (map (document ops) (rank_hits ops rrf_k hits)) ↔ In x (map raw_document hits))
  unfolding rank_hits
  rank_hits-Unique rrf_k hits =
      let start : Tally ops = record { scores = []; provenance = []; channel_rank = [] } in
      let t = tally_hits ops rrf_k hits start in
      let is = hits-keys t.provenance (sort ops t.scores) in
      (
        subst Unique (sym is) (sort-Unique t.scores (tally-Unique rrf_k hits start tt)),
        λ x.
            let known = tally-keys rrf_k hits start x in
            let sorted = sort-keys t.scores x in
            (
              (λ m. elim (known.0 (sorted.0 (subst (In x) is m))) [
                | inl there ↦ there
                | inr no_key ↦ absurd no_key
              ]),
              λ m. subst (In x) (sym is) (sorted.1 (known.1 (inl m))),
            ),
      )
