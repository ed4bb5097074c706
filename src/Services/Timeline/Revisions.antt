-- ===== src/Services/Timeline/Revisions.antt =====
-- The revision that a view of a past moment shows.
use semiconductor_intel.Prelude.{
  ℕ, ◌≤◌, ◌<◌, ◌≡◌, refl, sym, ◌∙◌, ap, subst, Bool, true, false, none, some, List, [], ◌∷◌, ◌++◌,
  leb, nat_eq, if◌then◌else◌, keep, In, In-if, arith, Bool-cases, inl, inr,
}
use semiconductor_intel.Services.Timeline.{RevisionLike, key_lt, greatest, latest, select_revision}

key_lt_self : (r : RevisionLike) → key_lt r r ≡ false
unfolding key_lt
key_lt_self r = ground arith

key_lt_chain : (p q r : RevisionLike) → key_lt p q ≡ false → key_lt q r ≡ false → key_lt p r ≡ false
unfolding key_lt
key_lt_chain p q r h k = ground (
  arith,
  nat_eq.beq_iff p.recorded_at q.recorded_at,
  nat_eq.beq_iff q.recorded_at r.recorded_at,
  nat_eq.beq_iff p.recorded_at r.recorded_at,
)

key_lt_swap : (p q : RevisionLike) → key_lt p q ≡ true → key_lt q p ≡ false
unfolding key_lt
key_lt_swap p q h =
    ground (
      arith,
      nat_eq.beq_iff p.recorded_at q.recorded_at,
      nat_eq.beq_iff q.recorded_at p.recorded_at,
    )

greatest-step :
    (best r : RevisionLike) (l : List RevisionLike) (b : Bool)
    → key_lt best r ≡ b
    → greatest (if b then r else best) l ≡ greatest best (r ∷ l)
unfolding greatest
greatest-step best r l b e = ap (λ c. greatest (if c then r else best) l) (sym e)

In-later : (g best r : RevisionLike) (l : List RevisionLike) → In g (r ∷ l) → In g (best ∷ r ∷ l)
In-later g best r l m = inr m

In-past : (g best r : RevisionLike) (l : List RevisionLike) → In g (best ∷ l) → In g (best ∷ r ∷ l)
In-past g best r l (inl e) = inl e
In-past g best r l (inr m) = inr (inr m)

greatest-In : (best : RevisionLike) (l : List RevisionLike) → In (greatest best l) (best ∷ l)
unfolding greatest
greatest-In best [] = inl refl
greatest-In best (r ∷ l) = elim (Bool-cases (key_lt best r)) [
  | inl less ↦
      subst (λ g. In g (best ∷ r ∷ l)) (greatest-step best r l true less)
        (In-later (greatest r l) best r l (greatest-In r l))
  | inr more ↦
      subst (λ g. In g (best ∷ r ∷ l)) (greatest-step best r l false more)
        (In-past (greatest best l) best r l (greatest-In best l))
]

greatest-top :
    (best : RevisionLike) (l : List RevisionLike) (q : RevisionLike)
    → In q (best ∷ l)
    → key_lt (greatest best l) q ≡ false
unfolding greatest
greatest-top best [] q (inl e) = subst (λ x. key_lt best x ≡ false) (sym e) (key_lt_self best)
greatest-top best [] q (inr m) = absurd m
greatest-top best (r ∷ l) q there = elim (Bool-cases (key_lt best r)) [
  | inl less ↦
      let top = greatest-top r l in
      subst (λ g. key_lt g q ≡ false) (greatest-step best r l true less)
        (elim there [
          | inl e ↦
              subst (λ x. key_lt (greatest r l) x ≡ false) (sym e)
                (key_lt_chain (greatest r l) r best (top r (inl refl)) (key_lt_swap best r less))
          | inr m ↦ top q m
        ])
  | inr more ↦
      let top = greatest-top best l in
      subst (λ g. key_lt g q ≡ false) (greatest-step best r l false more)
        (elim there [
          | inl e ↦ top q (inl e)
          | inr (inl e) ↦
              subst (λ x. key_lt (greatest best l) x ≡ false) (sym e)
                (key_lt_chain (greatest best l) best r (top best (inl refl)) more)
          | inr (inr m) ↦ top q (inr m)
        ])
]

module _ (as_of : ℕ) where
  abbrev recorded : RevisionLike → Bool
  recorded r = leb r.recorded_at as_of

  In-keep :
      (q : RevisionLike) (l : List RevisionLike)
      → In q (keep recorded l)
      → In q l × (q.recorded_at ≤ as_of)
  In-keep q [] m = absurd m
  In-keep q (r ∷ l) m = elim (In-if (recorded r) r q (keep recorded l) m) [
    | inl (e, old) ↦
        (inl e, subst (λ (x : RevisionLike). x.recorded_at ≤ as_of) (sym e) (ground arith))
    | inr there ↦ let (i, le) = In-keep q l there in (inr i, le)
  ]

  keep-In :
      (q : RevisionLike) (l : List RevisionLike)
      → In q l
      → q.recorded_at ≤ as_of
      → In q (keep recorded l)
  keep-In q [] m le = absurd m
  keep-In q (r ∷ l) (inl e) le =
      let old : recorded r ≡ true =
        subst (λ (x : RevisionLike). recorded x ≡ true) e (ground (arith, le)) in
      rw old (inl e)
  keep-In q (r ∷ l) (inr m) le = elim (Bool-cases (recorded r)) [
    | inl old ↦ rw old (inr (keep-In q l m le))
    | inr new ↦ rw new (keep-In q l m le)
  ]

  keep-late :
      (xs ys : List RevisionLike) (r : RevisionLike)
      → as_of < r.recorded_at
      → keep recorded (xs ++ r ∷ ys) ≡ keep recorded (xs ++ ys)
  keep-late [] ys r late = let new : recorded r ≡ false = ground (arith, late) in rw new refl
  keep-late (x ∷ xs) ys r late = rw (keep-late xs ys r late) refl

  latest-some :
      (l : List RevisionLike) (r : RevisionLike)
      → latest l ≡ some r
      → In r l × ((q : RevisionLike) → In q l → key_lt r q ≡ false)
  latest-some [] r e = absurd cc
  latest-some (x ∷ l) r e =
      let is : greatest x l ≡ r = cc in
      (
        subst (λ y. In y (x ∷ l)) is (greatest-In x l),
        λ q m. subst (λ y. key_lt y q ≡ false) is (greatest-top x l q m),
      )

  latest-none : (l : List RevisionLike) → latest l ≡ none → l ≡ []
  latest-none [] e = refl
  latest-none (x ∷ l) e = absurd cc

-- The selected revision was recorded by then, and none of those recorded by then comes after it; none
-- is selected only if none was recorded by then; and a revision recorded later, wherever it stands,
-- changes nothing.
pub select_revision-Latest :
    (revisions : List RevisionLike) (as_of : ℕ)
    → ((r : RevisionLike)
        → select_revision revisions as_of ≡ some r
        → In r revisions
          × (r.recorded_at ≤ as_of)
          × ((q : RevisionLike) → In q revisions → q.recorded_at ≤ as_of → key_lt r q ≡ false))
      × (select_revision revisions as_of ≡ none
          → (q : RevisionLike) → In q revisions
          → as_of < q.recorded_at)
      × ((xs ys : List RevisionLike) (r : RevisionLike)
          → revisions ≡ xs ++ ys
          → as_of < r.recorded_at
          → select_revision (xs ++ r ∷ ys) as_of ≡ select_revision revisions as_of)
unfolding select_revision
select_revision-Latest revisions as_of = (
  (λ r e.
      let (there, top) = latest-some as_of (keep (recorded as_of) revisions) r e in
      let (i, le) = In-keep as_of r revisions there in
      (i, le, λ q m old. top q (keep-In as_of q revisions m old))),
  (λ e q m. elim (Bool-cases (leb q.recorded_at as_of)) [
    | inl old ↦ absurd (
        subst (In q) (latest-none as_of (keep (recorded as_of) revisions) e)
          (keep-In as_of q revisions m (ground arith)))
    | inr new ↦ ground (arith, new)
  ]),
  λ xs ys r split late.
      ap latest (keep-late as_of xs ys r late)
      ∙ ap (λ l. latest (keep (recorded as_of) l)) (sym split),
)
