-- ===== src/Services/Evolution/Edges.antt =====
-- Which edges pass the gates.
use semiconductor_intel.Prelude.{
  ◌+◌, String, ◌≡◌, ◌≢◌, ◌↔◌, ◌⊎◌, inl, inr, refl, sym, ap, subst, true, false, none, some, List,
  [], ◌∷◌, map, In, ◌==◌, string_eq, any_of, any_of-In, In-map, Unique, length, arith, Option-cases,
  Bool-cases,
}
use semiconductor_intel.Prelude.Dict.{triple_eq}
use semiconductor_intel.Services.Evolution.{
  EdgeDraft, EdgeKey, Dropped, normalized, gate, validate_from, validate_edges, evidence_required,
  has_basis, lacks_evidence, bare,
}

-- The edge joins two nodes, says what it rests on, and an inferred edge of a kind that timing cannot
-- justify has evidence.
pub record Passes (e : EdgeDraft) : Type 0 where
  pub no_loop : e.from_node ≢ e.to_node
  pub based : (e.basis ≡ "explicit") ⊎ (e.basis ≡ "inferred")
  pub evident :
      e.basis ≡ "inferred"
      → (e.relation ≡ "validates") ⊎ (e.relation ≡ "refutes") ⊎ (e.relation ≡ "applies")
      → e.evidence_refs ≢ []

bare-empty : (refs : List String) → bare refs ≡ true → refs ≡ []
bare-empty [] h = refl
bare-empty (r ∷ refs) h = cc

abbrev Demanding : String → Type 0
Demanding r = (r ≡ "validates") ⊎ (r ≡ "refutes") ⊎ (r ≡ "applies")

required_iff : (r : String) → (evidence_required r ≡ true) ↔ Demanding r
unfolding evidence_required
required_iff r = ground (
  arith,
  string_eq.beq_iff r "validates",
  string_eq.beq_iff r "refutes",
  string_eq.beq_iff r "applies",
)

Passes-evident : (e : EdgeDraft) → Passes e → lacks_evidence e ≡ true → ⊥
Passes-evident e p lacks =
    p.evident (ground (arith, string_eq.beq_iff e.basis "inferred"))
      ((required_iff e.relation).0 (ground arith)) (bare-empty e.evidence_refs (ground arith))

Passes-gates :
    (e : EdgeDraft)
    → Passes e
    → ((e.from_node == e.to_node) ≡ false) × (has_basis e ≡ true) × (lacks_evidence e ≡ false)
Passes-gates e p = (
  elim (Bool-cases (e.from_node == e.to_node)) [
    | inl same ↦ absurd (p.no_loop ((string_eq.beq_iff e.from_node e.to_node).0 same))
    | inr apart ↦ apart
  ],
  ground
      (arith, p.based, string_eq.beq_iff e.basis "explicit", string_eq.beq_iff e.basis "inferred"),
  elim (Bool-cases (lacks_evidence e)) [
    | inl lacks ↦ absurd (Passes-evident e p lacks)
    | inr evident ↦ evident
  ],
)

lacks-true :
    (e : EdgeDraft)
    → e.basis ≡ "inferred"
    → Demanding e.relation
    → e.evidence_refs ≡ []
    → lacks_evidence e ≡ true
lacks-true e inferred kind none_there = rw none_there (
    ground
      (arith, inferred, string_eq.beq_iff e.basis "inferred", (required_iff e.relation).1 kind))

gates-Passes :
    (e : EdgeDraft)
    → (e.from_node == e.to_node) ≡ false
    → has_basis e ≡ true
    → lacks_evidence e ≡ false
    → Passes e
gates-Passes e apart based evident = record {
  no_loop = λ same. ground (arith, string_eq.beq_iff e.from_node e.to_node);
  based =
      ground (arith, string_eq.beq_iff e.basis "explicit", string_eq.beq_iff e.basis "inferred");
  evident = λ inferred kind none_there. ground (arith, lacks-true e inferred kind none_there);
}

-- What the gate lets through passes and is new; what passes and is new, the gate lets through.
gate-none :
    (seen : List EdgeKey) (e : EdgeDraft)
    → gate seen e ≡ none
    → Passes e × (In (normalized e) seen → ⊥)
unfolding gate
gate-none seen e h =
    let clear : ((e.from_node == e.to_node) ≡ false)
        × (has_basis e ≡ true)
        × (lacks_evidence e ≡ false)
        × (any_of (λ k. k == normalized e) seen ≡ false) =
      ground arith in
    (
      gates-Passes e clear.0 clear.1 clear.2,
      λ m. ground (arith, clear.3, any_of-In (normalized e) seen),
    )

gate-some :
    (seen : List EdgeKey) (e : EdgeDraft) (d : Dropped)
    → gate seen e ≡ some d
    → Passes e
    → In (normalized e) seen
unfolding gate
gate-some seen e d h p =
    let (apart, based, evident) = Passes-gates e p in
    elim (Bool-cases (any_of (λ k. k == normalized e) seen)) [
      | inl old ↦ (any_of-In (normalized e) seen).0 old
      | inr new ↦ ground (arith, apart, based, evident, new)
    ]

record Sorted (seen : List EdgeKey) (drafts kept : List EdgeDraft) (dropped : List Dropped)
    : Type 0 where
  sound : (e : EdgeDraft) → In e kept → In e drafts × Passes e × (In (normalized e) seen → ⊥)
  unique : Unique (map normalized kept)
  complete :
      (e : EdgeDraft)
      → In e drafts
      → Passes e
      → In (normalized e) seen ⊎ In (normalized e) (map normalized kept)
  count : length kept + length dropped ≡ length drafts

validate-drop :
    (seen : List EdgeKey) (d : EdgeDraft) (drafts : List EdgeDraft) (why : Dropped)
    → gate seen d ≡ some why
    → validate_from seen (d ∷ drafts)
      ≡ ((validate_from seen drafts).0, why ∷ (validate_from seen drafts).1)
unfolding validate_from
validate-drop seen d drafts why stopped = rw (stopped, validate_from) refl

validate-keep :
    (seen : List EdgeKey) (d : EdgeDraft) (drafts : List EdgeDraft)
    → gate seen d ≡ none
    → validate_from seen (d ∷ drafts) ≡ (
      d ∷ (validate_from (normalized d ∷ seen) drafts).0,
      (validate_from (normalized d ∷ seen) drafts).1,
    )
unfolding validate_from
validate-keep seen d drafts through = rw (through, validate_from) refl

abbrev SortedPair : List EdgeKey → List EdgeDraft → List EdgeDraft × List Dropped → Type 0
SortedPair seen drafts x = Sorted seen drafts x.0 x.1

validate_from-Sorted :
    (seen : List EdgeKey) (drafts : List EdgeDraft)
    → Sorted seen drafts (validate_from seen drafts).0 (validate_from seen drafts).1
unfolding validate_from
validate_from-Sorted seen [] = record {
  sound = λ e m. absurd m;
  unique = tt;
  complete = λ e m p. absurd m;
  count = omega arith;
}
validate_from-Sorted seen (d ∷ drafts) = elim (Option-cases (gate seen d)) [
  | inr (why, stopped) ↦
      let rest = validate_from-Sorted seen drafts in
      subst (SortedPair seen (d ∷ drafts)) (sym (validate-drop seen d drafts why stopped)) (record {
        sound = λ e m. let (there, passes, new) = rest.sound e m in (inr there, passes, new);
        unique = rest.unique;
        complete = λ e m p. elim m [
          | inl same ↦ inl (
              subst (λ x. In (normalized x) seen) (sym same)
                (gate-some seen d why stopped (subst Passes same p)))
          | inr there ↦ rest.complete e there p
        ];
        count = omega (arith, rest.count);
      })
  | inl through ↦
      let (passes, new) = gate-none seen d through in
      let rest = validate_from-Sorted (normalized d ∷ seen) drafts in
      subst (SortedPair seen (d ∷ drafts)) (sym (validate-keep seen d drafts through)) (record {
        sound = λ e m. elim m [
          | inl same ↦ (
            inl same,
            subst Passes (sym same) passes,
            λ old. new (subst (λ x. In (normalized x) seen) same old),
          )
          | inr there ↦
              let (in_drafts, passes', new') = rest.sound e there in
              (inr in_drafts, passes', λ old. new' (inr old))
        ];
        unique = (
          (λ again.
              let (e, there, same) = In-map normalized (normalized d) _ again in
              (rest.sound e there).2 (inl (sym same))),
          rest.unique,
        );
        complete = λ e m p. elim m [
          | inl same ↦ inr (inl (ap normalized same))
          | inr there ↦ elim (rest.complete e there p) [
            | inl (inl same) ↦ inr (inl same)
            | inl (inr old) ↦ inl old
            | inr kept ↦ inr (inr kept)
          ]
        ];
        count = omega (arith, rest.count);
      })
]

-- Every kept edge is one of the drafts and passes, no two kept edges have the same key, every draft
-- that passes has its key among those of the kept edges, and each draft is kept or dropped.
pub validate_edges-Unique :
    (drafts : List EdgeDraft)
    → ((e : EdgeDraft) → In e (validate_edges drafts).0 → In e drafts × Passes e)
      × Unique (map normalized (validate_edges drafts).0)
      × ((e : EdgeDraft)
          → In e drafts
          → Passes e
          → In (normalized e) (map normalized (validate_edges drafts).0))
      × (length (validate_edges drafts).0 + length (validate_edges drafts).1 ≡ length drafts)
unfolding validate_edges
validate_edges-Unique drafts =
    let all = validate_from-Sorted [] drafts in
    (
      (λ e m. let (there, passes, new) = all.sound e m in (there, passes)),
      all.unique,
      (λ e m p. elim (all.complete e m p) [ inl old ↦ absurd old | inr kept ↦ kept ]),
      all.count,
    )
