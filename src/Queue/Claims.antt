-- ===== src/Queue/Claims.antt =====
-- `claim_next` hands out the oldest due job that no other session has locked, under a new lease.
use semiconductor_intel.Prelude.{
  subst, In-if, ℕ, String, ◌≡◌, ◌≢◌, refl, sym, ◌∙◌, ap, ◌⊎◌, inl, inr, Bool, true, false, Option,
  none, some, List, [], ◌∷◌, arith, In, nat_eq, string_eq, ◌==◌, if◌then◌else◌, Bool-cases,
  Option-cases,
}
use semiconductor_intel.Prelude.Dict.{Dict, get, put, remove, Distinct, In-get, get-In, get-put}
use semiconductor_intel.Queue.Rows.{JobRecord, InMemoryJobsDatabase}
use semiconductor_intel.Queue.Store.{
  after_select, first, claimable, candidates, before, first_of_sorted, choose, claim_select,
  lease_row, claim_write, claim_next,
}

abbrev Item : Type 0
Item = ℕ × JobRecord

candidates-In :
    (test : ℕ → JobRecord → Bool) (d : Dict ℕ JobRecord) (c : Item)
    → In c (candidates test d)
    → In c d × (test c.0 c.1 ≡ true)
unfolding candidates
candidates-In test [] c m = absurd m
candidates-In test ((id, r) ∷ d) c m = elim (In-if (test id r) (id, r) c (candidates test d) m) [
  | inl (e, pass) ↦ (inl e, subst (λ (x : Item). test x.0 x.1 ≡ true) (sym e) pass)
  | inr rest ↦ let (there, pass) = candidates-In test d c rest in (inr there, pass)
]

In-candidates :
    (test : ℕ → JobRecord → Bool) (d : Dict ℕ JobRecord) (c : Item)
    → In c d
    → test c.0 c.1 ≡ true
    → In c (candidates test d)
unfolding candidates
In-candidates test [] c m pass = elim m [ ]
In-candidates test ((id, r) ∷ d) c (inl e) pass = ground arith
In-candidates test ((id, r) ∷ d) c (inr m) pass = ground (arith, In-candidates test d c m pass)

-- The order of the candidates is total and transitive.
before_trans : (a b c : JobRecord) → before a b ≡ false → before b c ≡ false → before a c ≡ false
unfolding before
before_trans a b c h k = ground arith

before_flip : (a b : JobRecord) → before a b ≡ true → before b a ≡ false
unfolding before
before_flip a b h = ground arith

before_irrefl : (a : JobRecord) → before a a ≡ false
unfolding before
before_irrefl a = ground arith

-- Neither of the two comes before the one that is kept.
best_lem :
    (c y : Item)
    → (before c.1 (if before y.1 c.1 then y else c).1 ≡ false)
      × (before y.1 (if before y.1 c.1 then y else c).1 ≡ false)
best_lem c y = elim (Bool-cases (before y.1 c.1)) [
  | inl e ↦ simp e (before_flip y.1 c.1 e, before_irrefl y.1)
  | inr e ↦ simp e (before_irrefl c.1, refl)
]

first-In : (c : Item) (d : Dict ℕ JobRecord) → In (first_of_sorted c d) (c ∷ d)
unfolding first_of_sorted
first-In c [] = inl refl
first-In c (x ∷ d) = ground (arith, first-In (if before x.1 c.1 then x else c) d)

first-least :
    (c : Item) (d : Dict ℕ JobRecord) (x : Item)
    → In x (c ∷ d)
    → before x.1 (first_of_sorted c d).1 ≡ false
unfolding first_of_sorted
first-least c [] x (inl e) =
    subst (λ (z : Item). before z.1 c.1 ≡ false) (sym e) (before_irrefl c.1)
first-least c [] x (inr m) = absurd m
first-least c (y ∷ d) x m =
    let best : Item = if before y.1 c.1 then y else c in
    let least : (z : Item) → In z (best ∷ d) → before z.1 (first_of_sorted best d).1 ≡ false =
      first-least best d in
    let best_least : before best.1 (first_of_sorted best d).1 ≡ false = least best (inl refl) in
    elim m [
      | inl e ↦
          subst (λ (z : Item). before z.1 (first_of_sorted best d).1 ≡ false) (sym e)
            (before_trans c.1 best.1 (first_of_sorted best d).1 (best_lem c y).0 best_least)
      | inr (inl e) ↦
          subst (λ (z : Item). before z.1 (first_of_sorted best d).1 ≡ false) (sym e)
            (before_trans y.1 best.1 (first_of_sorted best d).1 (best_lem c y).1 best_least)
      | inr (inr t) ↦ least x (inr t)
    ]

first-none : (l : Dict ℕ JobRecord) → first l ≡ none → (c : Item) → ¬ In c l
first-none [] h c = λ m. m
first-none (x ∷ l) h c = cc

first-some :
    (l : Dict ℕ JobRecord) (c : Item)
    → first l ≡ some c
    → In c l × ((x : Item) → In x l → before x.1 c.1 ≡ false)
first-some [] c h = cc
first-some (x ∷ l) c h =
    let e : first_of_sorted x l ≡ c = ground arith in
    subst (λ (z : Item). In z (x ∷ l) × ((y : Item) → In y (x ∷ l) → before y.1 z.1 ≡ false)) e
      (first-In x l, first-least x l)

module _ (session : String) (now : ℕ) (kinds : Option (List String)) (db : InMemoryJobsDatabase)
    (distinct : Distinct db.jobs) where
  -- The row is the oldest of those that may be claimed.
  pub record Oldest (id : ℕ) (r : JobRecord) : Type 0 where
    pub at : get id db.jobs ≡ some r
    pub may : claimable session now kinds db id r ≡ true
    pub first :
        (j : ℕ) (q : JobRecord)
        → get j db.jobs ≡ some q
        → claimable session now kinds db j q ≡ true
        → before q r ≡ false

  choose-none :
      choose session now kinds db ≡ none
      → (j : ℕ) (q : JobRecord) → get j db.jobs ≡ some q
      → claimable session now kinds db j q ≡ false
  unfolding choose
  choose-none h j q at = elim (Bool-cases (claimable session now kinds db j q)) [
    | inl may ↦ absurd (
        first-none _ h (j, q)
          (In-candidates (claimable session now kinds db) db.jobs (j, q) (get-In j q db.jobs at)
            may))
    | inr not_may ↦ not_may
  ]

  choose-some : (id : ℕ) (r : JobRecord) → choose session now kinds db ≡ some (id, r) → Oldest id r
  unfolding choose
  choose-some id r h =
      let test = claimable session now kinds db in
      let (mem, least) = first-some (candidates test db.jobs) (id, r) h in
      let (there, pass) = candidates-In test db.jobs (id, r) mem in
      record {
        at = In-get id r db.jobs distinct there;
        may = pass;
        first = λ j q at may.
            least (j, q) (In-candidates test db.jobs (j, q) (get-In j q db.jobs at) may);
      }

  select-none : choose session now kinds db ≡ none → claim_select session now kinds db ≡ (none, db)
  unfolding claim_select
  select-none h = rw (h, claim_select)

  select-some :
      (id : ℕ) (r : JobRecord)
      → choose session now kinds db ≡ some (id, r)
      → claim_select session now kinds db ≡ (some id, record db { locks = put id session db.locks })
  unfolding claim_select
  select-some id r h = rw (h, claim_select)

  -- On a table whose identifiers are distinct, claim_next either finds that no job may be claimed
  -- by this session, answers none and changes nothing; or it leases a job that may be claimed and
  -- that none of the others that may be is due before (by time, then by identifier), stores it
  -- with the lease as its answer, and leaves it unlocked.
  pub claim_next-outcome :
      (token : String) (until : ℕ)
      → ((claim_next session now token until kinds db ≡ (none, db))
          × ((j : ℕ) (q : JobRecord)
              → get j db.jobs ≡ some q
              → claimable session now kinds db j q ≡ false))
        ⊎ ((id : ℕ) × (r : JobRecord) × Oldest id r
            × (claim_next session now token until kinds db ≡ (
              some (lease_row now token until r),
              record db {
                jobs = put id (lease_row now token until r) db.jobs;
                locks = remove id (put id session db.locks);
              },
            )))
  unfolding claim_next claim_write
  claim_next-outcome token until = elim (Option-cases (choose session now kinds db)) [
    | inl idle ↦ inl (ap (after_select now token until) (select-none idle), choose-none idle)
    | inr ((id, r), chosen) ↦
        let oldest = choose-some id r chosen in
        inr (
          id,
          r,
          oldest,
          (ap (after_select now token until) (select-some id r chosen)
              ∙ rw (oldest.at, claim_write)),
        )
  ]

choose-may :
    (session : String) (now : ℕ) (kinds : Option (List String)) (db : InMemoryJobsDatabase)
    → Distinct db.jobs
    → (id : ℕ) (r : JobRecord) → choose session now kinds db ≡ some (id, r)
    → claimable session now kinds db id r ≡ true
choose-may session now kinds db distinct id r h =
    (choose-some session now kinds db distinct id r h).may

select-inv :
    (session : String) (now : ℕ) (kinds : Option (List String)) (db : InMemoryJobsDatabase) (id : ℕ)
    → (claim_select session now kinds db).0 ≡ some id
    → (r : JobRecord) × (choose session now kinds db ≡ some (id, r))
unfolding claim_select
select-inv session now kinds db id h = elim (Option-cases (choose session now kinds db)) [
  | inl idle ↦ ground (arith, idle)
  | inr ((j, r), chosen) ↦ (r, ground (arith, chosen))
]

-- A session may not claim what another has locked.
locked_out :
    (id j : ℕ) (session other : String) (later : ℕ) (kinds : Option (List String))
    (db : InMemoryJobsDatabase) (q : JobRecord)
    → (session == other) ≡ false
    → claimable other later kinds (record db { locks = put id session db.locks }) j q ≡ true
    → j ≢ id
unfolding claimable
locked_out id j session other later kinds db q differ may e =
    ground (arith, get-put id j session db.locks, nat_eq.beq_iff id j)

module _ (session : String) (now : ℕ) (kinds : Option (List String)) (db : InMemoryJobsDatabase)
    (distinct : Distinct db.jobs) where
  -- On a table whose identifiers are distinct, a job that a session has chosen and not yet written
  -- is not the one that another session with another name chooses next, at any time and for any
  -- kinds.
  pub claim_select-exclusive :
      (other : String) (later : ℕ) (kinds' : Option (List String)) (id j : ℕ)
      → (session == other) ≡ false
      → (claim_select session now kinds db).0 ≡ some id
      → (claim_select other later kinds' (claim_select session now kinds db).1).0 ≡ some j
      → j ≢ id
  claim_select-exclusive other later kinds' id j differ mine theirs =
      let (r, chosen) = select-inv session now kinds db id mine in
      let locked : InMemoryJobsDatabase = record db { locks = put id session db.locks } in
      let after : (claim_select session now kinds db).1 ≡ locked =
        ap (λ (x : Option ℕ × InMemoryJobsDatabase). x.1)
          (select-some session now kinds db distinct id r chosen) in
      let theirs' : (claim_select other later kinds' locked).0 ≡ some j =
        subst (λ d. (claim_select other later kinds' d).0 ≡ some j) after theirs in
      let (q, chosen') = select-inv other later kinds' locked j theirs' in
      locked_out id j session other later kinds' db q differ
        (choose-may other later kinds' locked distinct j q chosen')
