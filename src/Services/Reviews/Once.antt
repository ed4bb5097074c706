-- ===== src/Services/Reviews/Once.antt =====
-- Whatever is decided and undone, a review is applied at most once, and compensated only after.
use semiconductor_intel.Prelude.{
  ℕ, ◌+◌, ◌≤◌, ◌≡◌, ◌≢◌, refl, sym, ◌∙◌, ap, subst, Bool, true, false, Option, none, some, List, [],
  ◌∷◌, ◌++◌, ◌==◌, nat_eq, arith, Bool-cases, inl, inr, if◌then◌else◌,
}
use semiconductor_intel.Prelude.Dict.{get}
use semiconductor_intel.Services.Reviews.{
  ReviewRecord, Status, pending, approved, rejected, undone, Mutation, applies, compensates, Desk,
  Sources,
}

-- How often the application of a review was asked for, and how often its compensation.
abbrev pub applications : ℕ → List Mutation → ℕ
applications id [] = 0
applications id (applies r ∷ ms) = (if r.id == id then 1 else 0) + applications id ms
applications id (compensates r ∷ ms) = applications id ms

abbrev pub compensations : ℕ → List Mutation → ℕ
compensations id [] = 0
compensations id (applies r ∷ ms) = compensations id ms
compensations id (compensates r ∷ ms) = (if r.id == id then 1 else 0) + compensations id ms

-- What the mutations say of a review in each status.
abbrev pub Standing : Status → Option ℕ → Bool → ℕ → ℕ → Type 0
Standing pending applied_at compensated a c =
    (applied_at ≡ none) × (compensated ≡ false) × (a ≡ 0) × (c ≡ 0)
Standing rejected applied_at compensated a c =
    (applied_at ≡ none) × (compensated ≡ false) × (a ≡ 0) × (c ≡ 0)
Standing approved applied_at compensated a c =
    ((t : ℕ) × (applied_at ≡ some t)) × (compensated ≡ false) × (a ≡ 1) × (c ≡ 0)
Standing undone applied_at compensated a c = (a ≤ 1) × (c ≡ a)

abbrev pub Stands : ReviewRecord → List Mutation → Type 0
Stands r ms =
    Standing r.status r.applied_at r.compensated (applications r.id ms) (compensations r.id ms)

pub applications-append :
    (x : ℕ) (ms : List Mutation) (r : ReviewRecord)
    → (applications x (ms ++ applies r ∷ []) ≡ applications x ms + (if r.id == x then 1 else 0))
      × (compensations x (ms ++ applies r ∷ []) ≡ compensations x ms)
applications-append x [] r = (omega arith, refl)
applications-append x (applies q ∷ ms) r =
    let (a, c) = applications-append x ms r in (omega (arith, a), c)
applications-append x (compensates q ∷ ms) r =
    let (a, c) = applications-append x ms r in (a, omega (arith, c))

pub compensations-append :
    (x : ℕ) (ms : List Mutation) (r : ReviewRecord)
    → (applications x (ms ++ compensates r ∷ []) ≡ applications x ms)
      × (compensations x (ms ++ compensates r ∷ [])
          ≡ compensations x ms + (if r.id == x then 1 else 0))
compensations-append x [] r = (refl, omega arith)
compensations-append x (applies q ∷ ms) r =
    let (a, c) = compensations-append x ms r in (omega (arith, a), c)
compensations-append x (compensates q ∷ ms) r =
    let (a, c) = compensations-append x ms r in (a, omega (arith, c))

module _ (src : Sources) where
  -- Each row stands under its identifier as the mutations say, no other review was touched, and the
  -- identifiers to come are new.
  pub record Sound (s : Desk) : Type 0 where
    pub named : (id : ℕ) (r : ReviewRecord) → get id s.reviews ≡ some r → r.id ≡ id
    pub rows : (id : ℕ) (r : ReviewRecord) → get id s.reviews ≡ some r → Stands r s.mutations
    pub strangers :
        (id : ℕ)
        → get id s.reviews ≡ none
        → (applications id s.mutations ≡ 0) × (compensations id s.mutations ≡ 0)
    pub fresh : (n : ℕ) → s.mints ≤ n → get (src.uuid n) s.reviews ≡ none
    pub apart : (m n : ℕ) → src.uuid m ≡ src.uuid n → m ≡ n

  -- One row is written, and only its own counts change.
  pub record Writes (s t : Desk) (r : ReviewRecord) : Type 0 where
    pub written : (x : ℕ) → get x t.reviews ≡ (if r.id == x then some r else get x s.reviews)
    pub stands : Stands r t.mutations
    pub others :
        (x : ℕ)
        → (r.id == x) ≡ false
        → (applications x t.mutations ≡ applications x s.mutations)
          × (compensations x t.mutations ≡ compensations x s.mutations)
    pub later : s.mints ≤ t.mints
    pub taken : (n : ℕ) → t.mints ≤ n → r.id ≢ src.uuid n

  none-some : {q : ReviewRecord} → Path (Option ReviewRecord) none (some q) → ⊥
  none-some e = cc

  some_injective : {p q : ReviewRecord} → Path (Option ReviewRecord) (some p) (some q) → p ≡ q
  some_injective e = cc

  Writes-hit :
      (s t : Desk) (r q : ReviewRecord) (id : ℕ)
      → Writes s t r
      → (r.id == id) ≡ true
      → get id t.reviews ≡ some q
      → r ≡ q
  Writes-hit s t r q id w same found =
      let is : get id t.reviews ≡ some r = w.written id ∙ rw same refl in
      some_injective (sym is ∙ found)

  Writes-miss :
      (s t : Desk) (r : ReviewRecord) (id : ℕ)
      → Writes s t r
      → (r.id == id) ≡ false
      → get id t.reviews ≡ get id s.reviews
  Writes-miss s t r id w other = w.written id ∙ rw other refl

  Stands-same :
      (q : ReviewRecord) (ms ms' : List Mutation)
      → (applications q.id ms' ≡ applications q.id ms)
        × (compensations q.id ms' ≡ compensations q.id ms)
      → Stands q ms
      → Stands q ms'
  Stands-same q ms ms' (a, c) stands =
      subst (λ x. Standing q.status q.applied_at q.compensated x (compensations q.id ms')) (sym a)
        (subst (λ x. Standing q.status q.applied_at q.compensated (applications q.id ms) x) (sym c)
          stands)

  pub Writes-Sound : (s t : Desk) (r : ReviewRecord) → Sound s → Writes s t r → Sound t
  Writes-Sound s t r sound w = record {
    named = λ id q found. elim (Bool-cases (r.id == id)) [
      | inl same ↦
          ap (λ (x : ReviewRecord). x.id) (sym (Writes-hit s t r q id w same found))
          ∙ (nat_eq.beq_iff r.id id).0 same
      | inr other ↦ sound.named id q (sym (Writes-miss s t r id w other) ∙ found)
    ];
    rows = λ id q found. elim (Bool-cases (r.id == id)) [
      | inl same ↦ subst (λ x. Stands x t.mutations) (Writes-hit s t r q id w same found) w.stands
      | inr other ↦
          let old = sym (Writes-miss s t r id w other) ∙ found in
          let unlike : (r.id == q.id) ≡ false =
            ap (λ x. r.id == x) (sound.named id q old) ∙ other in
          Stands-same q s.mutations t.mutations (w.others q.id unlike) (sound.rows id q old)
    ];
    strangers = λ id missing. elim (Bool-cases (r.id == id)) [
      | inl same ↦
          let is : get id t.reviews ≡ some r = w.written id ∙ rw same refl in
          absurd (none-some (sym missing ∙ is))
      | inr other ↦
          let (a, c) = w.others id other in
          let (a0, c0) = sound.strangers id (sym (Writes-miss s t r id w other) ∙ missing) in
          (a ∙ a0, c ∙ c0)
    ];
    fresh = λ n above. elim (Bool-cases (r.id == src.uuid n)) [
      | inl same ↦ absurd (w.taken n above ((nat_eq.beq_iff r.id (src.uuid n)).0 same))
      | inr other ↦
          Writes-miss s t r (src.uuid n) w other ∙ sound.fresh n (omega (arith, w.later, above))
    ];
    apart = sound.apart;
  }

  -- The identifier of a row is not one of those to come.
  pub known-taken :
      (s : Desk) (id : ℕ) (r : ReviewRecord)
      → Sound s
      → get id s.reviews ≡ some r
      → (n : ℕ) → s.mints ≤ n
      → r.id ≢ src.uuid n
  known-taken s id r sound found n above is = none-some (
      sym (sound.fresh n above)
      ∙ ap (λ x. get x s.reviews) (sym is ∙ sound.named id r found)
      ∙ found)
