-- ===== src/Queue/Lifecycle.antt =====
-- The life of a job row: which state changes the code makes, what each row keeps between
-- transactions, and what a sound queue is while workers hold snapshots of the rows they claimed.
pub mod Updates
pub mod Methods
pub mod RowUpdates
pub mod Upkeep
pub mod Claim
pub mod Enqueue
pub mod Runs
pub mod Table
pub mod Service
use semiconductor_intel.Prelude.{
  ℕ, suc, ◌+◌, ◌≤◌, ◌<◌, String, ◌≡◌, refl, sym, ap, subst, ◌∙◌, ◌⊎◌, inl, inr, Bool, true, false,
  Option, none, some, List, [], ◌∷◌, max, arith, In, nat_eq,
}
use semiconductor_intel.Prelude.Dict.{get, Distinct}
use semiconductor_intel.Queue.Rows.{
  JobState, JobRecord, queued, running, succeeded, partial, failed, waiting_review, retry_wait,
  cancelled, is_queued, is_retry_wait, terminal,
}
use semiconductor_intel.Queue.Effects.{Env, Sys}
use semiconductor_intel.Queue.Rules.{allowed}

-- The state changes that some operation makes.
unfoldable pub taken : JobState → JobState → Bool
taken queued running = true
taken running succeeded = true
taken running partial = true
taken running failed = true
taken running waiting_review = true
taken running retry_wait = true
taken running cancelled = true
taken retry_wait queued = true
taken current target = false

-- Any number of them.
pub data Follows (s : JobState) : JobState → Type 0 where
  here : Follows s s
  next : {t u : JobState} → Follows s t → taken t u ≡ true → Follows s u

pub Follows-trans : {s t u : JobState} → Follows s t → Follows t u → Follows s u
Follows-trans p here = p
Follows-trans p (next q e) = next (Follows-trans p q) e

-- No state change leaves a settled state.
unfoldable pub settled : JobState → Bool
unfolding terminal
settled waiting_review = true
settled s = terminal s

pub Follows-settled : {s t : JobState} → settled s ≡ true → Follows s t → t ≡ s
unfolding settled taken
Follows-settled h here = refl
Follows-settled h (next {t = t} {u = u} p e) = ground (arith, Follows-settled h p)

taken_irreflexive : (s : JobState) → taken s s ≡ false
unfolding taken
taken_irreflexive s = ground arith

true-false : true ≡ false → ⊥
true-false h = cc

-- What an operation does to a row that it does not claim: its lease is kept or dropped, its attempt
-- stays, and so does its state, unless it was `from`: then the row may make one change.
pub record Legal (from : JobState) (r r' : JobRecord) : Type 0 where
  pub id : r'.id ≡ r.id
  pub attempt : r'.attempt ≡ r.attempt
  pub budget : r'.max_attempts ≡ r.max_attempts
  pub lease : (r'.lease_token ≡ none) ⊎ (r'.lease_token ≡ r.lease_token)
  pub state : (r'.state ≡ r.state) ⊎ ((r.state ≡ from) × (taken from r'.state ≡ true))

pub Legal-refl : (from : JobState) (r : JobRecord) → Legal from r r
Legal-refl from r = record {
  id = refl;
  attempt = refl;
  budget = refl;
  lease = inr refl;
  state = inl refl;
}

pub Legal-trans :
    (from : JobState) (r q p : JobRecord) → Legal from r q → Legal from q p → Legal from r p
Legal-trans from r q p h k = record {
  id = cc (h.id, k.id);
  attempt = cc (h.attempt, k.attempt);
  budget = cc (h.budget, k.budget);
  lease = ground (arith, h.lease, k.lease);
  state = elim h.state [
    | inl stays ↦ elim k.state [
      | inl stays' ↦ inl (stays' ∙ stays)
      | inr (was, may) ↦ inr (sym stays ∙ was, may)
    ]
    | inr (was, may) ↦ elim k.state [
      | inl stays ↦ inr (was, ap (taken from) stays ∙ may)
      | inr (again, more) ↦
          absurd (true-false (sym may ∙ ap (taken from) again ∙ taken_irreflexive from))
    ]
  ];
}

-- The tries that a job may make: its own limit, or the five of transient errors.
abbrev pub budget_of : JobRecord → ℕ
budget_of r = max 5 r.max_attempts

pub record RowOk (r : JobRecord) : Type 0 where
  pub leased : (t : String) → r.lease_token ≡ some t → r.state ≡ running
  pub bounded : r.attempt ≤ budget_of r
  pub spare : is_queued r.state ≡ true → r.attempt < budget_of r
  pub parked : is_retry_wait r.state ≡ true → r.attempt < budget_of r

-- A snapshot that a worker holds: it was running under a token of its own, and while the row has
-- that token it has that attempt.
pub record Held (env : Env) (c : JobRecord) (s : Sys) : Type 0 where
  pub state : c.state ≡ running
  pub mint : ℕ
  pub minted : mint < s.mints
  pub token : c.lease_token ≡ some (env.token mint)
  pub agree :
      (r : JobRecord)
      → get c.id s.jobs ≡ some r
      → r.lease_token ≡ c.lease_token
      → r.attempt ≡ c.attempt

-- `claims` are the snapshots that were handed out, also to workers that have since lost the lease.
pub record Sound (env : Env) (claims : List JobRecord) (s : Sys) : Type 0 where
  pub distinct : Distinct s.jobs
  pub keys : (id : ℕ) (r : JobRecord) → get id s.jobs ≡ some r → r.id ≡ id
  pub rows : (id : ℕ) (r : JobRecord) → get id s.jobs ≡ some r → RowOk r
  pub fresh : (n : ℕ) → s.mints ≤ n → get (env.uuid n) s.jobs ≡ none
  pub held : (c : JobRecord) → In c claims → Held env c s

-- Every row is still there, and its change is legal.
abbrev pub Progress : JobState → Sys → Sys → Type 0
Progress from s t =
    (id : ℕ) (r : JobRecord)
    → get id s.jobs ≡ some r
    → (r' : JobRecord) × (get id t.jobs ≡ some r') × Legal from r r'

-- What each operation but `claim` does to a sound queue.
pub record Advance (env : Env) (claims : List JobRecord) (from : JobState) (s t : Sys)
    : Type 0 where
  pub sound : Sound env claims s → Sound env claims t
  pub rows : Sound env claims s → Progress from s t

-- What the sources of identifiers and tokens are relied on for: no answer comes twice.
pub record NoRepeats (env : Env) : Type 0 where
  pub uuid : (m n : ℕ) → env.uuid m ≡ env.uuid n → m ≡ n
  pub token : (m n : ℕ) → env.token m ≡ env.token n → m ≡ n

-- What one call of a method does to a row: a claim takes it from the queue and counts a try; else its
-- tries stay, and it keeps its state or makes one change, which is not one of a queued row.
pub data Change (r r' : JobRecord) : Type 0 where
  stays : r'.id ≡ r.id → r'.attempt ≡ r.attempt → r'.state ≡ r.state → Change r r'
  moves :
      r'.id ≡ r.id
      → r'.attempt ≡ r.attempt
      → is_queued r.state ≡ false
      → taken r.state r'.state ≡ true
      → Change r r'
  claimed :
      r'.id ≡ r.id
      → r'.attempt ≡ suc r.attempt
      → r.state ≡ queued
      → r'.state ≡ running
      → Change r r'

pub Legal-Change :
    {from : JobState} (r r' : JobRecord) → is_queued from ≡ false → Legal from r r' → Change r r'
Legal-Change {from} r r' idle l = elim l.state [
  | inl same ↦ stays l.id l.attempt same
  | inr (was, may) ↦
      moves l.id l.attempt (ap is_queued was ∙ idle) (ap (λ s. taken s r'.state) was ∙ may)
]

abbrev pub Changes : Sys → Sys → Type 0
Changes s t =
    (id : ℕ) (r : JobRecord)
    → get id s.jobs ≡ some r
    → (r' : JobRecord) × (get id t.jobs ≡ some r') × Change r r'

-- What any run does to a row: its state follows the allowed changes, its tries do not drop.
pub record Evolves (r r' : JobRecord) : Type 0 where
  pub id : r'.id ≡ r.id
  pub tries : r.attempt ≤ r'.attempt
  pub state : Follows r.state r'.state

pub Change-Evolves : (r r' : JobRecord) → Change r r' → Evolves r r'
unfolding taken
Change-Evolves r r' (stays i a same) = record {
  id = i;
  tries = omega (arith, a);
  state = subst (Follows r.state) (sym same) here;
}
Change-Evolves r r' (moves i a idle may) = record {
  id = i;
  tries = omega (arith, a);
  state = next here may;
}
Change-Evolves r r' (claimed i a was is) = record {
  id = i;
  tries = omega (arith, a);
  state = next here (ap (λ s. taken s r'.state) was ∙ ap (taken queued) is);
}

pub Evolves-trans : (r q p : JobRecord) → Evolves r q → Evolves q p → Evolves r p
Evolves-trans r q p h k = record {
  id = k.id ∙ h.id;
  tries = omega (arith, h.tries, k.tries);
  state = Follows-trans h.state k.state;
}

abbrev pub Development : Sys → Sys → Type 0
Development s t =
    (id : ℕ) (r : JobRecord)
    → get id s.jobs ≡ some r
    → (r' : JobRecord) × (get id t.jobs ≡ some r') × Evolves r r'
