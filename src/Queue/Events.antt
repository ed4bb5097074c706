-- ===== src/Queue/Events.antt =====
-- The log of a job, job_events: only appended to, and numbered 1, 2, 3, ... with no gap.
pub mod Primitives
pub mod Methods
use semiconductor_intel.Prelude.{
  ℕ, zero, suc, ◌+◌, ◌≤◌, ◌≡◌, refl, sym, ◌∙◌, ap, Bool, true, false, Option, none, some, List, [],
  ◌∷◌, inl, inr, ◌++◌, arith, nat_eq, string_eq, ◌==◌, max, length, length-append, any_of,
  Bool-cases, subst, if◌then◌else◌,
}
use semiconductor_intel.Prelude.Dict.{get, put, get-put, triple_eq}
use semiconductor_intel.Prelude.Exec.{Preorder, Relates}
use semiconductor_intel.Queue.Rows.{JobRecord, JobEventRecord, InMemoryJobsDatabase, EventType}
use semiconductor_intel.Queue.Effects.{Env, Sys}
use semiconductor_intel.Queue.Store.{
  events_of, top_seq, next_event_seq, insert_event, or_empty, insert_job, has,
}
use mathlib.Core.List.{append-nil, append_assoc}

-- The numbers n + 1, n + 2, ... in order.
abbrev pub Numbered : ℕ → List JobEventRecord → Type 0
Numbered n [] = Unit
Numbered n (e ∷ es) = (e.seq ≡ suc n) × Numbered (suc n) es

top_seq-Numbered :
    (n : ℕ) (l : List JobEventRecord) → Numbered n l → max n (top_seq l) ≡ n + length l
unfolding top_seq
top_seq-Numbered n [] h = omega arith
top_seq-Numbered n (e ∷ es) h = omega (arith, top_seq-Numbered (suc n) es h.1, h.0)

-- The next number is free.
unused :
    (n m : ℕ) (l : List JobEventRecord)
    → Numbered n l
    → n + length l ≤ m
    → any_of (λ (o : JobEventRecord). o.seq == suc m) l ≡ false
unused n m [] h k = refl
unused n m (e ∷ es) h k = ground (arith, unused (suc n) m es h.1, h.0)

Numbered-append :
    (n : ℕ) (l : List JobEventRecord) (e : JobEventRecord)
    → Numbered n l
    → e.seq ≡ suc (n + length l)
    → Numbered n (l ++ e ∷ [])
Numbered-append n [] e h k = (omega arith, tt)
Numbered-append n (x ∷ xs) e h k = (h.0, Numbered-append (suc n) xs e h.1 (omega arith))

abbrev pub WellNumbered : Sys → Type 0
WellNumbered s = (id : ℕ) → Numbered 0 (events_of id s.db)

-- What every method does to the log of each job.
pub record Appends (s t : Sys) : Type 0 where
  pub numbered : WellNumbered s → WellNumbered t
  pub grown :
      WellNumbered s
      → (id : ℕ) → (more : List JobEventRecord) × (events_of id t.db ≡ events_of id s.db ++ more)

pub Appends-same : (s t : Sys) → t.events ≡ s.events → Appends s t
unfolding events_of
Appends-same s t e = record {
  numbered = λ n id. rw e (n id);
  grown = λ n id. ([], ap (λ d. or_empty (get id d)) e ∙ sym (append-nil _));
}

pub Appends-order : Preorder Appends
Appends-order = record {
  same = λ s. Appends-same s s refl;
  chain = λ s t u h k. record {
    numbered = λ n. k.numbered (h.numbered n);
    grown = λ n id.
        let (more, e) = h.grown n id in
        let (more', e') = k.grown (h.numbered n) id in
        (more ++ more', e' ∙ ap (λ l. l ++ more') e ∙ append_assoc _ more more');
  };
}

-- An event with the next number is inserted.
pub insert_event-next :
    (e : JobEventRecord) (s : Sys)
    → Numbered 0 (events_of e.job_id s.db)
    → e.seq ≡ next_event_seq e.job_id s.db
    → insert_event e s.db
      ≡ (true, record s.db { events = put e.job_id (events_of e.job_id s.db ++ e ∷ []) s.events })
unfolding insert_event next_event_seq
insert_event-next e s n k =
    let l = events_of e.job_id s.db in
    let number : e.seq ≡ suc (length l) = omega (arith, k, top_seq-Numbered 0 l n) in
    let free : any_of (λ (o : JobEventRecord). o.seq == e.seq) l ≡ false =
      rw number (unused 0 (length l) l n (omega arith)) in
    rw (free, insert_event)

-- The logs after the insertion of an event.
logs :
    (e : JobEventRecord) (s : Sys) (id : ℕ)
    → events_of id
        (record s.db { events = put e.job_id (events_of e.job_id s.db ++ e ∷ []) s.events })
      ≡ (if e.job_id == id then events_of e.job_id s.db ++ e ∷ [] else events_of id s.db)
unfolding events_of
logs e s id =
    ground (arith, get-put e.job_id id (or_empty (get e.job_id s.events) ++ e ∷ []) s.events)

insert_event-grown :
    (e : JobEventRecord) (s : Sys)
    → e.seq ≡ next_event_seq e.job_id s.db
    → WellNumbered s
    → (id : ℕ)
    → (more : List JobEventRecord) × (events_of id (insert_event e s.db).1
        ≡ events_of id s.db ++ more)
      × Numbered 0 (events_of id (insert_event e s.db).1)
unfolding next_event_seq
insert_event-grown e s k n id =
    rw (insert_event-next e s (n e.job_id) k) (elim (Bool-cases (e.job_id == id)) [
      | inl same ↦
          let is : e.job_id ≡ id = (nat_eq.beq_iff e.job_id id).0 same in
          let number : e.seq ≡ suc (0 + length (events_of e.job_id s.db)) =
            omega (arith, k, top_seq-Numbered 0 (events_of e.job_id s.db) (n e.job_id)) in
          rw (logs e s id, same)
            (
              e ∷ [],
              ap (λ i. events_of i s.db ++ e ∷ []) is,
              Numbered-append 0 _ e (n e.job_id) number,
            )
      | inr other ↦ rw (logs e s id, other) ([], sym (append-nil _), n id)
    ])

pub insert_event-Appends :
    (e : JobEventRecord) (s : Sys)
    → e.seq ≡ next_event_seq e.job_id s.db
    → Appends s (record s { db = (insert_event e s.db).1 })
insert_event-Appends e s k = record {
  numbered = λ n id. (insert_event-grown e s k n id).2;
  grown = λ n id. let (more, e', _) = insert_event-grown e s k n id in (more, e');
}

insert_job-events :
    (r : JobRecord) (s : Sys) (id : ℕ) → events_of id (insert_job r s.db).1 ≡ events_of id s.db
unfolding events_of insert_job
insert_job-events r s id = ground (arith, get-put r.id id [] s.events, nat_eq.beq_iff r.id id)

-- The log of a new job is empty, if its identifier had none.
pub insert_job-Appends :
    (r : JobRecord) (s : Sys) → Appends s (record s { db = (insert_job r s.db).1 })
insert_job-Appends r s = record {
  numbered = λ n id. rw (insert_job-events r s id) (n id);
  grown = λ n id. ([], insert_job-events r s id ∙ sym (append-nil _));
}
