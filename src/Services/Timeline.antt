-- ===== src/Services/Timeline.antt =====
-- What a timeline shows: src/intel/services/timeline.py, without the cursor's encoding and pages.
mod Spans
mod Revisions
mod Samples
use semiconductor_intel.Prelude.{
  ℕ, String, Bool, true, false, ◌&&◌, ◌||◌, Option, none, some, List, [], ◌∷◌, ltb, leb, ◌==◌,
  nat_eq, if◌then◌else◌, keep,
}
use semiconductor_intel.Domain.Times.{TimeValue, Precision, instant, unknown}

abbrev pub in_window : Option ℕ → ℕ → ℕ → Bool
in_window none from to = false
in_window (some s) from to = leb from s && ltb s to

abbrev pub overlaps : Option ℕ → Option ℕ → ℕ → ℕ → Bool
overlaps none end from to = false
overlaps (some s) none from to = ltb s to && ltb from s
overlaps (some s) (some e) from to = ltb s to && ltb from e

unfoldable pub intersects : TimeValue → ℕ → ℕ → Bool
intersects tv window_from window_to = elim tv.precision [
  | unknown ↦ false
  | instant ↦ in_window tv.start window_from window_to
  | _ ↦ overlaps tv.start tv.end window_from window_to
]

abbrev pub visible_at : ℕ → ℕ → Bool
visible_at discovered_at as_of = leb discovered_at as_of

pub record RevisionLike : Type 0 where
  pub id : ℕ
  pub recorded_at : ℕ
  pub text : String

-- The order of the key `(recorded_at, id)`.
unfoldable pub key_lt : RevisionLike → RevisionLike → Bool
key_lt p q = ltb p.recorded_at q.recorded_at || (p.recorded_at == q.recorded_at && ltb p.id q.id)

-- `max`: the first of the greatest.
unfoldable pub greatest : RevisionLike → List RevisionLike → RevisionLike
unfolding key_lt
greatest best [] = best
greatest best (r ∷ rest) = greatest (if key_lt best r then r else best) rest

abbrev pub latest : List RevisionLike → Option RevisionLike
latest [] = none
latest (r ∷ rest) = some (greatest r rest)

unfoldable pub select_revision : List RevisionLike → ℕ → Option RevisionLike
unfolding greatest
select_revision revisions as_of =
    latest (keep (λ (r : RevisionLike). leb r.recorded_at as_of) revisions)
