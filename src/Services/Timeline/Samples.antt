-- ===== src/Services/Timeline/Samples.antt =====
-- A month, and the revisions of one event.
use semiconductor_intel.Prelude.{
  ℕ, ◌≤◌, ◌<◌, ◌≡◌, ◌↔◌, refl, true, false, none, some, List, [], ◌∷◌, ◌++◌, In, arith,
}
use semiconductor_intel.Domain.Times.{
  TimeValue, month, interval, Bounds, occurred_span, time_value_bounds,
}
use semiconductor_intel.Services.Timeline.{RevisionLike, key_lt, intersects, select_revision}
use semiconductor_intel.Services.Timeline.Spans.{
  Covers, coalesced, intersects-Covers, occurred_span-time_value_bounds,
}
use semiconductor_intel.Services.Timeline.Revisions.{select_revision-Latest}

abbrev july : TimeValue
july = record { start = some 10; end = some 20; precision = month }

july-valid : interval july ≡ true
unfolding interval
july-valid = refl

intersects-Covers_example :
    (intersects july 15 30 ≡ true) ↔ ((t : ℕ) × Covers july t × (15 ≤ t) × (t < 30))
intersects-Covers_example = intersects-Covers july 15 30 july-valid (omega arith)

occurred_span-time_value_bounds_example :
    (b : Bounds) × (occurred_span july ≡ some b) × (time_value_bounds july ≡ some (coalesced b))
occurred_span-time_value_bounds_example = occurred_span-time_value_bounds july july-valid

abbrev revision : ℕ → ℕ → RevisionLike
revision id at = record { id = id; recorded_at = at; text = "" }

abbrev two : List RevisionLike
two = revision 2 10 ∷ revision 1 10 ∷ []

select_revision-Latest_example :
    ((r : RevisionLike)
      → select_revision two 12 ≡ some r
      → In r two
        × (r.recorded_at ≤ 12)
        × ((q : RevisionLike) → In q two → q.recorded_at ≤ 12 → key_lt r q ≡ false))
    × (select_revision two 12 ≡ none → (q : RevisionLike) → In q two → 12 < q.recorded_at)
    × ((xs ys : List RevisionLike) (r : RevisionLike)
        → two ≡ xs ++ ys
        → 12 < r.recorded_at
        → select_revision (xs ++ r ∷ ys) 12 ≡ select_revision two 12)
select_revision-Latest_example = select_revision-Latest two 12
