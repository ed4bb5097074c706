-- ===== src/Services/Timeline/Spans.antt =====
-- Time values and windows as sets of instants.
use semiconductor_intel.Prelude.{
  ℕ, ◌≤◌, ◌<◌, ◌≡◌, ◌↔◌, refl, true, ◌&&◌, Option, none, some, ltb, max, arith,
}
use semiconductor_intel.Domain.Times.{
  TimeValue, Precision, instant, day, month, year, range, unknown, interval, nonempty, Bounds, both,
  time_value_bounds, occurred_span,
}
use semiconductor_intel.Services.Timeline.{intersects, overlaps, in_window}

-- The instants that a time value covers.
abbrev pub CoversSpan : Option ℕ → Option ℕ → ℕ → Type 0
CoversSpan none end t = ⊥
CoversSpan (some s) none t = ⊥
CoversSpan (some s) (some e) t = (s ≤ t) × (t < e)

abbrev pub CoversAs : Precision → Option ℕ → Option ℕ → ℕ → Type 0
CoversAs unknown start end t = ⊥
CoversAs instant start end t = start ≡ some t
CoversAs _ start end t = CoversSpan start end t

abbrev pub Covers : TimeValue → ℕ → Type 0
Covers tv t = CoversAs tv.precision tv.start tv.end t

abbrev value : Precision → Option ℕ → Option ℕ → TimeValue
value p start end = record { start = start; end = end; precision = p }

span-meets :
    (s e from to : ℕ)
    → s < e
    → from < to
    → ((ltb s to && ltb from e) ≡ true) ↔ ((t : ℕ) × ((s ≤ t) × (t < e)) × (from ≤ t) × (t < to))
span-meets s e from to proper open_ = (
  (λ h. (max s from, (omega arith, ground arith), omega arith, ground arith)),
  λ (t, (after, before), in_, out). ground (arith, after, before, in_, out),
)

overlaps-meets :
    (start end : Option ℕ) (from to : ℕ)
    → nonempty start end ≡ true
    → from < to
    → (overlaps start end from to ≡ true)
      ↔ ((t : ℕ) × CoversSpan start end t × (from ≤ t) × (t < to))
overlaps-meets none end from to proper open_ = absurd cc
overlaps-meets (some s) none from to proper open_ = absurd cc
overlaps-meets (some s) (some e) from to proper open_ = span-meets s e from to (ground arith) open_

point-meets :
    (start : Option ℕ) (from to : ℕ)
    → (in_window start from to ≡ true) ↔ ((t : ℕ) × (start ≡ some t) × (from ≤ t) × (t < to))
point-meets none from to = ((λ h. cc), λ (t, is, in_, out). cc)
point-meets (some s) from to = (
  (λ h. (s, refl, ground arith, ground arith)),
  λ (t, is, in_, out). let same : s ≡ t = cc in ground (arith, same, in_, out),
)

meets :
    (p : Precision) (start end : Option ℕ) (from to : ℕ)
    → interval (value p start end) ≡ true
    → from < to
    → (intersects (value p start end) from to ≡ true)
      ↔ ((t : ℕ) × CoversAs p start end t × (from ≤ t) × (t < to))
unfolding intersects interval
meets unknown start end from to proper open_ = ((λ h. cc), λ (t, is, in_, out). absurd is)
meets instant start end from to proper open_ = point-meets start from to
meets day start end from to proper open_ = overlaps-meets start end from to proper open_
meets month start end from to proper open_ = overlaps-meets start end from to proper open_
meets year start end from to proper open_ = overlaps-meets start end from to proper open_
meets range start end from to proper open_ = overlaps-meets start end from to proper open_

-- A valid time value intersects a window that is not empty exactly when it covers an instant of the
-- window, the bounds being half open; an unknown date covers none.
pub intersects-Covers :
    (tv : TimeValue) (window_from window_to : ℕ)
    → interval tv ≡ true
    → window_from < window_to
    → (intersects tv window_from window_to ≡ true)
      ↔ ((t : ℕ) × Covers tv t × (window_from ≤ t) × (t < window_to))
intersects-Covers tv window_from window_to proper open_ =
    meets tv.precision tv.start tv.end window_from window_to proper open_

-- What the query for events takes as the end: `coalesce(occurred_end, occurred_start)`.
abbrev pub coalesced : Bounds → Bounds
coalesced (start, none) = (start, start)
coalesced (start, some e) = (start, some e)

proper_span :
    (start end : Option ℕ)
    → nonempty start end ≡ true
    → (b : Bounds) × (Path (Option Bounds) (both start end) (some b))
      × (Path (Option Bounds) (both start end) (some (coalesced b)))
proper_span none end proper = absurd cc
proper_span (some s) none proper = absurd cc
proper_span (some s) (some e) proper = ((some s, some e), refl, refl)

spans :
    (p : Precision) (start end : Option ℕ)
    → interval (value p start end) ≡ true
    → (b : Bounds) × (occurred_span (value p start end) ≡ some b)
      × (time_value_bounds (value p start end) ≡ some (coalesced b))
unfolding interval occurred_span time_value_bounds
spans unknown start end proper = ((none, none), refl, refl)
spans instant none end proper = absurd cc
spans instant (some s) end proper = ((some s, none), refl, refl)
spans day start end proper = proper_span start end proper
spans month start end proper = proper_span start end proper
spans year start end proper = proper_span start end proper
spans range start end proper = proper_span start end proper

-- Of a valid time value both projections are defined, and the stored span with its missing end
-- replaced by its start is the pair of absolute bounds.
pub occurred_span-time_value_bounds :
    (tv : TimeValue)
    → interval tv ≡ true
    → (b : Bounds) × (occurred_span tv ≡ some b) × (time_value_bounds tv ≡ some (coalesced b))
occurred_span-time_value_bounds tv proper = spans tv.precision tv.start tv.end proper
