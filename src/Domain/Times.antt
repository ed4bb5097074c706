-- ===== src/Domain/Times.antt =====
-- Time values and their bounds: `TimeValue` of src/intel/contracts/models.py and
-- src/intel/domain/time.py. A datetime is a number of microseconds in UTC.
use semiconductor_intel.Prelude.{ℕ, Bool, true, false, Option, none, some, ltb}

pub data Precision : Type 0 where
  instant day month year range unknown : Precision

pub record TimeValue : Type 0 where
  pub start : Option ℕ
  pub end : Option ℕ
  pub precision : Precision

abbrev pub is_none : Option ℕ → Bool
is_none none = true
is_none (some t) = false

abbrev pub nonempty : Option ℕ → Option ℕ → Bool
nonempty none end = false
nonempty (some s) none = false
nonempty (some s) (some e) = ltb s e

abbrev point : Option ℕ → Option ℕ → Bool
point none end = false
point (some s) end = is_none end

abbrev absent : Option ℕ → Option ℕ → Bool
absent none end = is_none end
absent (some s) end = false

-- The validator: false where it raises.
unfoldable pub interval : TimeValue → Bool
interval tv = elim tv.precision [
  | unknown ↦ absent tv.start tv.end
  | instant ↦ point tv.start tv.end
  | _ ↦ nonempty tv.start tv.end
]

abbrev pub Bounds : Type 0
Bounds = Option ℕ × Option ℕ

abbrev point_bounds : Option ℕ → Option Bounds
point_bounds none = none
point_bounds (some s) = some (some s, some s)

abbrev point_span : Option ℕ → Option Bounds
point_span none = none
point_span (some s) = some (some s, none)

abbrev pub both : Option ℕ → Option ℕ → Option Bounds
both none end = none
both (some s) none = none
both (some s) (some e) = some (some s, some e)

-- None where a ValueError is raised.
unfoldable pub time_value_bounds : TimeValue → Option Bounds
time_value_bounds tv = elim tv.precision [
  | unknown ↦ some (none, none)
  | instant ↦ point_bounds tv.start
  | _ ↦ both tv.start tv.end
]

unfoldable pub occurred_span : TimeValue → Option Bounds
occurred_span tv = elim tv.precision [
  | unknown ↦ some (none, none)
  | instant ↦ point_span tv.start
  | _ ↦ both tv.start tv.end
]
