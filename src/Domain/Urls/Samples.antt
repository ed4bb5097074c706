-- ===== src/Domain/Urls/Samples.antt =====
-- A query with a tracking parameter and an empty segment.
use semiconductor_intel.Prelude.{In, ◌↔◌, String, ◌≡◌, keep, refl, nat_eq, string_eq}
use semiconductor_intel.Domain.Urls.{
  split_amp, join_amp, survives, filter_query, is_tracking_param, tracking_params, starts_with,
  key_of,
}
use semiconductor_intel.Domain.Urls.Filter.{Stays, filter_query-again}

abbrev same : String → String
same s = s

filtered : filter_query same same "id=1&&utm_source=x&lang=en&gclid=2" ≡ "id=1&lang=en"
unfolding filter_query split_amp join_amp survives is_tracking_param tracking_params starts_with
    key_of
filtered = refl

filter_query-again_example :
    ((s : String)
      → (In s (split_amp (filter_query same same "id=1&&utm_source=x")) × (s ≡ "" → ⊥))
        ↔ (In s (split_amp "id=1&&utm_source=x") × Stays same same s))
    × (keep (survives same same) (split_amp (filter_query same same "id=1&&utm_source=x"))
        ≡ keep (survives same same) (split_amp "id=1&&utm_source=x"))
    × (filter_query same same (filter_query same same "id=1&&utm_source=x")
        ≡ filter_query same same "id=1&&utm_source=x")
filter_query-again_example = filter_query-again same same "id=1&&utm_source=x"
