-- ===== src/Domain/Urls.antt =====
-- The query of a canonical URL: src/intel/domain/urlnorm.py. `str.lower` and `unquote` are
-- parameters.
mod Filter
mod Samples
use semiconductor_intel.Prelude.{
  ℕ, String, Bool, true, false, not, ◌&&◌, ◌||◌, List, [], ◌∷◌, keep, any_of, ◌==◌, nat_eq,
  string_eq, if◌then◌else◌,
}
use Prim.Native.String.{◌++◌ as ◌<>◌}
use Prim.Native.Char.{Char, code}

-- TRACKING_PARAMS
unfoldable pub tracking_params : List String
tracking_params =
    "fbclid" ∷ "gclid" ∷ "msclkid" ∷ "twclid" ∷ "igshid" ∷ "yclid" ∷ "mc_cid" ∷ "mc_eid" ∷ "_ga"
    ∷ "_gl" ∷ []

unfoldable pub starts_with : String → String → Bool
starts_with String.[] s = true
starts_with (String.◌∷◌ c p) String.[] = false
starts_with (String.◌∷◌ c p) (String.◌∷◌ d s) = code c == code d && starts_with p s

unfoldable pub is_tracking_param : (String → String) → String → Bool
unfolding tracking_params starts_with
is_tracking_param lower name =
    any_of (λ p. p == lower name) tracking_params || starts_with "utm_" (lower name)

abbrev pub is_char : ℕ → Char → Bool
is_char n c = code c == n

abbrev pub push : Char → List String → List String
push c [] = String.◌∷◌ c "" ∷ []
push c (s ∷ rest) = String.◌∷◌ c s ∷ rest

-- s.split("&")
unfoldable pub split_amp : String → List String
split_amp String.[] = "" ∷ []
split_amp (String.◌∷◌ c s) =
    let rest = split_amp s in if is_char 38 c then "" ∷ rest else push c rest

-- "&".join(l)
unfoldable pub join_amp : List String → String
join_amp [] = ""
join_amp (s ∷ []) = s
join_amp (s ∷ t ∷ rest) = s <> "&" <> join_amp (t ∷ rest)

-- segment.split("=", 1)[0]
unfoldable pub key_of : String → String
key_of String.[] = ""
key_of (String.◌∷◌ c s) = let rest = key_of s in if is_char 61 c then "" else String.◌∷◌ c rest

module _ (lower unquote : String → String) where
  unfoldable pub survives : String → Bool
  unfolding is_tracking_param key_of
  survives segment = not (segment == "") && not (is_tracking_param lower (unquote (key_of segment)))

  unfoldable pub filter_query : String → String
  unfolding split_amp join_amp survives
  filter_query query = if query == "" then "" else join_amp (keep survives (split_amp query))
