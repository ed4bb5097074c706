-- ===== src/Domain/Identity.antt =====
-- src/intel/domain/identity.py: the strong key of an event. `str.strip` and `str.casefold`, which the
-- values are normalized by, are given.
pub mod Merge
use semiconductor_intel.Prelude.{
  ℕ, ◌≡◌, ◌≢◌, refl, sym, ap, ◌∙◌, ◌↔◌, String, Bool, true, false, not, ◌&&◌, Option, none, some,
  List, [], ◌∷◌, arith, string_eq, ◌==◌, if◌then◌else◌, In, Bool-cases, inl, inr, ◌⊎◌, Option-cases,
  Eq, subst,
}
use semiconductor_intel.Prelude.Dict.{Dict, get}

-- The required and the optional components of each type, in the order of the key.
unfoldable pub event_identity_components : Dict String (List String × List String)
event_identity_components =
    ("paper_version", ("work_id" ∷ "version" ∷ "action" ∷ [], []))
    ∷ ("product_release", ("release_ref" ∷ "product" ∷ "phase" ∷ [], "version" ∷ "region" ∷ []))
    ∷ ("product_change", ("product" ∷ "attribute" ∷ "change_ref" ∷ [], "effective_window" ∷ []))
    ∷ ("commercial_announcement", ("announcement_ref" ∷ "counterparty" ∷ "action" ∷ [], []))
    ∷ ("research_result", ("work_id" ∷ "result_key" ∷ [], "conditions" ∷ []))
    ∷ ("correction", ("correction_ref" ∷ "target_ref" ∷ [], []))
    ∷ ("retraction", ("correction_ref" ∷ "target_ref" ∷ [], []))
    ∷ []

pub record StrongKey : Type 0 where
  pub event_type : String
  pub components : List (String × String)

-- The key, none where the evidence is weak, or a ValueError for an unknown type.
pub data KeyResult : Type 0 where
  key : StrongKey → KeyResult
  weak unknown_type : KeyResult

abbrev pub same_components : List (String × String) → List (String × String) → Bool
same_components [] [] = true
same_components [] (d ∷ ds) = false
same_components (c ∷ cs) [] = false
same_components ((n, v) ∷ cs) ((m, w) ∷ ds) = n == m && v == w && same_components cs ds

unfoldable pub can_auto_merge : StrongKey → StrongKey → Bool
can_auto_merge a b = a.event_type == b.event_type && same_components a.components b.components

unfoldable pub duplicate_candidates : StrongKey → Dict String StrongKey → List String
unfolding can_auto_merge
duplicate_candidates k [] = []
duplicate_candidates k ((id, other) ∷ rest) =
    let more = duplicate_candidates k rest in if can_auto_merge k other then id ∷ more else more

abbrev pub or_blank : Option String → String
or_blank none = ""
or_blank (some v) = v

module _ (blank : String → Bool) (normalize : String → String) where
  abbrev pub with_value :
      String → Option String → Option (List (String × String)) → Option (List (String × String))
  with_value name none rest = none
  with_value name (some raw) none = none
  with_value name (some raw) (some more) =
      if blank raw then none else some ((name, normalize raw) ∷ more)

  -- The loop over the required components; none is its early return.
  unfoldable pub required_components :
      Dict String String → List String → List (String × String) → Option (List (String × String))
  required_components fields [] rest = some rest
  required_components fields (name ∷ names) rest =
      with_value name (get name fields) (required_components fields names rest)

  unfoldable pub optional_components : Dict String String → List String → List (String × String)
  optional_components fields [] = []
  optional_components fields (name ∷ names) =
      (name, normalize (or_blank (get name fields))) ∷ optional_components fields names

  abbrev pub strong_key : String → Option (List (String × String)) → KeyResult
  strong_key type none = weak
  strong_key type (some components) = key (record { event_type = type; components = components })

  abbrev pub build_from :
      String → Dict String String → Option (List String × List String) → KeyResult
  build_from type fields none = unknown_type
  build_from type fields (some (required, optional)) =
      strong_key type (required_components fields required (optional_components fields optional))

  unfoldable pub build_identity_key : String → Dict String String → KeyResult
  unfolding required_components optional_components event_identity_components
  build_identity_key type fields =
      if type == "other" then weak else build_from type fields (get type event_identity_components)
