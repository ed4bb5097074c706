-- ===== src/Domain/Samples.antt =====
-- The rules on small texts and events.
use semiconductor_intel.Prelude.{
  ℕ, ◌≡◌, refl, ◌↔◌, ◌≤◌, String, Bool, true, false, none, some, List, [], ◌∷◌, ◌++◌, nat_eq,
  string_eq, ◌==◌, any_of, if◌then◌else◌, In, take, drop,
}
use semiconductor_intel.Prelude.Dict.{Dict, get}
use semiconductor_intel.Domain.Quotes.{
  Text, locate_quote, locate_quote-Spans, Spans, Covered, spans_from, find_from, find,
}
use semiconductor_intel.Domain.Validation.{
  ClaimProposal, ValidatedClaim, accepted, source_statement, validate_claim, validate_proposal,
  locate_all, numeric_support, quotes_of,
}
use semiconductor_intel.Domain.Validation.Accepted.{Verified, validate_claim-Verified}
use semiconductor_intel.Domain.Validation.Proposal.{Sorted, validate_proposal-Sorted}
use semiconductor_intel.Domain.Identity.{
  StrongKey, key, build_identity_key, can_auto_merge, duplicate_candidates, required_components,
  optional_components, event_identity_components,
}
use semiconductor_intel.Domain.Identity.Merge.{
  build_identity_key-merge, duplicate_candidates-In, components_of, value,
}

abbrev block : Text
block = 97 ∷ 52 ∷ 98 ∷ 32 ∷ 97 ∷ []

locate_quote-Spans_example :
    Spans block (52 ∷ 98 ∷ []) 0 (locate_quote block (52 ∷ 98 ∷ []))
    × ((j : ℕ)
        → take 2 (drop j block) ≡ 52 ∷ 98 ∷ []
        → Covered j (locate_quote block (52 ∷ 98 ∷ [])))
locate_quote-Spans_example = locate_quote-Spans block 52 (98 ∷ [])

abbrev space : ℕ → Bool
space c = c == 32

-- The one number that the sample texts have.
abbrev numbers_in : Text → List String
numbers_in t = if any_of (λ c. c == 52) t then "4" ∷ [] else []

abbrev blocks : Dict String Text
blocks = ("b1", block) ∷ []

abbrev claim : ClaimProposal
claim = record {
  kind = source_statement;
  text = 120 ∷ 52 ∷ [];
  attribution = none;
  conditions = [];
  evidence = record { block_id = "b1"; exact_quote = 52 ∷ 98 ∷ [] } ∷ [];
}

abbrev validated : ValidatedClaim
validated = record {
  claim = claim;
  locations =
      record { block_id = "b1"; start_char = 1; end_char = 3; exact_quote = 52 ∷ 98 ∷ [] } ∷ [];
  downgraded = true;
}

program : Unit {0}
unfolding validate_claim locate_all numeric_support locate_quote spans_from find_from find get
    build_identity_key required_components optional_components event_identity_components
    can_auto_merge
program = tt

claim-accepted : validate_claim space numbers_in 2 blocks claim ≡ accepted validated
unfolding program
claim-accepted = refl

validate_claim-Verified_example :
    (claim ≡ claim)
    × (1 ≤ 1)
    × Verified space 2 blocks claim.evidence validated.locations
    × ((n : String)
        → In n (numbers_in claim.text)
        → (q : Text) × In q (quotes_of validated.locations) × In n (numbers_in q))
validate_claim-Verified_example =
    validate_claim-Verified space numbers_in 2 blocks claim validated claim-accepted

validate_proposal-Sorted_example :
    Sorted
      (validate_claim space numbers_in 3 blocks)
      0
      (claim ∷ [])
      (validate_proposal space numbers_in 3 blocks (claim ∷ []))
validate_proposal-Sorted_example = validate_proposal-Sorted space numbers_in 3 blocks (claim ∷ [])

abbrev first_fields : Dict String String
first_fields = ("correction_ref", "c1") ∷ ("target_ref", "t1") ∷ []

abbrev second_fields : Dict String String
second_fields = ("correction_ref", "c1") ∷ ("target_ref", "t2") ∷ []

abbrev blank : String → Bool
blank v = v == ""

abbrev same_text : String → String
same_text v = v

abbrev correction : String → StrongKey
correction target = record {
  event_type = "correction";
  components = ("correction_ref", "c1") ∷ ("target_ref", target) ∷ [];
}

first-key : build_identity_key blank same_text "correction" first_fields ≡ key (correction "t1")
unfolding program
first-key = refl

second-key : build_identity_key blank same_text "correction" second_fields ≡ key (correction "t2")
unfolding program
second-key = refl

build_identity_key-merge_example :
    (required : List String) × (optional : List String) × (components_of blank same_text
        "correction"
      ≡ some (required, optional))
    × ((can_auto_merge (correction "t1") (correction "t2") ≡ true) ↔ (
        (n : String)
        → In n (required ++ optional)
        → value blank same_text first_fields n ≡ value blank same_text second_fields n))
    × ((n : String)
        → In n required
        → ((raw : String) × (get n first_fields ≡ some raw) × (blank raw ≡ false))
          × ((raw : String) × (get n second_fields ≡ some raw) × (blank raw ≡ false)))
build_identity_key-merge_example =
    build_identity_key-merge blank same_text "correction" first_fields second_fields
      (correction "t1") (correction "t2") first-key second-key

duplicate_candidates-In_example :
    In "e2" (
      duplicate_candidates
        (correction "t1")
        (("e1", correction "t2") ∷ ("e2", correction "t1") ∷ []))
    ↔ In {A = String × StrongKey}
        ("e2", correction "t1")
        (("e1", correction "t2") ∷ ("e2", correction "t1") ∷ [])
duplicate_candidates-In_example =
    duplicate_candidates-In (correction "t1")
      (("e1", correction "t2") ∷ ("e2", correction "t1") ∷ []) "e2"
