-- ===== src/Queue/KindSpec.antt =====
-- The kinds of jobs and their idempotency keys, KIND_SPECS of src/intel/services/jobs.py.
use semiconductor_intel.Prelude.{
  ℕ, ◌≡◌, refl, sym, ◌↔◌, String, Bool, true, ◌&&◌, Option, none, some, List, [], ◌∷◌, arith,
  string_eq, ◌==◌, if◌then◌else◌, In, all_of, any_of, Bool-cases, inl, inr, subst,
}
use Prim.Native.String.{◌++◌ as ◌<>◌}
use semiconductor_intel.Prelude.Dict.{Dict, get}

pub record KindSpec : Type 0 where
  pub key_parts : List String
  pub max_attempts : ℕ

abbrev spec : List String → ℕ → KindSpec
spec parts attempts = record { key_parts = parts; max_attempts = attempts }

unfoldable pub kind_specs : Dict String KindSpec
kind_specs =
    ("discover", spec ("owner" ∷ "feed" ∷ "schedule_slot" ∷ "config_version" ∷ []) 5)
    ∷ ("fetch", spec ("owner" ∷ "discovery_item" ∷ "refresh_epoch" ∷ []) 5)
    ∷ ("parse", spec ("owner" ∷ "capture" ∷ "parser_version" ∷ []) 3)
    ∷ ("index", spec ("owner" ∷ "parse" ∷ "chunker_version" ∷ "embedding_version" ∷ []) 3)
    ∷ (
      "route",
      spec ("owner" ∷ "industry" ∷ "parse" ∷ "industry_revision" ∷ "analysis_version" ∷ []) 3,
    )
    ∷ ("topic_recall", spec ("industry" ∷ "topic_revision" ∷ "window" ∷ "index_generation" ∷ []) 3)
    ∷ ("extract", spec ("industry" ∷ "parse" ∷ "extraction_version" ∷ []) 3)
    ∷ ("event_build", spec ("industry" ∷ "extraction_commit" ∷ "event_policy_version" ∷ []) 3)
    ∷ ("evolution_build", spec ("industry" ∷ "topic_revision" ∷ "input_manifest_hash" ∷ []) 3)
    ∷ ("report_build", spec ("industry" ∷ "report_type" ∷ "period" ∷ "input_manifest_hash" ∷ []) 3)
    ∷ ("archive_answer", spec ("industry" ∷ "message_id" ∷ []) 3)
    ∷ ("investigate", spec ("industry" ∷ "message_id" ∷ "request_version" ∷ []) 3)
    ∷ ("reclassify", spec ("industry" ∷ "config_revision" ∷ "replay_window" ∷ []) 3)
    ∷ ("apply_review", spec ("industry" ∷ "review_id" ∷ "decision_version" ∷ []) 3)
    ∷ ("watch_check", spec ("industry" ∷ "watch" ∷ "schedule_slot" ∷ []) 3)
    ∷ ("source_poll", spec ("owner" ∷ "feed" ∷ "mode" ∷ "idempotency_key" ∷ []) 5)
    ∷ []

abbrev pub member : String → List String → Bool
member n names = any_of (λ m. m == n) names

abbrev pub names_of : Dict String String → List String
names_of [] = []
names_of ((n, v) ∷ parts) = n ∷ names_of parts

-- "/".join of the parts in the order of the key; each of them is there when it is read.
abbrev part : Option String → String
part none = ""
part (some v) = v

abbrev join_parts : Dict String String → List String → String
join_parts parts [] = ""
join_parts parts (n ∷ []) = part (get n parts)
join_parts parts (n ∷ m ∷ names) = part (get n parts) <> "/" <> join_parts parts (m ∷ names)

-- None is the ValidationFailed that is raised.
unfoldable pub build_key : String → KindSpec → Dict String String → Option String
build_key kind spec parts =
    if all_of (λ n. member n (names_of parts)) spec.key_parts
      && all_of (λ n. member n spec.key_parts) (names_of parts)
    then some (kind <> ":" <> join_parts parts spec.key_parts)
    else none

abbrev build_with : String → Option KindSpec → Dict String String → Option String
build_with kind none parts = none
build_with kind (some spec) parts = build_key kind spec parts

unfoldable pub build_idempotency_key : String → Dict String String → Option String
unfolding build_key kind_specs
build_idempotency_key kind parts = build_with kind (get kind kind_specs) parts

member_iff : (n : String) (names : List String) → (member n names ≡ true) ↔ In n names
member_iff n [] = (λ h. cc, λ m. absurd m)
member_iff n (m ∷ names) = ground (arith, string_eq.beq_iff m n, member_iff n names)

all_iff :
    (names among : List String)
    → (all_of (λ n. member n among) names ≡ true) ↔ ((n : String) → In n names → In n among)
all_iff [] among = (λ h n m. absurd m, λ all. refl)
all_iff (k ∷ names) among =
    let here = member_iff k among in
    let more = all_iff names among in
    (
      (λ h n m. elim m [
        | inl e ↦ subst (λ x. In x among) (sym e) (here.0 (ground arith))
        | inr later ↦ more.0 (ground arith) n later
      ]),
      λ all. ground (arith, here.1 (all k (inl refl)), more.1 (λ n m. all n (inr m))),
    )

abbrev fits : KindSpec → Dict String String → Bool
fits spec parts =
    all_of (λ n. member n (names_of parts)) spec.key_parts
    && all_of (λ n. member n spec.key_parts) (names_of parts)

fits_iff :
    (spec : KindSpec) (parts : Dict String String)
    → (fits spec parts ≡ true) ↔ ((n : String) → In n spec.key_parts ↔ In n (names_of parts))
fits_iff spec parts =
    let missing = all_iff spec.key_parts (names_of parts) in
    let extra = all_iff (names_of parts) spec.key_parts in
    (
      (λ h n. (missing.0 (ground arith) n, extra.0 (ground arith) n)),
      λ same. ground (arith, missing.1 (λ n. (same n).0), extra.1 (λ n. (same n).1)),
    )

build_with-inv :
    (kind : String) (o : Option KindSpec) (parts : Dict String String) (k : String)
    → build_with kind o parts ≡ some k
    → (spec : KindSpec) × (o ≡ some spec) × (fits spec parts ≡ true)
unfolding build_key
build_with-inv kind none parts k h = cc
build_with-inv kind (some spec) parts k h = elim (Bool-cases (fits spec parts)) [
  | inl exact ↦ (spec, refl, exact)
  | inr wrong ↦ absurd (ground (arith, wrong))
]

build_with-some :
    (kind : String) (o : Option KindSpec) (spec : KindSpec) (parts : Dict String String)
    → o ≡ some spec
    → fits spec parts ≡ true
    → (k : String) × (build_with kind o parts ≡ some k)
unfolding build_key
build_with-some kind none spec parts e h = cc
build_with-some kind (some other) spec parts e h =
    (kind <> ":" <> join_parts parts other.key_parts, ground (arith, e))

-- A key is built exactly for a known kind whose key parts are the names of the given parts, none
-- missing and none more.
pub build_idempotency_key-parts :
    (kind : String) (parts : Dict String String)
    → ((k : String) × (build_idempotency_key kind parts ≡ some k)) ↔ (
        (spec : KindSpec) × (get kind kind_specs ≡ some spec)
        × ((n : String) → In n spec.key_parts ↔ In n (names_of parts)))
unfolding build_idempotency_key
build_idempotency_key-parts kind parts = (
  (λ (k, h).
      let (spec, known, exact) = build_with-inv kind (get kind kind_specs) parts k h in
      (spec, known, (fits_iff spec parts).0 exact)),
  λ (spec, known, same).
      build_with-some kind (get kind kind_specs) spec parts known ((fits_iff spec parts).1 same),
)
