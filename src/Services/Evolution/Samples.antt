-- ===== src/Services/Evolution/Samples.antt =====
-- The gates, the search and the build on three drafts, two of them one parallel edge.
use semiconductor_intel.Prelude.{
  ◌+◌, ◌<◌, String, ◌≡◌, ◌↔◌, ◌⊎◌, List, [], ◌∷◌, map, In, Unique, length, string_eq,
}
use semiconductor_intel.Prelude.Dict.{triple_eq}
use semiconductor_intel.Prelude.Json.{Fields, end}
use semiconductor_intel.Services.Evolution.{
  EdgeDraft, Dropped, Walk, on, cycle_rejected, EvolutionBuildResult, built, rejected, normalized,
  validate_edges, detect_cycles, build_evolution,
}
use semiconductor_intel.Services.Evolution.Edges.{Passes, validate_edges-Unique}
use semiconductor_intel.Services.Evolution.Chains.{Reaches}
use semiconductor_intel.Services.Evolution.Walks.{ClosedWalk}
use semiconductor_intel.Services.Evolution.Cycles.{detect_cycles-Reaches}
use semiconductor_intel.Services.Evolution.Builds.{build_evolution-outcome}

abbrev draft : String → String → String → EdgeDraft
draft from to relation = record {
  from_node = from;
  to_node = to;
  relation = relation;
  basis = "explicit";
  rationale = "";
  evidence_refs = [];
}

abbrev drafts : List EdgeDraft
drafts = draft "a" "b" "updates" ∷ draft "b" "a" "parallel" ∷ draft "a" "b" "parallel" ∷ []

validate_edges-Unique_example :
    ((e : EdgeDraft) → In e (validate_edges drafts).0 → In e drafts × Passes e)
    × Unique (map normalized (validate_edges drafts).0)
    × ((e : EdgeDraft)
        → In e drafts
        → Passes e
        → In (normalized e) (map normalized (validate_edges drafts).0))
    × (length (validate_edges drafts).0 + length (validate_edges drafts).1 ≡ length drafts)
validate_edges-Unique_example = validate_edges-Unique drafts

abbrev loop : List EdgeDraft
loop = draft "a" "b" "updates" ∷ draft "b" "a" "extends" ∷ []

detect_cycles-Reaches_example :
    ((w : Walk) × (detect_cycles loop ≡ on w) × ((a : String) → Reaches loop a a → ⊥))
    ⊎ ((c : List String) × (detect_cycles loop ≡ cycle_rejected c) × ClosedWalk loop c)
detect_cycles-Reaches_example = detect_cycles-Reaches loop

build_evolution-outcome_example :
    ((c : List String) × (build_evolution [] drafts end 1 0 ≡ rejected c)
      × ClosedWalk (validate_edges drafts).0 c)
    ⊎ ((r : EvolutionBuildResult) × (build_evolution [] drafts end 1 0 ≡ built r)
        × (Path (List EdgeDraft × List Dropped) (r.edges, r.dropped_edges) (validate_edges drafts))
        × (Path (List Fields × Fields) (r.stages, r.input_manifest) ([], end))
        × ((a : String) → Reaches r.edges a a → ⊥)
        × ((r.status ≡ "insufficient_evidence") ↔ ((r.edges ≡ []) ⊎ (1 < 0))))
build_evolution-outcome_example = build_evolution-outcome [] drafts end 1 0
