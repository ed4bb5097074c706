-- ===== src/Services/Evolution/Builds.antt =====
-- What a build records.
use semiconductor_intel.Prelude.{
  ℕ, ◌<◌, String, ◌≡◌, ◌⊎◌, ◌↔◌, inl, inr, refl, Bool, true, false, ◌&&◌, ◌||◌, List, [], ◌∷◌, ltb,
  arith, if◌then◌else◌, keep, ◌==◌, string_eq,
}
use semiconductor_intel.Prelude.Json.{Fields}
use semiconductor_intel.Services.Evolution.{
  EdgeDraft, Dropped, EvolutionBuildResult, built, rejected, is_empty, validate_edges,
  build_evolution,
}
use semiconductor_intel.Services.Evolution.Chains.{Reaches}
use semiconductor_intel.Services.Evolution.Walks.{ClosedWalk}
use semiconductor_intel.Services.Evolution.Cycles.{detect_cycles-Reaches}

status_iff :
    (b : Bool)
    → (Path String (if b then "insufficient_evidence" else "ok") "insufficient_evidence")
      ↔ (b ≡ true)
status_iff true = (λ h. refl, λ h. refl)
status_iff false = (λ h. cc, λ h. cc)

cons-empty : {e : EdgeDraft} {l : List EdgeDraft} → Path (List EdgeDraft) (e ∷ l) [] → ⊥
cons-empty h = cc

any_kept : (l : List EdgeDraft) → (is_empty l && false) ≡ false
any_kept [] = refl
any_kept (e ∷ l) = refl

insufficient_iff :
    (edges : List EdgeDraft) (ratio least : ℕ)
    → ((is_empty (keep (λ (e : EdgeDraft). e.basis == "explicit") edges) && is_empty edges)
          || ltb ratio least
        ≡ true)
      ↔ ((edges ≡ []) ⊎ (ratio < least))
insufficient_iff [] ratio least = (λ h. inl refl, λ h. refl)
insufficient_iff (e ∷ edges) ratio least =
    let more = any_kept (keep (λ (x : EdgeDraft). x.basis == "explicit") (e ∷ edges)) in
    (
      (λ h. inr (ground (arith, more))),
      λ h. elim h [ inl empty ↦ absurd (cons-empty empty) | inr low ↦ ground (arith, more) ],
    )

abbrev recorded : List Fields → List EdgeDraft → Fields → ℕ → ℕ → EvolutionBuildResult
recorded stages drafts manifest ratio least = record {
  status =
      if (is_empty (keep (λ (e : EdgeDraft). e.basis == "explicit") (validate_edges drafts).0)
          && is_empty (validate_edges drafts).0)
        || ltb ratio least
      then "insufficient_evidence"
      else "ok";
  stages = stages;
  edges = (validate_edges drafts).0;
  dropped_edges = (validate_edges drafts).1;
  input_manifest = manifest;
}

-- A build either rejects a closed walk of the edges that pass the gates, or records those edges and
-- the dropped ones, the stages and the manifest as given; then no node reaches itself by the recorded
-- edges of the chain relations, and the status says that evidence is insufficient exactly when no
-- edge is recorded or the coverage is below its minimum.
pub build_evolution-outcome :
    (stages : List Fields) (drafts : List EdgeDraft) (manifest : Fields) (ratio least : ℕ)
    → ((c : List String) × (build_evolution stages drafts manifest ratio least ≡ rejected c)
        × ClosedWalk (validate_edges drafts).0 c)
      ⊎ ((r : EvolutionBuildResult) × (build_evolution stages drafts manifest ratio least ≡ built r)
          × (Path
              (List EdgeDraft × List Dropped)
              (r.edges, r.dropped_edges)
              (validate_edges drafts))
          × (Path (List Fields × Fields) (r.stages, r.input_manifest) (stages, manifest))
          × ((a : String) → Reaches r.edges a a → ⊥)
          × ((r.status ≡ "insufficient_evidence") ↔ ((r.edges ≡ []) ⊎ (ratio < least))))
unfolding build_evolution
build_evolution-outcome stages drafts manifest ratio least =
    let edges : List EdgeDraft = (validate_edges drafts).0 in
    elim (detect_cycles-Reaches edges) [
      | inr (c, is, closed) ↦ inl (c, rw (is, build_evolution) refl, closed)
      | inl (w, is, acyclic) ↦ inr (
        recorded stages drafts manifest ratio least,
        rw (is, build_evolution) refl,
        refl,
        refl,
        acyclic,
        let low = insufficient_iff edges ratio least in
            let said = status_iff (
              (is_empty (keep (λ (e : EdgeDraft). e.basis == "explicit") edges) && is_empty edges)
              || ltb ratio least) in
            ((λ h. low.0 (said.0 h)), λ h. said.1 (low.1 h)),
      )
    ]
