-- ===== src/Domain/Validation/Proposal.antt =====
-- A proposal's claims are each accepted or rejected.
use semiconductor_intel.Prelude.{
  ℕ, zero, suc, ◌+◌, ◌≡◌, refl, sym, ap, ◌∙◌, String, Bool, Option, none, some, List, [], ◌∷◌,
  arith, length, nat_eq, In, inl, inr,
}
use semiconductor_intel.Prelude.Dict.{Dict}
use semiconductor_intel.Domain.Quotes.{Text}
use semiconductor_intel.Domain.Validation.{
  ClaimProposal, ValidatedClaim, RejectedClaim, Outcome, accepted, rejected, ValidatedExtraction,
  add, validate_claim, validate_from, validate_proposal,
}

-- claims[k], if there is one.
abbrev pub nth : {A : Type 0} → ℕ → List A → Option A
nth k [] = none
nth zero (x ∷ xs) = some x
nth (suc k) (x ∷ xs) = nth k xs

-- The outcome of the claim that the rejection names is this rejection.
abbrev pub Rejection : (ClaimProposal → Outcome) → ℕ → List ClaimProposal → RejectedClaim → Type 0
Rejection check i claims x =
    (k : ℕ) × (x.index ≡ i + k)
    × ((c : ClaimProposal) × (nth k claims ≡ some c)
        × ((r : RejectedClaim) × (check c ≡ rejected r) × (r.code ≡ x.code)))

abbrev pub Acceptance : (ClaimProposal → Outcome) → List ClaimProposal → ValidatedClaim → Type 0
Acceptance check claims v = (c : ClaimProposal) × In c claims × (check c ≡ accepted v)

-- What the results hold of the claims from index i on.
abbrev pub Sorted :
    (ClaimProposal → Outcome) → ℕ → List ClaimProposal → ValidatedExtraction → Type 0
Sorted check i claims r =
    (length r.accepted_claims + length r.rejected_claims ≡ length claims)
    × ((v : ValidatedClaim) → In v r.accepted_claims → Acceptance check claims v)
    × ((x : RejectedClaim) → In x r.rejected_claims → Rejection check i claims x)

later_Rejection :
    (check : ClaimProposal → Outcome) (i : ℕ) (c : ClaimProposal) (claims : List ClaimProposal)
    (x : RejectedClaim)
    → Rejection check (suc i) claims x
    → Rejection check i (c ∷ claims) x
later_Rejection check i c claims x (k, at, rest) = (suc k, omega (arith, at), rest)

add-Sorted :
    (check : ClaimProposal → Outcome) (i : ℕ) (c : ClaimProposal) (claims : List ClaimProposal)
    (o : Outcome) (r : ValidatedExtraction)
    → check c ≡ o
    → Sorted check (suc i) claims r
    → Sorted check i (c ∷ claims) (add i o r)
add-Sorted check i c claims (accepted v) r is (count, good, bad) = (
  omega (arith, count),
  (λ w m. elim m [
    | inl same ↦ (c, inl refl, is ∙ ap accepted (sym same))
    | inr more ↦ let (d, there, e) = good w more in (d, inr there, e)
  ]),
  λ x m. later_Rejection check i c claims x (bad x m),
)
add-Sorted check i c claims (rejected x) r is (count, good, bad) = (
  omega (arith, count),
  (λ w m. let (d, there, e) = good w m in (d, inr there, e)),
  λ y m. elim m [
    | inl same ↦ (
      0,
      ap (λ (z : RejectedClaim). z.index) same ∙ omega arith,
      (c, refl, (x, is, sym (ap (λ (z : RejectedClaim). z.code) same))),
    )
    | inr more ↦ later_Rejection check i c claims y (bad y more)
  ],
)

module _ (space : ℕ → Bool) (numbers_in : Text → List String) (min_chars : ℕ)
    (blocks : Dict String Text) where
  validate_from-Sorted :
      (i : ℕ) (claims : List ClaimProposal)
      → Sorted
          (validate_claim space numbers_in min_chars blocks)
          i
          claims
          (validate_from space numbers_in min_chars blocks i claims)
  unfolding validate_from
  validate_from-Sorted i [] = (omega arith, (λ v m. absurd m), λ x m. absurd m)
  validate_from-Sorted i (c ∷ claims) =
      add-Sorted (validate_claim space numbers_in min_chars blocks) i c claims _ _ refl
        (validate_from-Sorted (suc i) claims)

  -- The accepted and the rejected claims of a proposal are together as many as its claims; each
  -- accepted one is what validate_claim accepts of some claim, and each rejection has the index of a
  -- claim that validate_claim rejects with the same code.
  pub validate_proposal-Sorted :
      (claims : List ClaimProposal)
      → Sorted
          (validate_claim space numbers_in min_chars blocks)
          0
          claims
          (validate_proposal space numbers_in min_chars blocks claims)
  unfolding validate_proposal
  validate_proposal-Sorted claims = validate_from-Sorted 0 claims
