-- ===== src/Domain/Validation.antt =====
-- src/intel/domain/validation.py: the checks of a claim against the blocks of its parse. What counts
-- as white space (`str.strip`) and the numbers that the regular expression finds in a text are given.
pub mod Accepted
pub mod Proposal
use semiconductor_intel.Prelude.{
  ℕ, suc, ◌+◌, ◌≤◌, ◌≡◌, refl, String, Bool, true, false, not, ◌&&◌, Option, none, some, List, [],
  ◌∷◌, ◌++◌, arith, length, take, drop, nat_eq, string_eq, ◌==◌, if◌then◌else◌, ltb, any_of, all_of,
  In, Eq,
}
use semiconductor_intel.Prelude.Dict.{Dict, get}
use semiconductor_intel.Domain.Quotes.{Text, locate_quote}

pub data ValidationCode : Type 0 where
  no_evidence block_missing quote_not_found quote_ambiguous : ValidationCode
  quote_too_short numeric_unsupported : ValidationCode

pub data ClaimKind : Type 0 where
  source_statement inference : ClaimKind

pub record EvidenceProposal : Type 0 where
  pub block_id : String
  pub exact_quote : Text

pub record ClaimProposal : Type 0 where
  pub kind : ClaimKind
  pub text : Text
  pub attribution : Option Text
  pub conditions : List Text
  pub evidence : List EvidenceProposal

pub record QuoteLocation : Type 0 where
  pub block_id : String
  pub start_char : ℕ
  pub end_char : ℕ
  pub exact_quote : Text

-- The details of a rejection are a message.
pub record RejectedClaim : Type 0 where
  pub index : ℕ
  pub code : ValidationCode

-- `downgraded`: the one warning there is.
pub record ValidatedClaim : Type 0 where
  pub claim : ClaimProposal
  pub locations : List QuoteLocation
  pub downgraded : Bool

pub data Outcome : Type 0 where
  accepted : ValidatedClaim → Outcome
  rejected : RejectedClaim → Outcome

pub record ValidatedExtraction : Type 0 where
  pub accepted_claims : List ValidatedClaim
  pub rejected_claims : List RejectedClaim

pub data Located : Type 0 where
  found : List QuoteLocation → Located
  refused : ValidationCode → Located

-- The decision on the spans of one quote.
abbrev pub place : EvidenceProposal → List (ℕ × ℕ) → Located → Located
place e [] rest = refused quote_not_found
place e ((a, b) ∷ []) (found more) = found (
    record { block_id = e.block_id; start_char = a; end_char = b; exact_quote = e.exact_quote }
    ∷ more)
place e ((a, b) ∷ []) (refused c) = refused c
place e (s ∷ s' ∷ spans) rest = refused quote_ambiguous

abbrev pub quotes_of : List QuoteLocation → List Text
quotes_of [] = []
quotes_of (l ∷ ls) = l.exact_quote ∷ quotes_of ls

abbrev pub is_empty : List EvidenceProposal → Bool
is_empty [] = true
is_empty (e ∷ es) = false

abbrev pub add : ℕ → Outcome → ValidatedExtraction → ValidatedExtraction
add index (accepted v) r = record r { accepted_claims = v ∷ r.accepted_claims }
add index (rejected x) r = record r {
  rejected_claims = record { index = index; code = x.code } ∷ r.rejected_claims;
}

module _ (space : ℕ → Bool) where
  abbrev pub lstrip : Text → Text
  lstrip [] = []
  lstrip (c ∷ t) = let rest = lstrip t in if space c then rest else c ∷ t

  -- What is left of the text without the white space at its end.
  abbrev pub rstrip : Text → Text
  rstrip [] = []
  rstrip (c ∷ t) = elim (rstrip t) [ [] ↦ if space c then [] else c ∷ [] | d ∷ r ↦ c ∷ d ∷ r ]

  abbrev pub strip : Text → Text
  strip t = rstrip (lstrip t)

  abbrev pub check_quote : ℕ → EvidenceProposal → Option Text → Located → Located
  check_quote min_chars e none rest = refused block_missing
  check_quote min_chars e (some block) rest =
      if ltb (length (strip e.exact_quote)) min_chars
      then refused quote_too_short
      else place e (locate_quote block e.exact_quote) rest

  -- The loop over the evidence: the first failure is the answer.
  unfoldable pub locate_all : ℕ → Dict String Text → List EvidenceProposal → Located
  locate_all min_chars blocks [] = found []
  locate_all min_chars blocks (e ∷ es) =
      check_quote min_chars e (get e.block_id blocks) (locate_all min_chars blocks es)

  abbrev stripped_empty : Text → Bool
  stripped_empty t = elim (strip t) [ [] ↦ true | c ∷ r ↦ false ]

  abbrev pub unattributed : ClaimProposal → Bool
  unattributed claim = elim claim.kind [
    | source_statement ↦ elim claim.attribution [ none ↦ true | some a ↦ stripped_empty a ]
    | inference ↦ false
  ]

module _ (numbers_in : Text → List String) where
  -- Every number of the claim stands in some quote.
  unfoldable pub numeric_support : Text → List Text → Bool
  numeric_support claim quotes =
      all_of (λ n. any_of (λ q. any_of (λ m. m == n) (numbers_in q)) quotes) (numbers_in claim)

module _ (space : ℕ → Bool) (numbers_in : Text → List String) where
  abbrev pub conclude : ClaimProposal → Located → Outcome
  conclude claim (refused c) = rejected (record { index = 0; code = c })
  conclude claim (found locations) =
      if numeric_support numbers_in claim.text (quotes_of locations)
      then accepted
          (record { claim = claim; locations = locations; downgraded = unattributed space claim })
      else rejected (record { index = 0; code = numeric_unsupported })

  unfoldable pub validate_claim : ℕ → Dict String Text → ClaimProposal → Outcome
  unfolding locate_all numeric_support
  validate_claim min_chars blocks claim =
      if is_empty claim.evidence
      then rejected (record { index = 0; code = no_evidence })
      else conclude claim (locate_all space min_chars blocks claim.evidence)

  -- The loop from this index on.
  unfoldable pub validate_from : ℕ → Dict String Text → ℕ → List ClaimProposal → ValidatedExtraction
  unfolding validate_claim
  validate_from min_chars blocks index [] = record { accepted_claims = []; rejected_claims = [] }
  validate_from min_chars blocks index (c ∷ cs) =
      add index (validate_claim min_chars blocks c) (validate_from min_chars blocks (suc index) cs)

  unfoldable pub validate_proposal : ℕ → Dict String Text → List ClaimProposal → ValidatedExtraction
  unfolding validate_from
  validate_proposal min_chars blocks claims = validate_from min_chars blocks 0 claims
