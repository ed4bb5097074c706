-- ===== src/Domain/Validation/Accepted.antt =====
-- What an accepted claim has behind it.
use semiconductor_intel.Prelude.{
  ℕ, ◌+◌, ◌≤◌, ◌<◌, ◌≡◌, refl, String, Bool, true, false, Option, none, some, List, [], ◌∷◌, arith,
  length, take, drop, nat_eq, string_eq, ltb, any_of, all_of, In, inl, inr, Bool-cases, subst,
}
use semiconductor_intel.Prelude.Dict.{Dict, get}
use semiconductor_intel.Domain.Quotes.{Text, locate_quote, locate_quote-Spans, Covered, Spans}
use semiconductor_intel.Domain.Validation.{
  EvidenceProposal, ClaimProposal, QuoteLocation, ValidatedClaim, accepted, Located, found, refused,
  strip, place, check_quote, conclude, is_empty, locate_all, validate_claim, numeric_support,
  quotes_of,
}

all_of-In :
    {A : Type 0} (p : A → Bool) (l : List A) → all_of p l ≡ true → (a : A) → In a l → p a ≡ true
all_of-In p [] h a m = absurd m
all_of-In p (x ∷ l) h a (inl e) = rw e (ground arith)
all_of-In p (x ∷ l) h a (inr m) = all_of-In p l (ground arith) a m

any_of-In :
    {A : Type 0} (p : A → Bool) (l : List A) → any_of p l ≡ true → (a : A) × In a l × (p a ≡ true)
any_of-In p [] h = absurd (ground arith)
any_of-In p (x ∷ l) h = elim (Bool-cases (p x)) [
  | inl this ↦ (x, inl refl, this)
  | inr other ↦ let (a, m, e) = any_of-In p l (ground arith) in (a, inr m, e)
]

-- The one span of a quote: it holds the quote, and the quote stands at no place outside it.
abbrev pub TheOne : Text → Text → ℕ → ℕ → Type 0
TheOne t q a b =
    (b ≡ a + length q)
    × (take (length q) (drop a t) ≡ q)
    × ((j : ℕ) → take (length q) (drop j t) ≡ q → (a ≤ j) × (j < b))

one_span : (t q : Text) (a b : ℕ) → locate_quote t q ≡ (a, b) ∷ [] → TheOne t q a b
unfolding locate_quote
one_span t [] a b h = cc
one_span t (c ∷ q) a b h =
    let (spans, covers) = locate_quote-Spans t c q in
    let (_, ends, holds, _) = subst (Spans t (c ∷ q) 0) h spans in
    (
      ends,
      holds,
      λ j o. elim (subst (Covered j) h (covers j o)) [
        | inl inside ↦ inside
        | inr no_span ↦ absurd no_span
      ],
    )

at_least_one : (es : List EvidenceProposal) → is_empty es ≡ false → 1 ≤ length es
at_least_one [] h = cc
at_least_one (e ∷ es) h = omega arith

place-inv :
    (e : EvidenceProposal) (spans : List (ℕ × ℕ)) (rest : Located) (ls : List QuoteLocation)
    → place e spans rest ≡ found ls
    → (a : ℕ) × (b : ℕ) × (spans ≡ (a, b) ∷ [])
      × (more : List QuoteLocation) × (rest ≡ found more)
      × (ls
          ≡ record {
            block_id = e.block_id;
            start_char = a;
            end_char = b;
            exact_quote = e.exact_quote;
          }
            ∷ more)
place-inv e [] rest ls h = cc
place-inv e ((a, b) ∷ []) (found more) ls h = (a, b, refl, more, refl, cc)
place-inv e ((a, b) ∷ []) (refused c) ls h = cc
place-inv e (s ∷ s' ∷ spans) rest ls h = cc

module _ (space : ℕ → Bool) (min_chars : ℕ) where
  check_quote-inv :
      (e : EvidenceProposal) (o : Option Text) (rest : Located) (ls : List QuoteLocation)
      → check_quote space min_chars e o rest ≡ found ls
      → (block : Text) × (o ≡ some block)
        × (min_chars ≤ length (strip space e.exact_quote))
        × (place e (locate_quote block e.exact_quote) rest ≡ found ls)
  check_quote-inv e none rest ls h = cc
  check_quote-inv e (some block) rest ls h =
      elim (Bool-cases (ltb (length (strip space e.exact_quote)) min_chars)) [
        | inl short ↦ absurd (ground (arith, short))
        | inr long ↦ (block, refl, ground (arith, long), ground (arith, long))
      ]

  module _ (blocks : Dict String Text) where
    -- Each quote is long enough and stands once, at its location, in the block that it names.
    abbrev pub Verified : List EvidenceProposal → List QuoteLocation → Type 0
    Verified [] [] = Unit
    Verified [] (l ∷ ls) = ⊥
    Verified (e ∷ es) [] = ⊥
    Verified (e ∷ es) (l ∷ ls) =
        (l.block_id ≡ e.block_id)
        × (l.exact_quote ≡ e.exact_quote)
        × (min_chars ≤ length (strip space e.exact_quote))
        × ((block : Text) × (get e.block_id blocks ≡ some block)
            × TheOne block e.exact_quote l.start_char l.end_char)
        × Verified es ls

    locate_all-Verified :
        (es : List EvidenceProposal) (ls : List QuoteLocation)
        → locate_all space min_chars blocks es ≡ found ls
        → Verified es ls
    unfolding locate_all
    locate_all-Verified [] [] h = tt
    locate_all-Verified [] (l ∷ ls) h = cc
    locate_all-Verified (e ∷ es) ls h =
        let (block, there, long, placed) = check_quote-inv e _ _ ls h in
        let (a, b, one, more, rest, is) =
          place-inv e (locate_quote block e.exact_quote) _ ls placed in
        rw is (
          refl,
          refl,
          long,
          (block, there, one_span block e.exact_quote a b one),
          locate_all-Verified es more rest,
        )

module _ (space : ℕ → Bool) (numbers_in : Text → List String) (min_chars : ℕ)
    (blocks : Dict String Text) where
  numeric_support-In :
      (claim : Text) (quotes : List Text)
      → numeric_support numbers_in claim quotes ≡ true
      → (n : String) → In n (numbers_in claim)
      → (q : Text) × In q quotes × In n (numbers_in q)
  unfolding numeric_support
  numeric_support-In claim quotes h n m =
      let (q, quoted, stands) = any_of-In _ quotes (all_of-In _ (numbers_in claim) h n m) in
      let (k, there, same) = any_of-In _ (numbers_in q) stands in
      (q, quoted, subst (λ x. In x (numbers_in q)) ((string_eq.beq_iff k n).0 same) there)

  conclude-inv :
      (claim : ClaimProposal) (l : Located) (v : ValidatedClaim)
      → conclude space numbers_in claim l ≡ accepted v
      → (ls : List QuoteLocation) × (l ≡ found ls)
        × (v.claim ≡ claim)
        × (v.locations ≡ ls)
        × (numeric_support numbers_in claim.text (quotes_of ls) ≡ true)
  conclude-inv claim (refused c) v h = cc
  conclude-inv claim (found ls) v h =
      elim (Bool-cases (numeric_support numbers_in claim.text (quotes_of ls))) [
        | inl backed ↦ (ls, refl, ground (arith, backed), ground (arith, backed), backed)
        | inr bare ↦ absurd (ground (arith, bare))
      ]

  -- An accepted claim has evidence; each of its quotes is long enough and stands in the block that it
  -- names, at its recorded location and at no place outside it; and each number of the claim's text
  -- stands in one of the quotes.
  pub validate_claim-Verified :
      (claim : ClaimProposal) (v : ValidatedClaim)
      → validate_claim space numbers_in min_chars blocks claim ≡ accepted v
      → (v.claim ≡ claim)
        × (1 ≤ length claim.evidence)
        × Verified space min_chars blocks claim.evidence v.locations
        × ((n : String)
            → In n (numbers_in claim.text)
            → (q : Text) × In q (quotes_of v.locations) × In n (numbers_in q))
  unfolding validate_claim
  validate_claim-Verified claim v h = elim (Bool-cases (is_empty claim.evidence)) [
    | inl bare ↦ absurd (ground (arith, bare))
    | inr some_evidence ↦
        let concluded : conclude space numbers_in claim
              (locate_all space min_chars blocks claim.evidence)
            ≡ accepted v =
          ground (arith, some_evidence) in
        let (ls, all, same, at, backed) = conclude-inv claim _ v concluded in
        (
          same,
          at_least_one claim.evidence some_evidence,
          rw at (locate_all-Verified space min_chars blocks claim.evidence ls all),
          rw at (numeric_support-In claim.text (quotes_of ls) backed),
        )
  ]
