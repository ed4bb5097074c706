-- ===== src/Retrieval/Recall/Samples.antt =====
-- Pages of one document over channels that change their answers.
use semiconductor_intel.Prelude.{
  ℕ, ◌+◌, ◌/◌, String, ◌≡◌, ◌↔◌, refl, Bool, false, none, some, List, [], ◌∷◌, map, In, Unique, ltb,
  ◌==◌, string_eq, nat_eq, if◌then◌else◌,
}
use semiconductor_intel.Prelude.Dict.{get, put}
use semiconductor_intel.Retrieval.Recall.{
  Scores, RawHit, RecallCursor, tally_hit, tally_hits, comes_before, insert, sort, rank_hits,
  collect, records_of, gather, page_of, recall_page, document,
}
use semiconductor_intel.Retrieval.Recall.Ranking.{raw_document, rank_hits-Unique}
use semiconductor_intel.Retrieval.Recall.Pages.{delivered, delivered-Unique}

-- What a page unfolds to.
program : Unit {0}
unfolding delivered recall_page page_of gather records_of collect rank_hits sort insert comes_before
    tally_hits tally_hit get put
program = tt

abbrev naturals : Scores ℕ
naturals = record {
  zero_score = 0;
  plus = λ s r. s + r;
  less = ltb;
  rrf_contrib = λ k rank. 6_000 / (k + rank);
}

abbrev hit : ℕ → RawHit ℕ
hit id = record {
  channel = "bm25";
  industry_document_id = id;
  parse_id = id;
  chunk_id = none;
  block_ids = [];
  score = 1;
  reason = "";
}

abbrev answers : List (RawHit ℕ) → String → List (RawHit ℕ)
answers hits channel = if channel == "bm25" then hits else []

abbrev start : RecallCursor
start = record { offset = 0; seen = [] }

abbrev before : Bool × (String → List (RawHit ℕ))
before = (false, answers (hit 1 ∷ hit 2 ∷ []))

-- Document 9 has come in front of the others.
abbrev after : Bool × (String → List (RawHit ℕ))
after = (false, answers (hit 9 ∷ hit 1 ∷ hit 2 ∷ []))

-- It stands before the offset, so that no page delivers it.
passed_over : delivered naturals 5 60 1 (some start) (before ∷ after ∷ after ∷ []) ≡ 1 ∷ 2 ∷ []
unfolding program
passed_over = refl

delivered-Unique_example :
    Unique (delivered naturals 5 60 1 (some start) (before ∷ after ∷ []))
    × ((x : ℕ) → In x (delivered naturals 5 60 1 (some start) (before ∷ after ∷ [])) → In x [] → ⊥)
delivered-Unique_example = delivered-Unique naturals 5 60 1 start (before ∷ after ∷ [])

rank_hits-Unique_example :
    Unique (map (document naturals) (rank_hits naturals 60 (hit 9 ∷ hit 1 ∷ hit 9 ∷ [])))
    × ((x : ℕ)
        → In x (map (document naturals) (rank_hits naturals 60 (hit 9 ∷ hit 1 ∷ hit 9 ∷ [])))
          ↔ In x (map (raw_document naturals) (hit 9 ∷ hit 1 ∷ hit 9 ∷ [])))
rank_hits-Unique_example = rank_hits-Unique naturals 60 (hit 9 ∷ hit 1 ∷ hit 9 ∷ [])
