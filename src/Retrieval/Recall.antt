-- ===== src/Retrieval/Recall.antt =====
-- The union of the channels of a recall, and its pages: src/intel/retrieval/recall.py. Scores are of a
-- type with an addition and an order, which are parameters, as floats are; what the channels answer is
-- an argument. `seen` is a set, so that its order does not count.
mod Ranking
mod Pages
mod Samples
use semiconductor_intel.Prelude.{
  ℕ, suc, ◌+◌, String, Bool, true, false, not, ◌&&◌, ◌||◌, Option, none, some, List, [], ◌∷◌, ◌++◌,
  map, ltb, leb, ◌==◌, nat_eq, string_eq, if◌then◌else◌, any_of, length, drop, keep,
}
use semiconductor_intel.Prelude.Dict.{Dict, get, put}

pub record Scores (S : Type 0) : Type 0 where
  pub zero_score : S
  pub plus : S → S → S
  pub less : S → S → Bool
  -- 1 / (k + rank)
  pub rrf_contrib : ℕ → ℕ → S

pub record RawHit (S : Type 0) : Type 0 where
  pub channel : String
  pub industry_document_id : ℕ
  pub parse_id : ℕ
  pub chunk_id : Option ℕ
  pub block_ids : List String
  pub score : S
  pub reason : String

pub record ChannelProvenance (S : Type 0) : Type 0 where
  pub channel : String
  pub parse_id : ℕ
  pub chunk_id : Option ℕ
  pub block_ids : List String
  pub score : S
  pub reason : String
  pub rank : ℕ

pub record DocumentHit (S : Type 0) : Type 0 where
  pub industry_document_id : ℕ
  pub rrf_score : S
  pub channels : List (ChannelProvenance S)

pub record RecallCursor : Type 0 where
  pub offset : ℕ
  pub seen : List ℕ

pub record RecallHitRecord (S : Type 0) : Type 0 where
  pub recall_job_id : ℕ
  pub parse_id : ℕ
  pub chunk_id : Option ℕ
  pub channel : String
  pub rank : ℕ
  pub score : S
  pub reason : String

abbrev pub count_or : Option ℕ → ℕ
count_or none = 0
count_or (some n) = n

module _ {S : Type 0} (ops : Scores S) where
  abbrev pub score_or : Option S → S
  score_or none = ops.zero_score
  score_or (some s) = s

  abbrev pub list_or : Option (List (ChannelProvenance S)) → List (ChannelProvenance S)
  list_or none = []
  list_or (some l) = l

  pub record Tally : Type 0 where
    pub scores : Dict ℕ S
    pub provenance : Dict ℕ (List (ChannelProvenance S))
    pub channel_rank : Dict String ℕ

  abbrev provenance_of : ℕ → RawHit S → ChannelProvenance S
  provenance_of rank hit = record {
    channel = hit.channel;
    parse_id = hit.parse_id;
    chunk_id = hit.chunk_id;
    block_ids = hit.block_ids;
    score = hit.score;
    reason = hit.reason;
    rank = suc rank;
  }

  -- The body of the loop over the hits.
  unfoldable pub tally_hit : ℕ → RawHit S → Tally → Tally
  tally_hit rrf_k hit t =
      let rank = count_or (get hit.channel t.channel_rank) in
      let doc = hit.industry_document_id in
      record {
        channel_rank = put hit.channel (rank + 1) t.channel_rank;
        scores =
            put doc (ops.plus (score_or (get doc t.scores)) (ops.rrf_contrib rrf_k rank)) t.scores;
        provenance =
            put doc (list_or (get doc t.provenance) ++ provenance_of rank hit ∷ []) t.provenance;
      }

  unfoldable pub tally_hits : ℕ → List (RawHit S) → Tally → Tally
  unfolding tally_hit
  tally_hits rrf_k [] t = t
  tally_hits rrf_k (hit ∷ hits) t = tally_hits rrf_k hits (tally_hit rrf_k hit t)

  -- The key `(-score, str(id))`: the greater score first, then the lesser identifier.
  unfoldable pub comes_before : ℕ × S → ℕ × S → Bool
  comes_before (i, s) (j, r) = ops.less r s || (not (ops.less s r) && ltb i j)

  unfoldable pub insert : ℕ × S → Dict ℕ S → Dict ℕ S
  unfolding comes_before
  insert p [] = p ∷ []
  insert p (q ∷ l) = if comes_before q p then q ∷ insert p l else p ∷ q ∷ l

  unfoldable pub sort : Dict ℕ S → Dict ℕ S
  unfolding insert
  sort [] = []
  sort (p ∷ l) = insert p (sort l)

  abbrev pub hit_of : Dict ℕ (List (ChannelProvenance S)) → ℕ × S → DocumentHit S
  hit_of provenance p = record {
    industry_document_id = p.0;
    rrf_score = p.1;
    channels = list_or (get p.0 provenance);
  }

  unfoldable pub rank_hits : ℕ → List (RawHit S) → List (DocumentHit S)
  unfolding tally_hits sort
  rank_hits rrf_k hits =
      let t = tally_hits rrf_k hits (record { scores = []; provenance = []; channel_rank = [] }) in
      map (hit_of t.provenance) (sort t.scores)

  pub record Collected : Type 0 where
    pub page : List (DocumentHit S)
    -- last_index + 1
    pub next_offset : ℕ

  abbrev pub was_seen : List ℕ → ℕ → Bool
  was_seen seen id = any_of (λ k. k == id) seen

  -- The loop that fills the page, from the index of the hit on.
  unfoldable pub collect :
      RecallCursor → (batch_size index : ℕ) → List (DocumentHit S) → Collected → Collected
  collect cursor batch_size index [] c = c
  collect cursor batch_size index (hit ∷ rest) c =
      let skipped = collect cursor batch_size (suc index) rest c in
      let taken =
        collect cursor batch_size (suc index) rest
          (record { page = c.page ++ hit ∷ []; next_offset = suc index }) in
      if ltb index cursor.offset || was_seen cursor.seen hit.industry_document_id
      then skipped
      else if leb batch_size (length c.page)
      then c
      else taken

  abbrev pub document : DocumentHit S → ℕ
  document hit = hit.industry_document_id

  pub record RecallPage : Type 0 where
    pub hits : List (DocumentHit S)
    pub next_cursor : Option RecallCursor
    pub remaining : ℕ
    pub records : List (RecallHitRecord S)

  abbrev pub records_of_hit : ℕ → List (ChannelProvenance S) → List (RecallHitRecord S)
  records_of_hit job [] = []
  records_of_hit job (p ∷ ps) =
      record {
        recall_job_id = job;
        parse_id = p.parse_id;
        chunk_id = p.chunk_id;
        channel = p.channel;
        rank = p.rank;
        score = p.score;
        reason = p.reason;
      }
      ∷ records_of_hit job ps

  unfoldable pub records_of : ℕ → List (DocumentHit S) → List (RecallHitRecord S)
  records_of job [] = []
  records_of job (hit ∷ hits) = records_of_hit job hit.channels ++ records_of job hits

  -- The hits of the channels that run, in their order.
  unfoldable pub gather : Bool → (String → List (RawHit S)) → List (RawHit S)
  gather embedded answers =
      (if embedded then answers "semantic" else [])
      ++ (answers "bm25" ++ (answers "alias" ++ answers "proximity"))

  -- The page over the ordered hits.
  unfoldable pub page_of : ℕ → ℕ → RecallCursor → List (DocumentHit S) → RecallPage
  unfolding collect records_of
  page_of job batch_size cursor ordered =
      let c =
        collect cursor batch_size 0 ordered (record { page = []; next_offset = cursor.offset }) in
      let rest =
        length
          (keep (λ hit. not (was_seen cursor.seen (document hit))) (drop c.next_offset ordered)) in
      record {
        hits = c.page;
        next_cursor =
            if ltb 0 rest
            then some (record { offset = c.next_offset; seen = cursor.seen ++ map document c.page })
            else none;
        remaining = rest;
        records = records_of job c.page;
      }

  unfoldable pub recall_page :
      (job rrf_k batch_size : ℕ) → RecallCursor → Bool → (String → List (RawHit S)) → RecallPage
  unfolding rank_hits gather page_of
  recall_page job rrf_k batch_size cursor embedded answers =
      page_of job batch_size cursor (rank_hits rrf_k (gather embedded answers))
