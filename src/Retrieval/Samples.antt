-- ===== src/Retrieval/Samples.antt =====
-- The chunker on small blocks.
use semiconductor_intel.Prelude.{String, List, [], ◌∷◌, In, ◌==◌, nat_eq}
use semiconductor_intel.Retrieval.Chunker.{
  Text, Block, TextUnit, TextMethods, windows, units_of, chunk_blocks,
}
use semiconductor_intel.Retrieval.Chunker.Windows.{Tiles, windows-Tiles}
use semiconductor_intel.Retrieval.Chunker.Assembly.{Ordinals, InChunk, chunk_blocks-InChunk}

windows-Tiles_example : Tiles ((97 ∷ []) ∷ (98 ∷ []) ∷ []) (windows 2 ((97 ∷ []) ∷ (98 ∷ []) ∷ []))
windows-Tiles_example = windows-Tiles ((97 ∷ []) ∷ (98 ∷ []) ∷ [])

abbrev one_text : Text → List Text
one_text t = t ∷ []

abbrev sample_methods : TextMethods
sample_methods = record {
  strip = λ t. t;
  split = one_text;
  splitlines = one_text;
  isalpha = λ c. c == 97;
  casefold = λ t. t;
  term_tokens = one_text;
}

abbrev sample_blocks : List Block
sample_blocks =
    record { block_id = "b1"; kind = "heading"; text = 97 ∷ [] }
    ∷ record { block_id = "b2"; kind = "paragraph"; text = 98 ∷ [] }
    ∷ record { block_id = "b3"; kind = "table"; text = 99 ∷ [] }
    ∷ []

chunk_blocks-InChunk_example :
    Ordinals 0 (chunk_blocks sample_methods sample_blocks)
    × ((i : String) (u : TextUnit)
        → In u (units_of sample_methods sample_blocks)
        → In i u.block_ids
        → InChunk i (chunk_blocks sample_methods sample_blocks))
chunk_blocks-InChunk_example = chunk_blocks-InChunk sample_methods sample_blocks
