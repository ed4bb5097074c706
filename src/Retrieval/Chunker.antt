-- ===== src/Retrieval/Chunker.antt =====
-- src/intel/retrieval/chunker.py: blocks become units, and units become chunks. A text is the list of
-- its code points; what Python's texts do (strip, split, splitlines, isalpha, casefold) and the tokens
-- that the regular expression finds are given.
pub mod Windows
pub mod Assembly
use semiconductor_intel.Prelude.{
  ℕ, zero, suc, ◌+◌, ◌-◌, ◌*◌, ◌/◌, max, String, Bool, true, false, not, ◌&&◌, ◌||◌, Option, none,
  some, List, [], ◌∷◌, ◌++◌, length, take, drop, ltb, leb, ◌==◌, nat_eq, string_eq, if◌then◌else◌,
  any_of, keep,
}

abbrev pub Text : Type 0
Text = List ℕ

abbrev pub target_tokens : ℕ
target_tokens = 800

abbrev pub max_tokens : ℕ
max_tokens = 1200

abbrev pub overlap_tokens : ℕ
overlap_tokens = 100

abbrev pub token_chars : ℕ
token_chars = 4

pub record Chunk : Type 0 where
  pub ordinal : ℕ
  pub block_ids : List String
  pub text : Text
  pub language : String
  pub normalized_terms : Text

pub record Block : Type 0 where
  pub block_id : String
  pub kind : String
  pub text : Text

pub record TextUnit : Type 0 where
  pub block_ids : List String
  pub text : Text
  pub starts_section : Bool
  pub is_table : Bool

unfoldable pub estimate_tokens : Text → ℕ
estimate_tokens [] = 0
estimate_tokens (c ∷ t) = max 1 (length (c ∷ t) / token_chars)

-- sep.join(parts), with a separator of one character
abbrev pub join : ℕ → List Text → Text
join sep [] = []
join sep (t ∷ []) = t
join sep (t ∷ u ∷ ts) = t ++ sep ∷ join sep (u ∷ ts)

abbrev pub reverse_onto {ℓ} : {A : Type ℓ} → List A → List A → List A
reverse_onto [] ys = ys
reverse_onto (x ∷ xs) ys = reverse_onto xs (x ∷ ys)

abbrev pub reversed {ℓ} : {A : Type ℓ} → List A → List A
reversed xs = reverse_onto xs []

-- The words of a window: they fit the target, or there is one.
unfoldable pub take_words : ℕ → List Text → List Text
take_words used [] = []
take_words used (w ∷ ws) =
    let more = take_words (used + length w + 1) ws in
    if ltb 0 used && ltb (target_tokens * token_chars) (used + length w + 1) then [] else w ∷ more

-- How many words the next window repeats; `words` are those of this one from its last word on.
unfoldable pub step_back : ℕ → List Text → ℕ
step_back back_chars [] = 0
step_back back_chars (w ∷ []) = 0
step_back back_chars (w ∷ v ∷ words) =
    let more = step_back (back_chars + length w + 1) (v ∷ words) in
    if ltb back_chars (overlap_tokens * token_chars) then suc more else 0

-- The loop over the windows, from the words that start at `start` on, for at most that many rounds.
unfoldable pub windows : ℕ → List Text → List (List Text)
unfolding take_words step_back
windows zero words = []
windows (suc n) [] = []
windows (suc n) (w ∷ words) =
    let piece = take_words 0 (w ∷ words) in
    piece ∷ windows n (drop (length piece - step_back 0 (reversed piece)) (w ∷ words))

-- The units of the windows; only the first may start a section.
abbrev window_units : TextUnit → Bool → List (List Text) → List TextUnit
window_units u first [] = []
window_units u first (p ∷ ps) =
    record {
      block_ids = u.block_ids;
      text = join 32 p;
      starts_section = u.starts_section && first;
      is_table = false;
    }
    ∷ window_units u false ps

abbrev pub most : List ℕ → ℕ
most [] = 0
most (n ∷ ns) = max n (most ns)

abbrev costs : List Text → List ℕ
costs [] = []
costs (t ∷ ts) = estimate_tokens t ∷ costs ts

-- Slices of g rows, for at most that many rounds.
unfoldable pub row_groups : ℕ → ℕ → List Text → List (List Text)
row_groups zero g rows = []
row_groups (suc n) g [] = []
row_groups (suc n) g (r ∷ rows) = take g (r ∷ rows) ∷ row_groups n g (drop g (r ∷ rows))

abbrev group_units : String → Text → List (List Text) → List TextUnit
group_units id header [] = []
group_units id header (g ∷ gs) =
    record {
      block_ids = id ∷ [];
      text = join 10 (header ∷ g);
      starts_section = false;
      is_table = true;
    }
    ∷ group_units id header gs

-- A table of one line has it as its header and as its body.
abbrev body_of : Text → List Text → List Text
body_of header [] = header ∷ []
body_of header (r ∷ rs) = r ∷ rs

-- The rows of a table whose first line is the header.
unfoldable pub table_units : String → List Text → List TextUnit
unfolding row_groups estimate_tokens
table_units id [] = []
table_units id (header ∷ rest) =
    let body = body_of header rest in
    let group_rows =
      max 1 ((target_tokens - (estimate_tokens header + 1)) / max 1 (most (costs body))) in
    group_units id header (row_groups (length body) group_rows body)

-- A chunk under construction.
pub record Accumulator : Type 0 where
  pub parts : List (List String × Text)
  pub saw_content : Bool

abbrev texts : List (List String × Text) → List Text
texts [] = []
texts (p ∷ ps) = p.1 ∷ texts ps

abbrev pub acc_text : Accumulator → Text
acc_text acc = join 10 (texts acc.parts)

-- Each identifier is added unless it is there.
unfoldable pub add_ids : List String → List String → List String
add_ids seen [] = seen
add_ids seen (i ∷ ids) = add_ids (if any_of (λ j. j == i) seen then seen else seen ++ i ∷ []) ids

unfoldable pub ids_from : List String → List (List String × Text) → List String
unfolding add_ids
ids_from seen [] = seen
ids_from seen (p ∷ ps) = ids_from (add_ids seen p.0) ps

unfoldable pub acc_block_ids : Accumulator → List String
unfolding ids_from
acc_block_ids acc = ids_from [] acc.parts

-- The variables of chunk_blocks.
pub record Assembler : Type 0 where
  pub chunks : List Chunk
  pub acc : Accumulator
  pub pending_overlap : Option (Text × List String)
  pub carry_overlap : Bool

pub record TextMethods : Type 0 where
  pub strip : Text → Text
  pub split : Text → List Text
  pub splitlines : Text → List Text
  pub isalpha : ℕ → Bool
  pub casefold : Text → Text
  pub term_tokens : Text → List Text

abbrev between : ℕ → ℕ → ℕ → Bool
between lo hi c = leb lo c && leb c hi

abbrev pub is_empty {ℓ} : {A : Type ℓ} → List A → Bool
is_empty [] = true
is_empty (x ∷ xs) = false

module _ (py : TextMethods) where
  abbrev counts_letter : ℕ → Bool
  counts_letter c = py.isalpha c || between 0x4e00 0x9fff c

  abbrev counts_cjk : ℕ → Bool
  counts_cjk c =
      counts_letter c
      && (between 0x4e00 0x9fff c || between 0x3400 0x4dbf c || between 0xf900 0xfaff c)

  -- cjk / letters > 0.15, as cjk * 20 > letters * 3
  unfoldable pub detect_language : Text → String
  detect_language t =
      let letters = length (keep counts_letter t) in
      if ltb 0 letters && ltb (letters * 3) (length (keep counts_cjk t) * 20) then "zh" else "en"

  abbrev casefolded : List Text → List Text
  casefolded [] = []
  casefolded (t ∷ ts) = py.casefold t ∷ casefolded ts

  unfoldable pub normalize_terms : Text → Text
  normalize_terms t = join 32 (casefolded (py.term_tokens t))

  unfoldable pub split_tables : Block → List TextUnit
  unfolding table_units
  split_tables b =
      table_units b.block_id (keep (λ l. not (is_empty (py.strip l))) (py.splitlines b.text))

  unfoldable pub split_oversized : TextUnit → List TextUnit
  unfolding windows estimate_tokens
  split_oversized u =
      if leb (estimate_tokens u.text) max_tokens
      then u ∷ []
      else window_units u true (windows (length (py.split u.text)) (py.split u.text))

  abbrev tagged : List String → List Text → List (Text × List String)
  tagged ids [] = []
  tagged ids (w ∷ ws) = (w, ids) ∷ tagged ids ws

  abbrev words_with_ids : List (List String × Text) → List (Text × List String)
  words_with_ids [] = []
  words_with_ids (p ∷ ps) = tagged p.0 (py.split p.1) ++ words_with_ids ps

  -- The loop over the words from the last one on.
  abbrev tail_from : ℕ → List Text → List String → List (Text × List String) → Text × List String
  tail_from used tail ids [] = (join 32 tail, reversed ids)
  tail_from used tail ids ((w, bs) ∷ rest) =
      let more = tail_from (used + length w + 1) (w ∷ tail) (add_ids ids bs) rest in
      if leb (overlap_tokens * token_chars) used then (join 32 tail, reversed ids) else more

  unfoldable pub overlap_tail : Accumulator → Text × List String
  unfolding add_ids
  overlap_tail acc = tail_from 0 [] [] (reversed (words_with_ids acc.parts))

  abbrev pub chunk_of : ℕ → List String → Text → Chunk
  chunk_of ordinal ids text = record {
    ordinal = ordinal;
    block_ids = ids;
    text = text;
    language = detect_language text;
    normalized_terms = normalize_terms text;
  }

  unfoldable pub flush : Bool → Assembler → Assembler
  unfolding acc_block_ids detect_language normalize_terms overlap_tail
  flush continue_flow a = elim a.acc.parts [
    | [] ↦ a
    | p ∷ ps ↦ record {
      chunks = a.chunks ++ chunk_of (length a.chunks) (acc_block_ids a.acc) (acc_text a.acc) ∷ [];
      acc = record { parts = []; saw_content = false };
      pending_overlap = if continue_flow then some (overlap_tail a.acc) else none;
      carry_overlap = continue_flow;
    }
  ]

  abbrev pub add_part : List String → Text → Assembler → Assembler
  add_part ids text a = record a {
    acc = record { parts = a.acc.parts ++ (ids, text) ∷ []; saw_content = a.acc.saw_content };
  }

  abbrev pub add_pending : Option (Text × List String) → Assembler → Assembler
  add_pending none a = a
  add_pending (some (text, ids)) a =
      if a.carry_overlap && is_empty a.acc.parts then add_part ids text a else a

  abbrev pub add_overlap : Assembler → Assembler
  add_overlap a = add_pending a.pending_overlap a

  abbrev pub mark_content : Bool → Assembler → Assembler
  mark_content starts a =
      if starts then a else record a { acc = record { parts = a.acc.parts; saw_content = true } }

  abbrev pub add_table : TextUnit → Assembler → Assembler
  add_table u a = record a {
    chunks = a.chunks ++ chunk_of (length a.chunks) u.block_ids u.text ∷ [];
    pending_overlap = none;
    carry_overlap = false;
  }

  -- The size of the chunk is looked at before the unit is added, and after.
  abbrev pub before_unit : TextUnit → Assembler → Assembler
  before_unit u a =
      if not (is_empty a.acc.parts)
        && a.acc.saw_content
        && ltb target_tokens (estimate_tokens (acc_text a.acc) + estimate_tokens u.text + 1)
      then flush true a
      else a

  abbrev pub after_unit : Assembler → Assembler
  after_unit a = if ltb max_tokens (estimate_tokens (acc_text a.acc)) then flush true a else a

  abbrev pub add_prose : TextUnit → Assembler → Assembler
  add_prose u a = after_unit (
      mark_content u.starts_section (
        add_part u.block_ids u.text
          (add_overlap (before_unit u (if u.starts_section then flush false a else a)))))

  -- The body of the loop.
  unfoldable pub add_unit : TextUnit → Assembler → Assembler
  unfolding flush estimate_tokens
  add_unit u a = if u.is_table then add_table u (flush false a) else add_prose u a

  unfoldable pub add_units : List TextUnit → Assembler → Assembler
  unfolding add_unit
  add_units [] a = a
  add_units (u ∷ us) a = add_units us (add_unit u a)

  unfoldable pub units_of : List Block → List TextUnit
  unfolding split_tables split_oversized
  units_of [] = []
  units_of (b ∷ bs) =
      let rest = units_of bs in
      if is_empty (py.strip b.text)
      then rest
      else if b.kind == "table"
      then split_tables b ++ rest
      else split_oversized (record {
        block_ids = b.block_id ∷ [];
        text = py.strip b.text;
        starts_section = b.kind == "heading";
        is_table = false;
      })
        ++ rest

  abbrev pub empty_assembly : Assembler
  empty_assembly = record {
    chunks = [];
    acc = record { parts = []; saw_content = false };
    pending_overlap = none;
    carry_overlap = false;
  }

  unfoldable pub chunk_blocks : List Block → List Chunk
  unfolding units_of add_units flush
  chunk_blocks blocks = (flush false (add_units (units_of blocks) empty_assembly)).chunks
