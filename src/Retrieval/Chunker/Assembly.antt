-- ===== src/Retrieval/Chunker/Assembly.antt =====
-- The assembler numbers its chunks and drops no block.
use semiconductor_intel.Prelude.{
  In-left, In-right, any_of-In, ℕ, suc, ◌+◌, ◌≡◌, refl, sym, String, Bool, true, false, ◌&&◌,
  Option, none, some, List, [], ◌∷◌, ◌++◌, arith, length, ltb, ◌⊎◌, inl, inr, Bool-cases,
  if◌then◌else◌, subst, In, any_of, string_eq, ◌==◌,
}
use semiconductor_intel.Retrieval.Chunker.{
  Text, Chunk, Block, TextUnit, Assembler, TextMethods, add_ids, ids_from, acc_block_ids, acc_text,
  flush, add_part, add_overlap, mark_content, add_table, before_unit, after_unit, add_prose,
  add_unit, add_units, units_of, empty_assembly, chunk_blocks, estimate_tokens, is_empty,
  add_pending,
}

abbrev widened : String → List String → List String
widened i seen = if any_of (λ j. j == i) seen then seen else seen ++ i ∷ []

widened-old : (i k : String) (seen : List String) → In k seen → In k (widened i seen)
widened-old i k seen m = elim (Bool-cases (any_of (λ j. j == i) seen)) [
  | inl there ↦ rw there m
  | inr missing ↦ rw missing (In-left k seen (i ∷ []) m)
]

widened-new : (i : String) (seen : List String) → In i (widened i seen)
widened-new i seen = elim (Bool-cases (any_of (λ j. j == i) seen)) [
  | inl there ↦ rw there ((any_of-In i seen).0 there)
  | inr missing ↦ rw missing (In-right i seen (i ∷ []) (inl refl))
]

add_ids-old : (k : String) (seen ids : List String) → In k seen → In k (add_ids seen ids)
unfolding add_ids
add_ids-old k seen [] m = m
add_ids-old k seen (i ∷ ids) m = add_ids-old k (widened i seen) ids (widened-old i k seen m)

add_ids-new : (k : String) (seen ids : List String) → In k ids → In k (add_ids seen ids)
unfolding add_ids
add_ids-new k seen [] m = absurd m
add_ids-new k seen (i ∷ ids) (inl e) =
    add_ids-old k (widened i seen) ids
      (subst (λ x. In x (widened i seen)) (sym e) (widened-new i seen))
add_ids-new k seen (i ∷ ids) (inr m) = add_ids-new k (widened i seen) ids m

abbrev Part : Type 0
Part = List String × Text

ids_from-old :
    (k : String) (seen : List String) (ps : List Part) → In k seen → In k (ids_from seen ps)
unfolding ids_from
ids_from-old k seen [] m = m
ids_from-old k seen (p ∷ ps) m = ids_from-old k (add_ids seen p.0) ps (add_ids-old k seen p.0 m)

ids_from-new :
    (k : String) (seen : List String) (ps : List Part) (p : Part)
    → In p ps
    → In k p.0
    → In k (ids_from seen ps)
unfolding ids_from
ids_from-new k seen [] p there m = absurd there
ids_from-new k seen (q ∷ ps) p (inl e) m =
    ids_from-old k (add_ids seen q.0) ps
      (add_ids-new k seen q.0 (subst (λ (x : Part). In k x.0) e m))
ids_from-new k seen (q ∷ ps) p (inr more) m = ids_from-new k (add_ids seen q.0) ps p more m

-- The chunks are numbered n, n + 1, n + 2, ...
abbrev pub Ordinals : ℕ → List Chunk → Type 0
Ordinals n [] = Unit
Ordinals n (c ∷ cs) = (c.ordinal ≡ n) × Ordinals (suc n) cs

Ordinals-append :
    (n : ℕ) (cs : List Chunk) (c : Chunk)
    → Ordinals n cs
    → c.ordinal ≡ n + length cs
    → Ordinals n (cs ++ c ∷ [])
Ordinals-append n [] c h k = (omega (arith, k), tt)
Ordinals-append n (d ∷ cs) c h k = (h.0, Ordinals-append (suc n) cs c h.1 (omega (arith, k)))

-- A chunk refers to the block.
abbrev pub InChunk : String → List Chunk → Type 0
InChunk i chunks = (c : Chunk) × In c chunks × In i c.block_ids

-- A chunk refers to it, or the one under construction does.
abbrev Kept : String → Assembler → Type 0
Kept i a = InChunk i a.chunks ⊎ ((p : Part) × In p a.acc.parts × In i p.0)

record Grows (a b : Assembler) : Type 0 where
  numbered : Ordinals 0 a.chunks → Ordinals 0 b.chunks
  kept : (i : String) → Kept i a → Kept i b

Grows-refl : (a : Assembler) → Grows a a
Grows-refl a = record { numbered = λ n. n; kept = λ i k. k }

Grows-trans : {a b c : Assembler} → Grows a b → Grows b c → Grows a c
Grows-trans g h = record {
  numbered = λ n. h.numbered (g.numbered n);
  kept = λ i k. h.kept i (g.kept i k);
}

InChunk-more : (i : String) (cs : List Chunk) (c : Chunk) → InChunk i cs → InChunk i (cs ++ c ∷ [])
InChunk-more i cs c (d, m, there) = (d, In-left d cs (c ∷ []) m, there)

module _ (py : TextMethods) where
  abbrev assembler : List Chunk → List Part → Bool → Option (Text × List String) → Bool → Assembler
  assembler chunks parts saw pending carry = record {
    chunks = chunks;
    acc = record { parts = parts; saw_content = saw };
    pending_overlap = pending;
    carry_overlap = carry;
  }

  empty_at :
      (b : Bool) (chunks : List Chunk) (parts : List Part) (saw : Bool)
      (pending : Option (Text × List String)) (carry : Bool)
      → (flush py b (assembler chunks parts saw pending carry)).acc.parts ≡ []
  unfolding flush
  empty_at b chunks [] saw pending carry = refl
  empty_at b chunks (p ∷ ps) saw pending carry = refl

  flush_at :
      (b : Bool) (chunks : List Chunk) (parts : List Part) (saw : Bool)
      (pending : Option (Text × List String)) (carry : Bool)
      → Grows
          (assembler chunks parts saw pending carry)
          (flush py b (assembler chunks parts saw pending carry))
  unfolding flush acc_block_ids
  flush_at b chunks [] saw pending carry = Grows-refl (assembler chunks [] saw pending carry)
  flush_at b chunks (p ∷ ps) saw pending carry = record {
    numbered = λ n. Ordinals-append 0 chunks _ n (omega arith);
    kept = λ i k. elim k [
      | inl before ↦ inl (InChunk-more i chunks _ before)
      | inr (q, there, m) ↦
          inl (_, In-right _ chunks _ (inl refl), ids_from-new i [] (p ∷ ps) q there m)
    ];
  }

  flush-Grows : (b : Bool) (a : Assembler) → Grows a (flush py b a)
  flush-Grows b a =
      flush_at b a.chunks a.acc.parts a.acc.saw_content a.pending_overlap a.carry_overlap

  add_part-Grows :
      (ids : List String) (text : Text) (a : Assembler) → Grows a (add_part py ids text a)
  add_part-Grows ids text a = record {
    numbered = λ n. n;
    kept = λ i k. elim k [
      | inl before ↦ inl before
      | inr (q, there, m) ↦ inr (q, In-left q a.acc.parts _ there, m)
    ];
  }

  add_part-Kept :
      (i : String) (ids : List String) (text : Text) (a : Assembler)
      → In i ids
      → Kept i (add_part py ids text a)
  add_part-Kept i ids text a m = inr ((ids, text), In-right _ a.acc.parts _ (inl refl), m)

  add_pending-Grows :
      (o : Option (Text × List String)) (a : Assembler) → Grows a (add_pending py o a)
  add_pending-Grows none a = Grows-refl a
  add_pending-Grows (some (text, ids)) a =
      elim (Bool-cases (a.carry_overlap && is_empty a.acc.parts)) [
        | inl carries ↦ rw carries (add_part-Grows ids text a)
        | inr bare ↦ rw bare (Grows-refl a)
      ]

  mark_content-Grows : (b : Bool) (a : Assembler) → Grows a (mark_content py b a)
  mark_content-Grows true a = Grows-refl a
  mark_content-Grows false a = record { numbered = λ n. n; kept = λ i k. k }

  flush_when-Grows : (test b : Bool) (a : Assembler) → Grows a (if test then flush py b a else a)
  flush_when-Grows true b a = flush-Grows b a
  flush_when-Grows false b a = Grows-refl a

  add_table-Grows : (u : TextUnit) (a : Assembler) → Grows a (add_table py u a)
  add_table-Grows u a = record {
    numbered = λ n. Ordinals-append 0 a.chunks _ n (omega arith);
    kept =
        λ i k. elim k [ inl before ↦ inl (InChunk-more i a.chunks _ before) | inr part ↦ inr part ];
  }

  -- The chunk under construction before the unit's own text is added.
  abbrev ready : TextUnit → Assembler → Assembler
  ready u a = add_overlap py (before_unit py u (if u.starts_section then flush py false a else a))

  ready-Grows : (u : TextUnit) (a : Assembler) → Grows a (ready u a)
  ready-Grows u a =
      let opened : Assembler = if u.starts_section then flush py false a else a in
      Grows-trans (flush_when-Grows u.starts_section false a) (
        Grows-trans (flush_when-Grows _ true opened)
          (add_pending-Grows (before_unit py u opened).pending_overlap (before_unit py u opened)))

  finish-Grows :
      (u : TextUnit) (a : Assembler) → Grows a (after_unit py (mark_content py u.starts_section a))
  finish-Grows u a = Grows-trans (mark_content-Grows u.starts_section a) (
      flush_when-Grows
        (ltb 1200 (estimate_tokens (acc_text (mark_content py u.starts_section a).acc))) true
        (mark_content py u.starts_section a))

  add_prose_lem :
      (u : TextUnit) (a : Assembler)
      → Grows a (add_prose py u a) × ((i : String) → In i u.block_ids → Kept i (add_prose py u a))
  add_prose_lem u a =
      let last = finish-Grows u (add_part py u.block_ids u.text (ready u a)) in
      (
        Grows-trans (ready-Grows u a)
            (Grows-trans (add_part-Grows u.block_ids u.text (ready u a)) last),
        λ i m. last.kept i (add_part-Kept i u.block_ids u.text (ready u a) m),
      )

  add_unit_lem :
      (u : TextUnit) (a : Assembler)
      → Grows a (add_unit py u a) × ((i : String) → In i u.block_ids → Kept i (add_unit py u a))
  unfolding add_unit
  add_unit_lem u a = elim (Bool-cases u.is_table) [
    | inl table ↦ rw table (
      Grows-trans (flush-Grows false a) (add_table-Grows u (flush py false a)),
      λ i m. inl (_, In-right _ (flush py false a).chunks _ (inl refl), m),
    )
    | inr prose ↦ rw prose (add_prose_lem u a)
  ]

  add_units_lem :
      (us : List TextUnit) (a : Assembler)
      → Grows a (add_units py us a)
        × ((i : String) (u : TextUnit) → In u us → In i u.block_ids → Kept i (add_units py us a))
  unfolding add_units
  add_units_lem [] a = (Grows-refl a, λ i u m there. absurd m)
  add_units_lem (u ∷ us) a =
      let (one, own) = add_unit_lem u a in
      let (more, others) = add_units_lem us (add_unit py u a) in
      (
        Grows-trans one more,
        λ i v m there. elim m [
          | inl e ↦ more.kept i (own i (subst (λ (x : TextUnit). In i x.block_ids) e there))
          | inr later ↦ others i v later there
        ],
      )

  flush-empty : (b : Bool) (a : Assembler) → (flush py b a).acc.parts ≡ []
  flush-empty b a =
      empty_at b a.chunks a.acc.parts a.acc.saw_content a.pending_overlap a.carry_overlap

  -- The chunks of any list of blocks are numbered 0, 1, 2, ... in their order, and every identifier of
  -- every unit that the blocks are cut into is among the identifiers of some chunk.
  pub chunk_blocks-InChunk :
      (blocks : List Block)
      → Ordinals 0 (chunk_blocks py blocks)
        × ((i : String) (u : TextUnit)
            → In u (units_of py blocks)
            → In i u.block_ids
            → InChunk i (chunk_blocks py blocks))
  unfolding chunk_blocks
  chunk_blocks-InChunk blocks =
      let (grown, all) = add_units_lem (units_of py blocks) (empty_assembly py) in
      let whole = add_units py (units_of py blocks) (empty_assembly py) in
      let last = flush-Grows false whole in
      (
        last.numbered (grown.numbered tt),
        λ i u m there. elim (last.kept i (all i u m there)) [
          | inl chunk ↦ chunk
          | inr (p, left_over, _) ↦ absurd (subst (In p) (flush-empty false whole) left_over)
        ],
      )
