-- ===== src/Retrieval/Recall/Pages.antt =====
-- The pages of a recall, whatever the channels answer at each of them.
use semiconductor_intel.Prelude.{
  ℕ, suc, String, ◌≡◌, inl, inr, refl, sym, ◌∙◌, ap, subst, Bool, true, false, ◌||◌, Option, none,
  some, List, [], ◌∷◌, ◌++◌, map, In, In-left, In-right, In-append, Unique, Bool-cases,
  Option-cases, any_of-In, ltb, leb, arith, length, nat_eq, if◌then◌else◌,
}
use semiconductor_intel.Retrieval.Recall.{
  Scores, RawHit, DocumentHit, RecallCursor, RecallPage, Collected, collect, document, was_seen,
  rank_hits, gather, page_of, recall_page,
}
use semiconductor_intel.Retrieval.Recall.Ranking.{rank_hits-Unique}

true-false : true ≡ false → ⊥
true-false e = cc

Unique-append :
    (xs ys : List ℕ) → Unique xs → Unique ys → ((x : ℕ) → In x xs → In x ys → ⊥) → Unique (xs ++ ys)
Unique-append [] ys hx hy apart = hy
Unique-append (x ∷ xs) ys (new, hx) hy apart = (
  (λ m. elim (In-append x xs ys m) [ inl l ↦ new l | inr r ↦ apart x (inl refl) r ]),
  Unique-append xs ys hx hy (λ y m n. apart y (inr m) n),
)

module _ {S : Type 0} (ops : Scores S) where
  abbrev ids : List (DocumentHit S) → List ℕ
  ids l = map (document ops) l

  ids-append : (xs ys : List (DocumentHit S)) → ids (xs ++ ys) ≡ ids xs ++ ids ys
  ids-append [] ys = refl
  ids-append (x ∷ xs) ys = ap (λ r. document ops x ∷ r) (ids-append xs ys)

  -- The documents collected so far are distinct and new, and are none of those to come.
  record Fresh (seen : List ℕ) (c : Collected ops) (l : List (DocumentHit S)) : Type 0 where
    distinct : Unique (ids c.page)
    unseen : (x : ℕ) → In x (ids c.page) → In x seen → ⊥
    ahead : (x : ℕ) → In x (ids c.page) → In x (ids l) → ⊥
    coming : Unique (ids l)

  Fresh-skip :
      (seen : List ℕ) (c : Collected ops) (hit : DocumentHit S) (l : List (DocumentHit S))
      → Fresh seen c (hit ∷ l)
      → Fresh seen c l
  Fresh-skip seen c hit l f = record {
    distinct = f.distinct;
    unseen = f.unseen;
    ahead = λ x m n. f.ahead x m (inr n);
    coming = f.coming.1;
  }

  Fresh-take :
      (seen : List ℕ) (c : Collected ops) (hit : DocumentHit S) (l : List (DocumentHit S))
      (next : ℕ)
      → was_seen ops seen (document ops hit) ≡ false
      → Fresh seen c (hit ∷ l)
      → Fresh seen (record { page = c.page ++ hit ∷ []; next_offset = next }) l
  Fresh-take seen c hit l next new f =
      let is = ids-append c.page (hit ∷ []) in
      record {
        distinct = subst Unique (sym is) (
            Unique-append (ids c.page) (ids (hit ∷ [])) f.distinct ((λ m. m), tt)
              (λ x m n. elim n [ inl e ↦ f.ahead x m (inl e) | inr none_left ↦ none_left ]));
        unseen = λ x m s. elim (In-append x (ids c.page) (ids (hit ∷ [])) (subst (In x) is m)) [
          | inl old ↦ f.unseen x old s
          | inr (inl e) ↦
              true-false
                (sym ((any_of-In (document ops hit) seen).1 (subst (λ y. In y seen) e s)) ∙ new)
          | inr (inr none_left) ↦ none_left
        ];
        ahead = λ x m n. elim (In-append x (ids c.page) (ids (hit ∷ [])) (subst (In x) is m)) [
          | inl old ↦ f.ahead x old (inr n)
          | inr (inl e) ↦ f.coming.0 (subst (λ y. In y (ids l)) e n)
          | inr (inr none_left) ↦ none_left
        ];
        coming = f.coming.1;
      }

  collect-Fresh :
      (cursor : RecallCursor) (batch_size index : ℕ) (l : List (DocumentHit S)) (c : Collected ops)
      → Fresh cursor.seen c l
      → Unique (ids (collect ops cursor batch_size index l c).page)
        × ((x : ℕ)
            → In x (ids (collect ops cursor batch_size index l c).page)
            → In x cursor.seen
            → ⊥)
  unfolding collect
  collect-Fresh cursor batch_size index [] c f = (f.distinct, f.unseen)
  collect-Fresh cursor batch_size index (hit ∷ l) c f =
      elim (Bool-cases (ltb index cursor.offset || was_seen ops cursor.seen (document ops hit))) [
        | inl skip ↦
            rw skip
              (collect-Fresh cursor batch_size (suc index) l c (Fresh-skip cursor.seen c hit l f))
        | inr open_ ↦ elim (Bool-cases (leb batch_size (length c.page))) [
          | inl full ↦ rw (open_) (rw full (f.distinct, f.unseen))
          | inr room ↦ rw (open_) (
              rw room (
                collect-Fresh cursor batch_size (suc index) l _
                  (Fresh-take cursor.seen c hit l (suc index) (ground arith) f)))
        ]
      ]

  page_of-Fresh :
      (job batch_size : ℕ) (cursor : RecallCursor) (ordered : List (DocumentHit S))
      → Unique (ids ordered)
      → Unique (ids (page_of ops job batch_size cursor ordered).hits)
        × ((x : ℕ)
            → In x (ids (page_of ops job batch_size cursor ordered).hits)
            → In x cursor.seen
            → ⊥)
  unfolding page_of
  page_of-Fresh job batch_size cursor ordered distinct =
      collect-Fresh cursor batch_size 0 ordered (record { page = []; next_offset = cursor.offset })
        (record { distinct = tt; unseen = λ x m s. m; ahead = λ x m n. m; coming = distinct })

  none-some : {c : RecallCursor} → Path (Option RecallCursor) none (some c) → ⊥
  none-some e = cc

  cursor-if : (b : Bool) (c d : RecallCursor) → (if b then some c else none) ≡ some d → c ≡ d
  cursor-if true c d e = cc
  cursor-if false c d e = absurd (none-some e)

  next_cursor-seen :
      (job batch_size : ℕ) (cursor next : RecallCursor) (ordered : List (DocumentHit S))
      → (page_of ops job batch_size cursor ordered).next_cursor ≡ some next
      → cursor.seen ++ ids (page_of ops job batch_size cursor ordered).hits ≡ next.seen
  unfolding page_of
  next_cursor-seen job batch_size cursor next ordered is =
      ap (λ (c : RecallCursor). c.seen) (cursor-if _ _ next is)

  module _ (job rrf_k batch_size : ℕ) where
    -- One call: whether there is an embedding, and what each channel answers.
    abbrev pub Call : Type 0
    Call = Bool × (String → List (RawHit S))

    abbrev pub page : RecallCursor → Call → RecallPage ops
    page cursor call = recall_page ops job rrf_k batch_size cursor call.0 call.1

    -- The documents that the pages deliver, each call resuming at the cursor of the one before.
    unfoldable pub delivered : Option RecallCursor → List Call → List ℕ
    delivered cursor [] = []
    delivered none (call ∷ calls) = []
    delivered (some cursor) (call ∷ calls) =
        ids (page cursor call).hits ++ delivered (page cursor call).next_cursor calls

    page-Fresh :
        (cursor : RecallCursor) (call : Call)
        → Unique (ids (page cursor call).hits)
          × ((x : ℕ) → In x (ids (page cursor call).hits) → In x cursor.seen → ⊥)
    unfolding recall_page
    page-Fresh cursor call =
        page_of-Fresh job batch_size cursor (rank_hits ops rrf_k (gather ops call.0 call.1))
          (rank_hits-Unique ops rrf_k (gather ops call.0 call.1)).0

    page-seen :
        (cursor next : RecallCursor) (call : Call)
        → (page cursor call).next_cursor ≡ some next
        → cursor.seen ++ ids (page cursor call).hits ≡ next.seen
    unfolding recall_page
    page-seen cursor next call is =
        next_cursor-seen job batch_size cursor next (rank_hits ops rrf_k (gather ops call.0 call.1))
          is

    delivered-none : (calls : List Call) → delivered none calls ≡ []
    unfolding delivered
    delivered-none [] = refl
    delivered-none (call ∷ calls) = refl

    -- However the channels' answers change from call to call, the pages that resume one another
    -- deliver no document twice, and none that the first cursor has seen.
    pub delivered-Unique :
        (cursor : RecallCursor) (calls : List Call)
        → Unique (delivered (some cursor) calls)
          × ((x : ℕ) → In x (delivered (some cursor) calls) → In x cursor.seen → ⊥)
    unfolding delivered
    delivered-Unique cursor [] = (tt, λ x m s. m)
    delivered-Unique cursor (call ∷ calls) =
        let (distinct, new) = page-Fresh cursor call in
        let here_ : List ℕ = ids (page cursor call).hits in
        let o = (page cursor call).next_cursor in
        elim (Option-cases o) [
          | inl over ↦
              let no_more : delivered o calls ≡ [] =
                ap (λ c. delivered c calls) over ∙ delivered-none calls in
              subst
                (λ rest.
                  Unique (here_ ++ rest) × ((x : ℕ) → In x (here_ ++ rest) → In x cursor.seen → ⊥))
                (sym no_more)
                (
                  Unique-append here_ [] distinct tt (λ x m n. n),
                  λ x m s. elim (In-append x here_ [] m) [
                    | inl there ↦ new x there s
                    | inr none_left ↦ none_left
                  ],
                )
          | inr (next, is) ↦
              let (distinct', new') = delivered-Unique next calls in
              let seen = page-seen cursor next call is in
              subst
                (λ c.
                  Unique (here_ ++ delivered c calls)
                  × ((x : ℕ) → In x (here_ ++ delivered c calls) → In x cursor.seen → ⊥))
                (sym is)
                (
                  Unique-append here_ (delivered (some next) calls) distinct distinct'
                      (λ x m n. new' x n (subst (In x) seen (In-right x cursor.seen here_ m))),
                  λ x m s. elim (In-append x here_ (delivered (some next) calls) m) [
                    | inl there ↦ new x there s
                    | inr later ↦ new' x later (subst (In x) seen (In-left x cursor.seen here_ s))
                  ],
                )
        ]
