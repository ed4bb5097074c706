-- ===== src/Services/Evolution/Cycles.antt =====
-- The search finds a cycle exactly when there is one.
use semiconductor_intel.Prelude.{
  ℕ, zero, suc, ◌≤◌, String, ◌≡◌, ◌⊎◌, inl, inr, refl, sym, ◌∙◌, subst, List, [], ◌∷◌, ◌++◌, In,
  In-right, length, arith, string_eq, Bool, true, false, ◌==◌, ==_refl, Bool-cases, Option, some,
  if◌then◌else◌,
}
use semiconductor_intel.Prelude.Dict.{get}
use semiconductor_intel.Services.Evolution.{
  EdgeDraft, Graph_, unvisited, in_stack, done, Walk, Walked, on, cycle_rejected, no_fuel, mark,
  targets, listed, nodes, enter, and_then, neighbors, visit, from_first, roots, fresh_walk,
  detect_cycles,
}
use semiconductor_intel.Services.Evolution.Chains.{Follows, Reaches, direct, further, graph_iff}
use semiconductor_intel.Services.Evolution.Walks.{
  Linked, Linked-snoc, ClosedWalk, back-ClosedWalk, Finished-acyclic,
}
use semiconductor_intel.Services.Evolution.Search.{
  Mark-cases, whites, whites-Fades, whites-one, whites-fewer, In-nodes, graph_of, Tidy, Extends,
  Lawful, Extends-same, Lawful-after, enter-Tidy, enter-Fades, leave-Lawful, marked-same,
  white-done, gray-white,
}

past_head :
    (c : Bool) (ms : List String) (o : Option (List String)) (b : String)
    → c ≡ false
    → In b (listed (if c then some ms else o))
    → In b (listed o)
past_head true ms o b h there = absurd cc
past_head false ms o b h there = there

module _ (edges : List EdgeDraft) where
  abbrev names : List String
  names = nodes (graph_of edges)

  -- What a visit does, with n for the number of unvisited names at most.
  abbrev Visits : ℕ → (String → Walk → Walked) → Type 0
  Visits n go =
      (node : String) (w : Walk)
      → Tidy edges w
      → mark w node ≡ unvisited
      → Linked edges (w.stack ++ node ∷ [])
      → In node names
      → whites names w ≤ n
      → Lawful edges w (λ v. mark v node ≡ done) (go node w)

  abbrev AllDone : List String → Walk → Type 0
  AllDone ms w = (m : String) → In m ms → mark w m ≡ done

  -- The rest of a loop, after the visit of its first node.
  and_then-Lawful :
      (f : Walk → Walked) (u : Walk) (m : String) (P : Walk → Type 0) (r : Walked)
      → Lawful edges u (λ v. mark v m ≡ done) r
      → ((v : Walk) → Tidy edges v → Extends edges u v → mark v m ≡ done → Lawful edges v P (f v))
      → Lawful edges u P (and_then f r)
  and_then-Lawful f u m P (on v) (tidy, ext, is) rest =
      Lawful-after edges u v P P (f v) ext (λ w later p. p) (rest v tidy ext is)
  and_then-Lawful f u m P (cycle_rejected c) found rest = found
  and_then-Lawful f u m P no_fuel found rest = found

  AllDone-more :
      (m : String) (ms : List String) (v : Walk) (r : Walked)
      → mark v m ≡ done
      → Lawful edges v (AllDone ms) r
      → Lawful edges v (AllDone (m ∷ ms)) r
  AllDone-more m ms v r is lawful =
      Lawful-after edges v v (AllDone ms) (AllDone (m ∷ ms)) r (Extends-same edges v)
        (λ w ext all x there. elim there [
          | inl same ↦ subst (λ y. mark w y ≡ done) (sym same) (ext.dark m is)
          | inr later ↦ all x later
        ])
        lawful

  neighbors-Lawful :
      (n : ℕ) (go : String → Walk → Walked)
      → Visits n go
      → (base : List String) (node : String) (ms : List String) (w : Walk) → Tidy edges w
      → w.stack ≡ base ++ node ∷ []
      → ((m : String) → In m ms → In m (targets (graph_of edges) node))
      → whites names w ≤ n
      → Lawful edges w (AllDone ms) (neighbors go ms w)
  unfolding neighbors
  neighbors-Lawful n go visits base node [] w tidy top leads enough =
      (tidy, Extends-same edges w, λ m there. absurd there)
  neighbors-Lawful n go visits base node (m ∷ ms) w tidy top leads enough =
      let step : Follows edges node m = (graph_iff edges node m).0 (leads m (inl refl)) in
      let linked : Linked edges (base ++ node ∷ []) = subst (Linked edges) top tidy.linked in
      elim (Mark-cases (mark w m)) [
        | inl white ↦
            rw (white, neighbors)
              (and_then-Lawful (neighbors go ms) w m (AllDone (m ∷ ms)) (go m w)
                (visits m w tidy white
                  (subst (λ l. Linked edges (l ++ m ∷ [])) (sym top)
                    (Linked-snoc edges base node m linked step))
                  (In-nodes (graph_of edges) node m (leads m (inl refl))) enough)
                (λ v tidy' ext is. AllDone-more m ms v (neighbors go ms v) is (
                  neighbors-Lawful n go visits base node ms v tidy' (ext.same_stack ∙ top)
                    (λ x there. leads x (inr there))
                    (omega (arith, enough, whites-Fades names w v ext.fades)))))
        | inr (inl gray) ↦
            rw (gray, neighbors)
              (subst (λ l. ClosedWalk edges (from_first m l ++ m ∷ [])) (sym top)
                (back-ClosedWalk edges base node m linked step
                  (subst (In m) top (tidy.gray m gray))))
        | inr (inr black) ↦
            rw (black, neighbors)
              (AllDone-more m ms w (neighbors go ms w) black (
                neighbors-Lawful n go visits base node ms w tidy top
                  (λ x there. leads x (inr there)) enough))
      ]

  visit-Lawful : (n : ℕ) → Visits n (visit n (graph_of edges))
  unfolding visit enter
  visit-Lawful zero node w tidy white linked there enough =
      absurd (omega (arith, whites-one names w node there white, enough))
  visit-Lawful (suc n) node w tidy white linked there enough =
      let fewer =
        whites-fewer names w (enter node w) node (enter-Fades edges node w) there white
          (marked-same node in_stack w node (==_refl node)) in
      leave-Lawful edges node w _ tidy white (
        neighbors-Lawful n (visit n (graph_of edges)) (visit-Lawful n) w.stack node
          (targets (graph_of edges) node) (enter node w) (enter-Tidy edges node w tidy linked) refl
          (λ m leads. leads) (omega (arith, fewer, enough)))

  abbrev keys : Graph_ → List String
  keys [] = []
  keys ((node, ms) ∷ rest) = node ∷ keys rest

  keys-names : (graph : Graph_) (a : String) → In a (keys graph) → In a (nodes graph)
  keys-names [] a there = absurd there
  keys-names ((node, ms) ∷ rest) a (inl same) = inl same
  keys-names ((node, ms) ∷ rest) a (inr there) =
      inr (In-right a ms (nodes rest) (keys-names rest a there))

  targets-key : (graph : Graph_) (a b : String) → In b (targets graph a) → In a (keys graph)
  unfolding get
  targets-key [] a b there = absurd there
  targets-key ((node, ms) ∷ rest) a b there = elim (Bool-cases (node == a)) [
    | inl same ↦ inl (sym ((string_eq.beq_iff node a).0 same))
    | inr other ↦ inr (targets-key rest a b (past_head (node == a) ms (get a rest) b other there))
  ]

  roots-Lawful :
      (n : ℕ) (go : String → Walk → Walked)
      → Visits n go
      → (rest : Graph_) (w : Walk) → Tidy edges w
      → w.stack ≡ []
      → ((a : String) → In a (keys rest) → In a names)
      → whites names w ≤ n
      → Lawful edges w (AllDone (keys rest)) (roots go rest w)
  unfolding roots
  roots-Lawful n go visits [] w tidy bare known enough =
      (tidy, Extends-same edges w, λ m there. absurd there)
  roots-Lawful n go visits ((node, ms) ∷ rest) w tidy bare known enough =
      elim (Mark-cases (mark w node)) [
        | inl white ↦
            rw (white, roots)
              (and_then-Lawful (roots go rest) w node (AllDone (node ∷ keys rest)) (go node w)
                (visits node w tidy white (subst (λ l. Linked edges (l ++ node ∷ [])) (sym bare) tt)
                  (known node (inl refl)) enough)
                (λ v tidy' ext is. AllDone-more node (keys rest) v (roots go rest v) is (
                  roots-Lawful n go visits rest v tidy' (ext.same_stack ∙ bare)
                    (λ x there. known x (inr there))
                    (omega (arith, enough, whites-Fades names w v ext.fades)))))
        | inr (inl gray) ↦ absurd (subst (In node) bare (tidy.gray node gray))
        | inr (inr black) ↦
            rw (black, roots)
              (AllDone-more node (keys rest) w (roots go rest w) black
                (roots-Lawful n go visits rest w tidy bare (λ x there. known x (inr there)) enough))
      ]

  whites-length : (l : List String) (w : Walk) → whites l w ≤ length l
  whites-length [] w = omega arith
  whites-length (x ∷ l) w = ground (arith, whites-length l w)

  fresh-Tidy : Tidy edges fresh_walk
  unfolding get
  fresh-Tidy = record {
    order = [];
    finished = tt;
    black = λ x e. absurd (white-done e);
    gray = λ x e. absurd (gray-white (sym e));
    linked = tt;
  }

  key_of_cycle : (a b : String) → Reaches edges a b → In a (keys (graph_of edges))
  key_of_cycle a b (direct step) = targets-key (graph_of edges) a b ((graph_iff edges a b).1 step)
  key_of_cycle a b (further c step path) =
      targets-key (graph_of edges) a c ((graph_iff edges a c).1 step)

  verdict :
      (r : Walked)
      → Lawful edges fresh_walk (AllDone (keys (graph_of edges))) r
      → ((w : Walk) × (r ≡ on w) × ((a : String) → Reaches edges a a → ⊥))
        ⊎ ((c : List String) × (r ≡ cycle_rejected c) × ClosedWalk edges c)
  verdict (on w) (tidy, ext, all) = inl (
    w,
    refl,
    λ a path.
        Finished-acyclic edges tidy.order a tidy.finished
          (tidy.black a (all a (key_of_cycle a a path))) path,
  )
  verdict (cycle_rejected c) closed = inr (c, refl, closed)
  verdict no_fuel lawful = absurd lawful

-- The search always ends: it goes through, and then no node reaches itself by edges of the chain
-- relations, or it rejects a list of nodes that ends where it begins and in which such an edge leads
-- from each node to the next.
pub detect_cycles-Reaches :
    (edges : List EdgeDraft)
    → ((w : Walk) × (detect_cycles edges ≡ on w) × ((a : String) → Reaches edges a a → ⊥))
      ⊎ ((c : List String) × (detect_cycles edges ≡ cycle_rejected c) × ClosedWalk edges c)
unfolding detect_cycles
detect_cycles-Reaches edges =
    let n = length (names edges) in
    verdict edges _ (
      roots-Lawful edges n (visit n (graph_of edges)) (visit-Lawful edges n) (graph_of edges)
        fresh_walk (fresh-Tidy edges) refl (keys-names edges (graph_of edges))
        (whites-length edges (names edges) fresh_walk))
