-- ===== src/Services/Evolution/Chains.antt =====
-- Chains of directed relations, and lists of nodes that follow them.
use semiconductor_intel.Prelude.{
  String, ◌≡◌, ◌⊎◌, inl, inr, refl, sym, ◌∙◌, ap, subst, true, List, [], ◌∷◌, ◌++◌, In, In-append,
  In-left, In-right, ◌↔◌, ◌==◌, string_eq, Bool-cases, if◌then◌else◌, ==_refl,
}
use semiconductor_intel.Prelude.Dict.{get, get-put}
use semiconductor_intel.Services.Evolution.{
  EdgeDraft, Graph_, listed, targets, add_edge, build_graph, is_chain,
}

-- One of the edges leads from a to b and is of a relation that makes chains.
abbrev pub Follows : List EdgeDraft → String → String → Type 0
Follows edges a b =
    (e : EdgeDraft) × In e edges
    × (is_chain e.relation ≡ true)
    × (e.from_node ≡ a)
    × (e.to_node ≡ b)

-- One edge or more lead from a to b.
pub data Reaches (edges : List EdgeDraft) : String → String → Type 0 where
  direct : {a b : String} → Follows edges a b → Reaches edges a b
  further : {a b : String} (c : String) → Follows edges a c → Reaches edges c b → Reaches edges a b

targets-put :
    (from to a : String) (graph : Graph_)
    → targets (add_edge from to graph) a
      ≡ (if from == a then targets graph from ++ to ∷ [] else targets graph a)
unfolding add_edge
targets-put from to a graph =
    let put_is = ap listed (get-put from a (targets graph from ++ to ∷ []) graph) in
    elim (Bool-cases (from == a)) [
      | inl same ↦ put_is ∙ rw same refl
      | inr other ↦ put_is ∙ rw other refl
    ]

Follows-more :
    (e : EdgeDraft) (edges : List EdgeDraft) (a b : String)
    → Follows edges a b
    → Follows (e ∷ edges) a b
Follows-more e edges a b (f, there, chain, from, to) = (f, inr there, chain, from, to)

added-inv :
    (from to a b : String) (graph : Graph_)
    → In b (targets (add_edge from to graph) a)
    → ((from ≡ a) × (to ≡ b)) ⊎ In b (targets graph a)
added-inv from to a b graph m = elim (Bool-cases (from == a)) [
  | inr other ↦ inr (subst (In b) (targets-put from to a graph ∙ rw other refl) m)
  | inl same ↦
      let is : from ≡ a = (string_eq.beq_iff from a).0 same in
      elim (In-append b (targets graph from) (to ∷ [])
        (subst (In b) (targets-put from to a graph ∙ rw same refl) m)) [
          | inl old ↦ inr (subst (λ x. In b (targets graph x)) is old)
          | inr (inl new) ↦ inl (is, sym new)
          | inr (inr more) ↦ absurd more
        ]
]

-- What the graph leads to is what an edge leads to, or what it led to before.
build_graph-inv :
    (edges : List EdgeDraft) (graph : Graph_) (a b : String)
    → In b (targets (build_graph edges graph) a)
    → Follows edges a b ⊎ In b (targets graph a)
unfolding build_graph
build_graph-inv [] graph a b m = inr m
build_graph-inv (e ∷ edges) graph a b m = elim (build_graph-inv edges _ a b m) [
  | inl later ↦ inl (Follows-more e edges a b later)
  | inr before ↦ elim (Bool-cases (is_chain e.relation)) [
    | inr other ↦ inr (subst (λ g. In b (targets g a)) (rw other refl) before)
    | inl chain ↦
        elim (added-inv e.from_node e.to_node a b graph
          (subst (λ g. In b (targets g a)) (rw chain refl) before)) [
            | inl (from, to) ↦ inl (e, inl refl, chain, from, to)
            | inr old ↦ inr old
          ]
  ]
]

added-old :
    (from to a b : String) (graph : Graph_)
    → In b (targets graph a)
    → In b (targets (add_edge from to graph) a)
added-old from to a b graph m = elim (Bool-cases (from == a)) [
  | inr other ↦ subst (In b) (sym (targets-put from to a graph ∙ rw other refl)) m
  | inl same ↦
      let is : from ≡ a = (string_eq.beq_iff from a).0 same in
      subst (In b) (sym (targets-put from to a graph ∙ rw same refl))
        (In-left b (targets graph from) (to ∷ []) (subst (λ x. In b (targets graph x)) (sym is) m))
]

added-new : (from to : String) (graph : Graph_) → In to (targets (add_edge from to graph) from)
added-new from to graph =
    subst (In to) (sym (targets-put from to from graph ∙ rw (==_refl from) refl))
      (In-right to (targets graph from) (to ∷ []) (inl refl))

build_graph-old :
    (edges : List EdgeDraft) (graph : Graph_) (a b : String)
    → In b (targets graph a)
    → In b (targets (build_graph edges graph) a)
unfolding build_graph
build_graph-old [] graph a b m = m
build_graph-old (e ∷ edges) graph a b m =
    build_graph-old edges _ a b (elim (Bool-cases (is_chain e.relation)) [
      | inr other ↦ subst (λ g. In b (targets g a)) (rw other refl) m
      | inl chain ↦
          subst (λ g. In b (targets g a)) (rw chain refl)
            (added-old e.from_node e.to_node a b graph m)
    ])

build_graph-Follows :
    (edges : List EdgeDraft) (graph : Graph_) (a b : String)
    → Follows edges a b
    → In b (targets (build_graph edges graph) a)
unfolding build_graph
build_graph-Follows [] graph a b (f, there, chain, from, to) = absurd there
build_graph-Follows (e ∷ edges) graph a b (f, inr there, chain, from, to) =
    build_graph-Follows edges _ a b (f, there, chain, from, to)
build_graph-Follows (e ∷ edges) graph a b (f, inl same, chain, from, to) =
    let is_chain_here : is_chain e.relation ≡ true =
      subst (λ (x : EdgeDraft). is_chain x.relation ≡ true) same chain in
    let from_here : e.from_node ≡ a = ap (λ (x : EdgeDraft). x.from_node) (sym same) ∙ from in
    let to_here : e.to_node ≡ b = ap (λ (x : EdgeDraft). x.to_node) (sym same) ∙ to in
    build_graph-old edges _ a b (
      subst (λ g. In b (targets g a)) (rw is_chain_here refl)
        (subst (λ x. In b (targets (add_edge e.from_node e.to_node graph) x)) from_here
          (subst (λ x. In x (targets (add_edge e.from_node e.to_node graph) e.from_node)) to_here
            (added-new e.from_node e.to_node graph))))

-- The graph of the edges.
pub graph_iff :
    (edges : List EdgeDraft) (a b : String)
    → In b (targets (build_graph edges []) a) ↔ Follows edges a b
graph_iff edges a b = (
  (λ m. elim (build_graph-inv edges [] a b m) [ inl f ↦ f | inr old ↦ absurd (unfold get in old) ]),
  build_graph-Follows edges [] a b,
)
