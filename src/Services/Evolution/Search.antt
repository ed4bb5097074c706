-- ===== src/Services/Evolution/Search.antt =====
-- The search for a back edge: what each visit leaves of the marks and of the stack.
use semiconductor_intel.Prelude.{
  ℕ, ◌+◌, ◌≤◌, ◌<◌, String, ◌≡◌, ◌⊎◌, inl, inr, refl, sym, ◌∙◌, ap, subst, Bool, true, false,
  Option, some, List, [], ◌∷◌, ◌++◌, In, In-left, In-right, In-append, ◌==◌, ==_refl, string_eq,
  arith, Bool-cases, if◌then◌else◌,
}
use semiconductor_intel.Prelude.Dict.{Dict, get, put, get-put}
use semiconductor_intel.Services.Evolution.{
  EdgeDraft, Graph_, Mark, unvisited, in_stack, done, Walk, Walked, on, cycle_rejected, no_fuel,
  mark, mark_or, targets, listed, nodes, build_graph, pop, enter, leave,
}
use semiconductor_intel.Services.Evolution.Chains.{graph_iff}
use semiconductor_intel.Services.Evolution.Walks.{Linked, ClosedWalk, Finished, pop-last}

pub Mark-cases : (m : Mark) → (m ≡ unvisited) ⊎ ((m ≡ in_stack) ⊎ (m ≡ done))
Mark-cases unvisited = inl refl
Mark-cases in_stack = inr (inl refl)
Mark-cases done = inr (inr refl)

abbrev pub marked : String → Mark → Walk → Dict String Mark
marked node m w = put node m w.state

pub marked-same :
    (node : String) (m : Mark) (w : Walk) (x : String)
    → (node == x) ≡ true
    → mark_or (get x (marked node m w)) ≡ m
marked-same node m w x same = ap mark_or (get-put node x m w.state) ∙ rw same refl

marked-other :
    (node : String) (m : Mark) (w : Walk) (x : String)
    → (node == x) ≡ false
    → mark_or (get x (marked node m w)) ≡ mark w x
marked-other node m w x other = ap mark_or (get-put node x m w.state) ∙ rw other refl

gray-done : in_stack ≡ done → ⊥
gray-done e = cc

pub gray-white : in_stack ≡ unvisited → ⊥
gray-white e = cc

pub white-done : unvisited ≡ done → ⊥
white-done e = cc

abbrev is_white : Mark → Bool
is_white unvisited = true
is_white _ = false

-- How many of the names are unvisited.
abbrev pub whites : List String → Walk → ℕ
whites [] w = 0
whites (x ∷ names) w = (if is_white (mark w x) then 1 else 0) + whites names w

abbrev pub Fades : Walk → Walk → Type 0
Fades w w' = (x : String) → mark w' x ≡ unvisited → mark w x ≡ unvisited

white-unvisited : (m : Mark) → is_white m ≡ true → m ≡ unvisited
white-unvisited unvisited h = refl
white-unvisited in_stack h = cc
white-unvisited done h = cc

weight-Fades :
    (m m' : Mark)
    → (m' ≡ unvisited → m ≡ unvisited)
    → (if is_white m' then 1 else 0) ≤ (if is_white m then 1 else 0)
weight-Fades m unvisited h = rw (h refl) (omega arith)
weight-Fades m in_stack h = omega arith
weight-Fades m done h = omega arith

pub whites-Fades :
    (names : List String) (w w' : Walk) → Fades w w' → whites names w' ≤ whites names w
whites-Fades [] w w' fades = omega arith
whites-Fades (x ∷ names) w w' fades =
    omega (arith, weight-Fades (mark w x) (mark w' x) (fades x), whites-Fades names w w' fades)

pub whites-one :
    (names : List String) (w : Walk) (node : String)
    → In node names
    → mark w node ≡ unvisited
    → 1 ≤ whites names w
whites-one [] w node there white = absurd there
whites-one (x ∷ names) w node (inl is) white =
    let head : mark w x ≡ unvisited = subst (λ y. mark w y ≡ unvisited) is white in
    rw head (omega arith)
whites-one (x ∷ names) w node (inr there) white = omega (arith, whites-one names w node there white)

-- One of the names is no longer white.
pub whites-fewer :
    (names : List String) (w w' : Walk) (node : String)
    → Fades w w'
    → In node names
    → mark w node ≡ unvisited
    → mark w' node ≡ in_stack
    → whites names w' < whites names w
whites-fewer [] w w' node fades there white gray = absurd there
whites-fewer (x ∷ names) w w' node fades (inl is) white gray =
    let before : mark w x ≡ unvisited = subst (λ y. mark w y ≡ unvisited) is white in
    let after : mark w' x ≡ in_stack = subst (λ y. mark w' y ≡ in_stack) is gray in
    rw (before, after) (omega (arith, whites-Fades names w w' fades))
whites-fewer (x ∷ names) w w' node fades (inr there) white gray = omega (
  arith,
  weight-Fades (mark w x) (mark w' x) (fades x),
  whites-fewer names w w' node fades there white gray,
)

In-choice :
    (c : Bool) (b : String) (ms : List String) (o : Option (List String))
    → In b (listed (if c then some ms else o))
    → In b ms ⊎ In b (listed o)
In-choice true b ms o there = inl there
In-choice false b ms o there = inr there

pub In-nodes : (graph : Graph_) (a b : String) → In b (targets graph a) → In b (nodes graph)
unfolding get
In-nodes [] a b there = absurd there
In-nodes ((node, ms) ∷ rest) a b there = elim (In-choice (node == a) b ms (get a rest) there) [
  | inl first ↦ inr (In-left b ms (nodes rest) first)
  | inr later ↦ inr (In-right b ms (nodes rest) (In-nodes rest a b later))
]

module _ (edges : List EdgeDraft) where
  abbrev pub graph_of : Graph_
  graph_of = build_graph edges []

  -- Finished nodes stand in an order, nodes in progress on the stack, and the stack is a chain.
  pub record Tidy (w : Walk) : Type 0 where
    pub order : List String
    pub finished : Finished edges order
    pub black : (x : String) → mark w x ≡ done → In x order
    pub gray : (x : String) → mark w x ≡ in_stack → In x w.stack
    pub linked : Linked edges w.stack

  pub record Extends (w w' : Walk) : Type 0 where
    pub same_stack : w'.stack ≡ w.stack
    pub dark : (x : String) → mark w x ≡ done → mark w' x ≡ done
    pub fades : Fades w w'

  -- The walk went on in a way that P tells, or a closed walk was found; the fuel lasted.
  abbrev pub Lawful : Walk → (Walk → Type 0) → Walked → Type 0
  Lawful w P (on w') = Tidy w' × Extends w w' × P w'
  Lawful w P (cycle_rejected c) = ClosedWalk edges c
  Lawful w P no_fuel = ⊥

  pub Extends-same : (w : Walk) → Extends w w
  Extends-same w = record { same_stack = refl; dark = λ x h. h; fades = λ x h. h }

  pub Extends-chain : (u v w : Walk) → Extends u v → Extends v w → Extends u w
  Extends-chain u v w h k = record {
    same_stack = k.same_stack ∙ h.same_stack;
    dark = λ x e. k.dark x (h.dark x e);
    fades = λ x e. h.fades x (k.fades x e);
  }

  pub Lawful-after :
      (u v : Walk) (P Q : Walk → Type 0) (r : Walked)
      → Extends u v
      → ((w : Walk) → Extends v w → P w → Q w)
      → Lawful v P r
      → Lawful u Q r
  Lawful-after u v P Q (on w) ext more (tidy, later, is) =
      (tidy, Extends-chain u v w ext later, more w later is)
  Lawful-after u v P Q (cycle_rejected c) ext more found = found
  Lawful-after u v P Q no_fuel ext more found = found

  pub enter-Tidy :
      (node : String) (w : Walk)
      → Tidy w
      → Linked edges (w.stack ++ node ∷ [])
      → Tidy (enter node w)
  unfolding enter
  enter-Tidy node w tidy linked = record {
    order = tidy.order;
    finished = tidy.finished;
    black = λ x e. elim (Bool-cases (node == x)) [
      | inl same ↦ absurd (gray-done (sym (marked-same node in_stack w x same) ∙ e))
      | inr other ↦ tidy.black x (sym (marked-other node in_stack w x other) ∙ e)
    ];
    gray = λ x e. elim (Bool-cases (node == x)) [
      | inl same ↦ In-right x w.stack (node ∷ []) (inl (sym ((string_eq.beq_iff node x).0 same)))
      | inr other ↦
          In-left x w.stack (node ∷ [])
            (tidy.gray x (sym (marked-other node in_stack w x other) ∙ e))
    ];
    linked = linked;
  }

  pub enter-Fades : (node : String) (w : Walk) → Fades w (enter node w)
  unfolding enter
  enter-Fades node w x e = elim (Bool-cases (node == x)) [
    | inl same ↦ absurd (gray-white (sym (marked-same node in_stack w x same) ∙ e))
    | inr other ↦ sym (marked-other node in_stack w x other) ∙ e
  ]

  -- After the loop over the successors of a node that was white in `w`.
  pub leave-Lawful :
      (node : String) (w : Walk) (r : Walked)
      → Tidy w
      → mark w node ≡ unvisited
      → Lawful (enter node w) (λ v. (m : String) → In m (targets graph_of node) → mark v m ≡ done) r
      → Lawful w (λ v. mark v node ≡ done) (leave node r)
  unfolding leave enter
  leave-Lawful node w (cycle_rejected c) tidy white found = found
  leave-Lawful node w no_fuel tidy white found = found
  leave-Lawful node w (on v) tidy white (late, ext, all) =
      let stack_is : pop v.stack ≡ w.stack = ap pop ext.same_stack ∙ pop-last w.stack node in
      (
        record {
          order = node ∷ late.order;
          finished =
              ((λ b step. late.black b (all b ((graph_iff edges node b).1 step))), late.finished);
          black = λ x e. elim (Bool-cases (node == x)) [
            | inl same ↦ inl (sym ((string_eq.beq_iff node x).0 same))
            | inr other ↦ inr (late.black x (sym (marked-other node done v x other) ∙ e))
          ];
          gray = λ x e. elim (Bool-cases (node == x)) [
            | inl same ↦ absurd (gray-done (sym e ∙ marked-same node done v x same))
            | inr other ↦
                subst (In x) (sym stack_is)
                  (elim (In-append x w.stack (node ∷ []) (
                    subst (In x) ext.same_stack
                      (late.gray x (sym (marked-other node done v x other) ∙ e)))) [
                        | inl there ↦ there
                        | inr (inl is) ↦ absurd (ground (arith, string_eq.beq_iff node x))
                        | inr (inr there) ↦ absurd there
                      ])
          ];
          linked = subst (Linked edges) (sym stack_is) tidy.linked;
        },
        record {
          same_stack = stack_is;
          dark = λ x e. elim (Bool-cases (node == x)) [
            | inl same ↦ marked-same node done v x same
            | inr other ↦
                marked-other node done v x other
                ∙ ext.dark x (marked-other node in_stack w x other ∙ e)
          ];
          fades = λ x e. elim (Bool-cases (node == x)) [
            | inl same ↦ absurd (white-done (sym e ∙ marked-same node done v x same))
            | inr other ↦
                enter-Fades node w x (ext.fades x (sym (marked-other node done v x other) ∙ e))
          ];
        },
        marked-same node done v node (==_refl node),
      )
