-- ===== src/Services/Evolution/Walks.antt =====
-- Lists of nodes in which each leads to the next, and orders in which every node comes before those
-- that lead to it.
use semiconductor_intel.Prelude.{
  String, ◌≡◌, inl, inr, refl, ap, subst, List, [], ◌∷◌, ◌++◌, In, ◌==◌, string_eq, arith,
  Bool-cases,
}
use semiconductor_intel.Services.Evolution.{EdgeDraft, from_first, pop}
use semiconductor_intel.Services.Evolution.Chains.{Follows, Reaches, direct, further}

pub pop-last : (xs : List String) (l : String) → pop (xs ++ l ∷ []) ≡ xs
unfolding pop
pop-last [] l = refl
pop-last (x ∷ []) l = refl
pop-last (x ∷ y ∷ ys) l = ap (λ r. x ∷ r) (pop-last (y ∷ ys) l)

from_first-append :
    (m : String) (xs ys : List String) → In m xs → from_first m (xs ++ ys) ≡ from_first m xs ++ ys
unfolding from_first
from_first-append m [] ys there = absurd there
from_first-append m (x ∷ xs) ys there = elim (Bool-cases (x == m)) [
  | inl same ↦ rw same refl
  | inr other ↦ rw other (
      from_first-append m xs ys
        (elim there [ inl e ↦ absurd (ground (arith, string_eq.beq_iff x m)) | inr later ↦ later ]))
]

from_first-head :
    (m : String) (xs : List String) → In m xs → (rest : List String) × (from_first m xs ≡ m ∷ rest)
unfolding from_first
from_first-head m [] there = absurd there
from_first-head m (x ∷ xs) there = elim (Bool-cases (x == m)) [
  | inl same ↦ (xs, rw same (ap (λ y. y ∷ xs) ((string_eq.beq_iff x m).0 same)))
  | inr other ↦
      let (rest, is) = from_first-head m xs (elim there [
        | inl e ↦ absurd (ground (arith, string_eq.beq_iff x m))
        | inr later ↦ later
      ]) in
      (rest, rw other is)
]

module _ (edges : List EdgeDraft) where
  abbrev LinkedFrom : String → List String → Type 0
  LinkedFrom x [] = Unit
  LinkedFrom x (y ∷ ys) = Follows edges x y × LinkedFrom y ys

  -- Each node of the list leads to the next.
  abbrev pub Linked : List String → Type 0
  Linked [] = Unit
  Linked (x ∷ xs) = LinkedFrom x xs

  -- A list of nodes that ends where it begins and takes at least one edge.
  abbrev pub ClosedWalk : List String → Type 0
  ClosedWalk c = (x : String) × (middle : List String) × (c ≡ x ∷ middle ++ x ∷ []) × Linked c

  LinkedFrom-snoc :
      (x : String) (xs : List String) (l m : String)
      → LinkedFrom x (xs ++ l ∷ [])
      → Follows edges l m
      → LinkedFrom x ((xs ++ l ∷ []) ++ m ∷ [])
  LinkedFrom-snoc x [] l m (first, more) step = (first, (step, tt))
  LinkedFrom-snoc x (y ∷ ys) l m (first, more) step = (first, LinkedFrom-snoc y ys l m more step)

  pub Linked-snoc :
      (xs : List String) (l m : String)
      → Linked (xs ++ l ∷ [])
      → Follows edges l m
      → Linked ((xs ++ l ∷ []) ++ m ∷ [])
  Linked-snoc [] l m linked step = (step, tt)
  Linked-snoc (x ∷ xs) l m linked step = LinkedFrom-snoc x xs l m linked step

  LinkedFrom-tail : (x : String) (xs : List String) → LinkedFrom x xs → Linked xs
  LinkedFrom-tail x [] linked = tt
  LinkedFrom-tail x (y ∷ ys) linked = linked.1

  Linked-from_first : (m : String) (xs : List String) → Linked xs → Linked (from_first m xs)
  unfolding from_first
  Linked-from_first m [] linked = tt
  Linked-from_first m (x ∷ xs) linked = elim (Bool-cases (x == m)) [
    | inl same ↦ rw same linked
    | inr other ↦ rw other (Linked-from_first m xs (LinkedFrom-tail x xs linked))
  ]

  -- An edge back into the stack closes the part of the stack from there on.
  pub back-ClosedWalk :
      (xs : List String) (l m : String)
      → Linked (xs ++ l ∷ [])
      → Follows edges l m
      → In m (xs ++ l ∷ [])
      → ClosedWalk (from_first m (xs ++ l ∷ []) ++ m ∷ [])
  back-ClosedWalk xs l m linked step there =
      let (rest, is) = from_first-head m (xs ++ l ∷ []) there in
      (
        m,
        rest,
        ap (λ c. c ++ m ∷ []) is,
        subst Linked (from_first-append m (xs ++ l ∷ []) (m ∷ []) there)
            (Linked-from_first m _ (Linked-snoc xs l m linked step)),
      )

  LinkedFrom-Reaches :
      (a x : String) (middle : List String) → LinkedFrom a (middle ++ x ∷ []) → Reaches edges a x
  LinkedFrom-Reaches a x [] (step, more) = direct step
  LinkedFrom-Reaches a x (c ∷ middle) (step, more) =
      further c step (LinkedFrom-Reaches c x middle more)

  pub ClosedWalk-Reaches : (c : List String) → ClosedWalk c → (x : String) × Reaches edges x x
  ClosedWalk-Reaches c (x, middle, is, linked) =
      (x, LinkedFrom-Reaches x x middle (subst Linked is linked))

  -- The successors of each node are further down in the list.
  abbrev pub Finished : List String → Type 0
  Finished [] = Unit
  Finished (x ∷ l) = ((b : String) → Follows edges x b → In b l) × Finished l

  Finished-step :
      (l : List String) (a b : String) → Finished l → In a l → Follows edges a b → In b l
  Finished-step [] a b order there step = absurd there
  Finished-step (x ∷ l) a b (first, order) (inl is) step =
      inr (first b (subst (λ y. Follows edges y b) is step))
  Finished-step (x ∷ l) a b (first, order) (inr there) step =
      inr (Finished-step l a b order there step)

  Finished-Reaches :
      (l : List String) (a b : String) → Finished l → In a l → Reaches edges a b → In b l
  Finished-Reaches l a b order there (direct step) = Finished-step l a b order there step
  Finished-Reaches l a b order there (further c step path) =
      Finished-Reaches l c b order (Finished-step l a c order there step) path

  below :
      (x b : String) (l : List String)
      → ((c : String) → Follows edges x c → In c l)
      → Finished l
      → Reaches edges x b
      → In b l
  below x b l first order (direct step) = first b step
  below x b l first order (further c step path) = Finished-Reaches l c b order (first c step) path

  pub Finished-acyclic :
      (l : List String) (a : String) → Finished l → In a l → Reaches edges a a → ⊥
  Finished-acyclic [] a order there path = there
  Finished-acyclic (x ∷ l) a (first, order) (inr there) path = Finished-acyclic l a order there path
  Finished-acyclic (x ∷ l) a (first, order) (inl is) path =
      Finished-acyclic l a order
        (below a a l (λ c step. first c (subst (λ y. Follows edges y c) is step)) order path) path
