-- ===== src/Prelude/Dict.antt =====
-- Python's `dict`: the items in insertion order. A write to a present key keeps its place.
use mathlib.Core.Path.{◌≡◌, refl, ◌∙◌}
use mathlib.Core.Bool.{Bool, true, ◌&&◌}
use mathlib.Core.Logic.{◌↔◌, inl, inr}
use mathlib.Core.Option.{Option, none, some}
use mathlib.Core.List.{List, [], ◌∷◌}
use native.Mathlib.Omega.{arith}
use semiconductor_intel.Prelude.Lists.{In}
use semiconductor_intel.Prelude.Tests.{Eq, ◌==◌, ==_refl, Bool-cases, if◌then◌else◌}

abbrev pub Dict {ℓ κ} : Type ℓ → Type κ → Type (ℓ ⊔ κ)
Dict K V = List (K × V)

module _ {ℓ κ} {K : Type ℓ} {V : Type κ} ⦃e : Eq K⦄ where
  -- d.get(k)
  unfoldable pub get : K → Dict K V → Option V
  get k [] = none
  get k ((j, v) ∷ d) = if j == k then some v else get k d

  -- d[k] = v
  unfoldable pub put : K → V → Dict K V → Dict K V
  put k v [] = (k, v) ∷ []
  put k v ((j, w) ∷ d) = if j == k then (j, v) ∷ d else (j, w) ∷ put k v d

  pub get-put :
      (k j : K) (v : V) (d : Dict K V) → get j (put k v d) ≡ (if k == j then some v else get j d)
  unfolding get put
  get-put k j v [] = refl
  get-put k j v ((i, w) ∷ d) =
      ground (arith, e.beq_iff k j, e.beq_iff i k, e.beq_iff i j, get-put k j v d)

  pub get-put_self : (k : K) (v : V) (d : Dict K V) → get k (put k v d) ≡ some v
  get-put_self k v d = ground (arith, get-put k k v d, ==_refl k)

abbrev pub apply_option {ℓ} : {V : Type ℓ} → (V → V) → Option V → Option V
apply_option f none = none
apply_option f (some v) = some (f v)

-- Every value of the dictionary is changed in place, and no key.
module _ {ℓ κ} {K : Type ℓ} {V : Type κ} ⦃e : Eq K⦄ where
  unfoldable pub map_values : (V → V) → Dict K V → Dict K V
  map_values f [] = []
  map_values f ((j, v) ∷ d) = (j, f v) ∷ map_values f d

  pub get-map_values :
      (f : V → V) (k : K) (d : Dict K V) → get k (map_values f d) ≡ apply_option f (get k d)
  unfolding get map_values
  get-map_values f k [] = refl
  get-map_values f k ((j, v) ∷ d) = ground (arith, get-map_values f k d)

-- No key stands twice.
module _ {ℓ κ} {K : Type ℓ} {V : Type κ} ⦃e : Eq K⦄ where
  abbrev pub Distinct : Dict K V → Type κ
  Distinct [] = Unit
  Distinct ((k, v) ∷ d) = (get k d ≡ none) × Distinct d

  pub Distinct-put : (k : K) (v : V) (d : Dict K V) → Distinct d → Distinct (put k v d)
  unfolding put get
  Distinct-put k v [] h = (refl, tt)
  Distinct-put k v ((j, w) ∷ d) h = elim (Bool-cases (j == k)) [
    | inl same ↦ rw (same, put) h
    | inr other ↦
        rw (other, put)
          (
            get-put k j v d ∙ ground (arith, h.0, e.beq_iff j k, e.beq_iff k j),
            Distinct-put k v d h.1,
          )
  ]

  pub Distinct-map_values : (f : V → V) (d : Dict K V) → Distinct d → Distinct (map_values f d)
  unfolding map_values
  Distinct-map_values f [] h = tt
  Distinct-map_values f ((j, w) ∷ d) h =
      (get-map_values f j d ∙ rw h.0, Distinct-map_values f d h.1)

-- What stands among the items is what a lookup of its key finds.
pub In-get :
    {K V : Type 0} ⦃e : Eq K⦄ (k : K) (v : V) (d : Dict K V)
    → Distinct d
    → In (k, v) d
    → get k d ≡ some v
unfolding get
In-get ⦃e⦄ k v [] h m = absurd m
In-get ⦃e⦄ k v ((j, w) ∷ d) h (inl same) = ground (arith, e.beq_iff j k, same)
In-get ⦃e⦄ k v ((j, w) ∷ d) h (inr m) = ground (arith, e.beq_iff j k, h.0, In-get k v d h.1 m)

-- And a lookup finds only what stands among the items.
pub get-In :
    {K V : Type 0} ⦃e : Eq K⦄ (k : K) (v : V) (d : Dict K V) → get k d ≡ some v → In (k, v) d
unfolding get
get-In k v [] h = cc
get-In ⦃e⦄ k v ((j, w) ∷ d) h = elim (Bool-cases (j == k)) [
  | inl same ↦ inl (ground (arith, e.beq_iff j k))
  | inr other ↦ inr (get-In k v d (ground arith))
]

-- d.pop(k, None)
module _ {ℓ κ} {K : Type ℓ} {V : Type κ} ⦃e : Eq K⦄ where
  unfoldable pub remove : K → Dict K V → Dict K V
  remove k [] = []
  remove k ((j, v) ∷ d) = let rest = remove k d in if j == k then rest else (j, v) ∷ rest

  pub get-remove :
      (k j : K) (d : Dict K V) → get j (remove k d) ≡ (if k == j then none else get j d)
  unfolding get remove
  get-remove k j [] = ground arith
  get-remove k j ((i, v) ∷ d) =
      ground (arith, get-remove k j d, e.beq_iff i k, e.beq_iff i j, e.beq_iff k j)

-- Keys of three parts.
abbrev pub triple_beq {ℓ} :
    {A B C : Type ℓ} ⦃a : Eq A⦄ ⦃b : Eq B⦄ ⦃c : Eq C⦄ → A × B × C → A × B × C → Bool
triple_beq (x, y, z) (x', y', z') = x == x' && y == y' && z == z'

pub triple_beq_iff {ℓ} :
    {A B C : Type ℓ} ⦃a : Eq A⦄ ⦃b : Eq B⦄ ⦃c : Eq C⦄ (s t : A × B × C)
    → (triple_beq s t ≡ true) ↔ (s ≡ t)
triple_beq_iff ⦃a⦄ ⦃b⦄ ⦃c⦄ (x, y, z) (x', y', z') =
    ground (arith, a.beq_iff x x', b.beq_iff y y', c.beq_iff z z')

instance abbrev pub triple_eq {ℓ} :
    {A B C : Type ℓ} ⦃a : Eq A⦄ ⦃b : Eq B⦄ ⦃c : Eq C⦄ → Eq (A × B × C)
triple_eq = record { beq = triple_beq; beq_iff = triple_beq_iff }
