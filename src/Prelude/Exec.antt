-- ===== src/Prelude/Exec.antt =====
-- Methods that change a store and may raise. What was written before a raise stays written, so the
-- state comes back beside the error too.
use mathlib.Core.Path.{◌≡◌, refl, ap}
use mathlib.Core.Bool.{Bool, true, false}
use mathlib.Core.Option.{Option, none, some}
use semiconductor_intel.Prelude.Tests.{if◌then◌else◌}

pub data Result {ℓ κ} (E : Type κ) (A : Type ℓ) : Type (ℓ ⊔ κ) where
  ok : A → Result E A
  err : E → Result E A

abbrev pub Exec {ℓ} : Type ℓ → Type ℓ → Type ℓ → Type ℓ
Exec E S A = S → Result E A × S

module _ {ℓ} {E S A : Type ℓ} where
  unfoldable pub pure : A → Exec E S A
  pure a s = (ok a, s)

  unfoldable pub raise : E → Exec E S A
  raise e s = (err e, s)

  unfoldable pub gets : (S → A) → Exec E S A
  gets f s = (ok (f s), s)

  -- An operation of the store: its result and the new store.
  unfoldable pub run : (S → A × S) → Exec E S A
  run f s = (ok (f s).0, (f s).1)

module _ {ℓ} {E S A B : Type ℓ} where
  abbrev continue : Result E A → (A → Exec E S B) → Exec E S B
  continue (ok a) f s = f a s
  continue (err e) f s = (err e, s)

  infixl 10 ◌>>=◌ ◌>>◌
  -- Opening this opens the ways to build an action too.
  unfoldable pub ◌>>=◌ : Exec E S A → (A → Exec E S B) → Exec E S B
  unfolding pure raise gets run
  ◌>>=◌ m f s = let (r, s') = m s in continue r f s'

  abbrev pub ◌>>◌ : Exec E S A → Exec E S B → Exec E S B
  m >> n = m >>= λ _. n

-- `try m except`: the handler starts from what was written before the raise.
module _ {ℓ} {E S A : Type ℓ} where
  abbrev handle : Result E A → (E → Exec E S A) → Exec E S A
  handle (ok a) h s = (ok a, s)
  handle (err e) h s = h e s

  unfoldable pub rescue : Exec E S A → (E → Exec E S A) → Exec E S A
  rescue m h s = let (r, s') = m s in handle r h s'

  pub rescue-ok :
      (m : Exec E S A) (h : E → Exec E S A) (s t : S) (a : A)
      → m s ≡ (ok a, t)
      → rescue m h s ≡ (ok a, t)
  unfolding rescue
  rescue-ok m h s t a is = ap (λ (x : Result E A × S). handle x.0 h x.1) is

  pub rescue-err :
      (m : Exec E S A) (h : E → Exec E S A) (s t : S) (e : E)
      → m s ≡ (err e, t)
      → rescue m h s ≡ h e t
  unfolding rescue
  rescue-err m h s t e is = ap (λ (x : Result E A × S). handle x.0 h x.1) is

-- A reflexive and transitive relation between the store before and after, whatever is returned or
-- raised, and one rule for each way to build an action.
pub record Preorder {ℓ} {S : Type ℓ} (R : S → S → Type ℓ) : Type ℓ where
  pub same : (s : S) → R s s
  pub chain : (s t u : S) → R s t → R t u → R s u

pub record Relates {ℓ} {E S A : Type ℓ} (R : S → S → Type ℓ) (m : Exec E S A) : Type ℓ where
  pub at : (s : S) → R s (m s).1

module _ {ℓ} {E S A : Type ℓ} {R : S → S → Type ℓ} (p : Preorder R) where
  pub Relates-pure : (a : A) → Relates R (pure {E = E} a)
  unfolding pure
  Relates-pure a = record { at = λ s. p.same s }

  pub Relates-raise : (e : E) → Relates R (raise {A = A} e)
  unfolding raise
  Relates-raise e = record { at = λ s. p.same s }

  pub Relates-gets : (f : S → A) → Relates R (gets {E = E} f)
  unfolding gets
  Relates-gets f = record { at = λ s. p.same s }

module _ {ℓ} {E S A : Type ℓ} {R : S → S → Type ℓ} where
  pub Relates-run : (f : S → A × S) → ((s : S) → R s (f s).1) → Relates R (run {E = E} f)
  unfolding run
  Relates-run f h = record { at = h }

  pub Relates-if :
      (b : Bool) (m n : Exec E S A)
      → (b ≡ true → Relates R m)
      → (b ≡ false → Relates R n)
      → Relates R (if b then m else n)
  Relates-if true m n km kn = km refl
  Relates-if false m n km kn = kn refl

module _ {ℓ} {E S A B : Type ℓ} {R : S → S → Type ℓ} (p : Preorder R) where
  continue-Relates :
      (r : Result E A) (f : A → Exec E S B) (s t : S)
      → R s t
      → ((a : A) → Relates R (f a))
      → R s (continue r f t).1
  continue-Relates (ok a) f s t h kf = p.chain s t _ h ((kf a).at t)
  continue-Relates (err e) f s t h kf = h

  pub Relates-bind :
      (m : Exec E S A) (f : A → Exec E S B)
      → Relates R m
      → ((a : A) → Relates R (f a))
      → Relates R (m >>= f)
  unfolding ◌>>=◌
  Relates-bind m f km kf = record {
    at = λ s. let (r, s') = m s in continue-Relates r f s s' (km.at s) kf;
  }

-- A match on an optional value.
module _ {ℓ} {E S A B : Type ℓ} where
  unfoldable pub pick : Option A → Exec E S B → (A → Exec E S B) → Exec E S B
  pick none m f = m
  pick (some a) m f = f a

  pub Relates-pick :
      {R : S → S → Type ℓ} (o : Option A) (m : Exec E S B) (f : A → Exec E S B)
      → Relates R m
      → ((a : A) → o ≡ some a → Relates R (f a))
      → Relates R (pick o m f)
  unfolding pick
  Relates-pick none m f km kf = km
  Relates-pick (some a) m f km kf = kf a refl

module _ {ℓ} {E S A B : Type ℓ} where
  -- What follows an exception is not run.
  pub bind-err :
      (m : Exec E S A) (f : A → Exec E S B) (s t : S) (e : E)
      → m s ≡ (err e, t)
      → (m >>= f) s ≡ (err e, t)
  unfolding ◌>>=◌
  bind-err m f s t e h = ap (λ (x : Result E A × S). continue x.0 f x.1) h

  pub bind-ok :
      (m : Exec E S A) (f : A → Exec E S B) (s t : S) (a : A)
      → m s ≡ (ok a, t)
      → (m >>= f) s ≡ f a t
  unfolding ◌>>=◌
  bind-ok m f s t a h = ap (λ (x : Result E A × S). continue x.0 f x.1) h

-- An action that is followed by a fixed result.
module _ {E S A B : Type 0} where
  continue-pure :
      (r : Result E A) (b x : B) (t : S)
      → ((continue r (λ _. pure b) t).1 ≡ t) × ((continue r (λ _. pure b) t).0 ≡ ok x → x ≡ b)
  unfolding pure
  continue-pure (ok a) b x t = (refl, λ e. cc)
  continue-pure (err a) b x t = (refl, λ e. cc)

  pub then-pure :
      (m : Exec E S A) (b x : B) (s : S)
      → ((m >> pure b) s).1 ≡ (m s).1 × (((m >> pure b) s).0 ≡ ok x → x ≡ b)
  unfolding ◌>>=◌
  then-pure m b x s = continue-pure (m s).0 b x (m s).1

-- An action that returned ran both of its parts.
module _ {E S A B : Type 0} where
  continue-inv :
      (r : Result E A) (f : A → Exec E S B) (s u : S) (b : B)
      → continue r f s ≡ (ok b, u)
      → (a : A) × (r ≡ ok a) × (f a s ≡ (ok b, u))
  continue-inv (ok a) f s u b h = (a, refl, h)
  continue-inv (err e) f s u b h = absurd cc

  pub bind-inv :
      (m : Exec E S A) (f : A → Exec E S B) (s u : S) (b : B)
      → (m >>= f) s ≡ (ok b, u)
      → (a : A) × (t : S) × (m s ≡ (ok a, t)) × (f a t ≡ (ok b, u))
  unfolding ◌>>=◌
  bind-inv m f s u b h =
      let (a, is, rest) = continue-inv (m s).0 f (m s).1 u b h in
      (a, (m s).1, ap (λ (r : Result E A). (r, (m s).1)) is, rest)

  pub pick-inv :
      (o : Option A) (e : E) (f : A → Exec E S B) (s u : S) (b : B)
      → pick o (raise e) f s ≡ (ok b, u)
      → (a : A) × (o ≡ some a) × (f a s ≡ (ok b, u))
  unfolding pick raise
  pick-inv none e f s u b h = absurd cc
  pick-inv (some a) e f s u b h = (a, refl, h)
