-- ===== src/Domain/Quotes.antt =====
-- `locate_quote` of src/intel/domain/validation.py. A text is the list of its code points.
use semiconductor_intel.Prelude.{
  ℕ, zero, suc, ◌+◌, ◌-◌, ◌≤◌, ◌<◌, ◌≡◌, refl, sym, ap, ◌∙◌, Bool, true, false, ◌&&◌, Option, none,
  some, List, [], ◌∷◌, arith, length, take, drop, nat_eq, ◌==◌, if◌then◌else◌, Bool-cases,
  Option-cases, inl, inr, subst, ltb, ◌⊎◌,
}

abbrev pub Text : Type 0
Text = List ℕ

abbrev pub starts_with : Text → Text → Bool
starts_with [] t = true
starts_with (c ∷ q) [] = false
starts_with (c ∷ q) (d ∷ t) = c == d && starts_with q t

abbrev later : Option ℕ → Option ℕ
later none = none
later (some i) = some (suc i)

-- str.find: the first position of the pattern.
unfoldable pub find : Text → Text → Option ℕ
find q [] = if starts_with q [] then some 0 else none
find q (c ∷ t) = let rest = find q t in if starts_with q (c ∷ t) then some 0 else later rest

-- str.find with a start.
abbrev shift : ℕ → Option ℕ → Option ℕ
shift n none = none
shift n (some i) = some (n + i)

unfoldable pub find_from : Text → Text → ℕ → Option ℕ
unfolding find
find_from q t start = shift start (find q (drop start t))

-- The loop, with as many rounds as the text is long; each moves on by at least one place.
unfoldable pub spans_from : ℕ → Text → Text → Option ℕ → List (ℕ × ℕ)
unfolding find_from
spans_from zero t q found = []
spans_from (suc n) t q none = []
spans_from (suc n) t q (some i) =
    (i, i + length q) ∷ spans_from n t q (find_from q t (i + length q))

unfoldable pub locate_quote : Text → Text → List (ℕ × ℕ)
unfolding spans_from find_from
locate_quote t [] = []
locate_quote t (c ∷ q) = spans_from (suc (length t)) t (c ∷ q) (find_from (c ∷ q) t 0)

-- The pattern stands at this place of the text.
abbrev pub Occurs : Text → Text → ℕ → Type 0
Occurs q t i = starts_with q (drop i t) ≡ true

-- What find answers: the first place where the pattern stands, or that there is none.
find-first :
    (q t : Text) (i : ℕ)
    → find q t ≡ some i
    → Occurs q t i × (i ≤ length t) × ((j : ℕ) → Occurs q t j → i ≤ j)
unfolding find
find-first q [] i h = ground arith
find-first q (c ∷ t) i h = elim (Bool-cases (starts_with q (c ∷ t))) [
  | inl now ↦ let is : i ≡ 0 = ground (arith, now) in rw is (now, omega arith, λ j o. omega arith)
  | inr not_now ↦ elim (Option-cases (find q t)) [
    | inl never ↦ absurd (ground (arith, not_now, never))
    | inr (k, e) ↦
        let is : i ≡ suc k = ground (arith, not_now, e) in
        let (there, inside, least) = find-first q t k e in
        rw is (
          there,
          omega (arith, inside),
          λ j. elim j as (λ j. Occurs q (c ∷ t) j → suc k ≤ j) [
            | zero ↦ λ o. absurd (ground (arith, not_now, o))
            | suc j ↦ λ o. omega (arith, least j o)
          ],
        )
  ]
]

find-none : (q t : Text) → find q t ≡ none → (j : ℕ) → starts_with q (drop j t) ≡ false
unfolding find
find-none q [] h zero = ground arith
find-none q [] h (suc j) = ground arith
find-none q (c ∷ t) h zero = ground arith
find-none q (c ∷ t) h (suc j) =
    let rest : find q t ≡ none = elim (Option-cases (find q t)) [
      | inl never ↦ never
      | inr (k, e) ↦ absurd (ground (arith, e))
    ] in
    find-none q t rest j

drop-empty : (n : ℕ) → drop {A = ℕ} n [] ≡ []
drop-empty zero = refl
drop-empty (suc n) = refl

drop-drop : (n m : ℕ) (t : Text) → drop m (drop n t) ≡ drop (n + m) t
drop-drop zero m t = let e : m ≡ 0 + m = omega arith in ap (λ n. drop n t) e
drop-drop (suc n) m [] =
    let e : suc (n + m) ≡ suc n + m = omega arith in drop-empty m ∙ ap (λ k. drop {A = ℕ} k []) e
drop-drop (suc n) m (c ∷ t) =
    let e : suc (n + m) ≡ suc n + m = omega arith in drop-drop n m t ∙ ap (λ k. drop k (c ∷ t)) e

beyond : (n : ℕ) (t : Text) → length t ≤ n → drop n t ≡ []
beyond zero [] h = refl
beyond zero (c ∷ t) h = absurd (omega (arith, h))
beyond (suc n) [] h = refl
beyond (suc n) (c ∷ t) h = beyond n t (omega (arith, h))

-- A text starts with a pattern when its front is the pattern.
starts_with-take : (q t : Text) → starts_with q t ≡ true → take (length q) t ≡ q
starts_with-take [] t h = refl
starts_with-take (c ∷ q) [] h = absurd (ground arith)
starts_with-take (c ∷ q) (d ∷ t) h = ground (arith, nat_eq.beq_iff c d, starts_with-take q t)

take-starts_with : (q t : Text) → take (length q) t ≡ q → starts_with q t ≡ true
take-starts_with [] t h = refl
take-starts_with (c ∷ q) [] h = cc
take-starts_with (c ∷ q) (d ∷ t) h = ground (arith, nat_eq.beq_iff c d, take-starts_with q t)

-- From a start s on: the first place at s or later, or no such place.
find_from-first :
    (q t : Text) (s i : ℕ)
    → find_from q t s ≡ some i
    → (s ≤ i) × Occurs q t i × ((j : ℕ) → s ≤ j → Occurs q t j → i ≤ j)
unfolding find_from
find_from-first q t s i h = elim (Option-cases (find q (drop s t))) [
  | inl never ↦ absurd (ground (arith, never))
  | inr (k, e) ↦
      let is : i ≡ s + k = ground (arith, e) in
      let (there, inside, least) = find-first q (drop s t) k e in
      (
        omega (arith, is),
        subst (λ x. starts_with q x ≡ true) (drop-drop s k t ∙ ap (λ n. drop n t) (sym is)) there,
        λ j after o.
            let split : s + (j - s) ≡ j = omega (arith, after) in
            omega (
              arith,
              is,
              least (j - s) (
                  subst (λ x. starts_with q x ≡ true)
                    (ap (λ n. drop n t) (sym split) ∙ sym (drop-drop s (j - s) t)) o),
              after,
            ),
      )
]

find_from-none :
    (q t : Text) (s j : ℕ) → find_from q t s ≡ none → s ≤ j → starts_with q (drop j t) ≡ false
unfolding find_from
find_from-none q t s j h after =
    let never : find q (drop s t) ≡ none = elim (Option-cases (find q (drop s t))) [
      | inl never ↦ never
      | inr (k, e) ↦ absurd (ground (arith, e))
    ] in
    let split : s + (j - s) ≡ j = omega (arith, after) in
    subst (λ x. starts_with q x ≡ false) (drop-drop s (j - s) t ∙ ap (λ n. drop n t) split)
      (find-none q (drop s t) never (j - s))

-- Each span holds the quote, and starts where the last one ended or later.
abbrev pub Spans : Text → Text → ℕ → List (ℕ × ℕ) → Type 0
Spans t q s [] = Unit
Spans t q s ((a, b) ∷ more) =
    (s ≤ a) × (b ≡ a + length q) × (take (length q) (drop a t) ≡ q) × Spans t q b more

-- The place lies in one of the spans.
abbrev pub Covered : ℕ → List (ℕ × ℕ) → Type 0
Covered j [] = ⊥
Covered j ((a, b) ∷ more) = ((a ≤ j) × (j < b)) ⊎ Covered j more

empty_text : (q : Text) → 1 ≤ length q → starts_with q [] ≡ false
empty_text [] h = absurd (omega (arith, h))
empty_text (c ∷ q) h = refl

spans_from-Spans : (n : ℕ) (t q : Text) (s : ℕ) → Spans t q s (spans_from n t q (find_from q t s))
unfolding spans_from
spans_from-Spans zero t q s = tt
spans_from-Spans (suc n) t q s = elim (Option-cases (find_from q t s)) [
  | inl never ↦ rw (never, spans_from) tt
  | inr (i, e) ↦
      let (after, there, least) = find_from-first q t s i e in
      rw (e, spans_from)
        (after, refl, starts_with-take q (drop i t) there, spans_from-Spans n t q (i + length q))
]

spans_from-Covered :
    (n : ℕ) (t q : Text) (s j : ℕ)
    → 1 ≤ length q
    → suc (length t) ≤ n + s
    → s ≤ j
    → Occurs q t j
    → Covered j (spans_from n t q (find_from q t s))
unfolding spans_from
spans_from-Covered zero t q s j some_q enough after o =
    let short : length t ≤ j = omega (arith, enough, after) in
    absurd (ground (arith, ap (starts_with q) (beyond j t short), empty_text q some_q, o))
spans_from-Covered (suc n) t q s j some_q enough after o = elim (Option-cases (find_from q t s)) [
  | inl never ↦ absurd (ground (arith, find_from-none q t s j never after, o))
  | inr (i, e) ↦
      let (from, there, least) = find_from-first q t s i e in
      rw (e, spans_from)
        (elim (Bool-cases (ltb j (i + length q))) [
          | inl inside ↦ inl (least j after o, ground (arith, inside))
          | inr past ↦ inr (
              spans_from-Covered n t q (i + length q) j some_q (omega (arith, enough, from, some_q))
                (ground (arith, past)) o)
        ])
]

-- The spans that locate_quote reports for a quote that is not empty each hold exactly the quote, in
-- order and without overlap, and every place where the quote stands in the text lies in one of them.
pub locate_quote-Spans :
    (t : Text) (c : ℕ) (q : Text)
    → Spans t (c ∷ q) 0 (locate_quote t (c ∷ q))
      × ((j : ℕ) → take (length (c ∷ q)) (drop j t) ≡ c ∷ q → Covered j (locate_quote t (c ∷ q)))
unfolding locate_quote
locate_quote-Spans t c q = (
  spans_from-Spans (suc (length t)) t (c ∷ q) 0,
  λ j same.
      spans_from-Covered (suc (length t)) t (c ∷ q) 0 j (omega arith) (omega arith) (omega arith)
        (take-starts_with (c ∷ q) (drop j t) same),
)
