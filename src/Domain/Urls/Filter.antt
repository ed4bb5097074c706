-- ===== src/Domain/Urls/Filter.antt =====
-- The filter on queries.
use semiconductor_intel.Prelude.{
  ℕ, arith, In, any_of, any_of-In, true, ◌⊎◌, ◌↔◌, String, ◌≡◌, refl, sym, ◌∙◌, ap, subst, Bool,
  false, List, [], ◌∷◌, All, keep, ◌==◌, nat_eq, string_eq, Bool-cases, inl, inr,
}
use Prim.Native.String.{◌++◌ as ◌<>◌}
use Prim.Native.String.append
use Prim.Native.Char.{Char, code}
use text.Mathlib.TextEquality.{Char-path}
use semiconductor_intel.Domain.Urls.{
  key_of, starts_with, tracking_params, is_tracking_param, is_char, push, split_amp, join_amp,
  survives, filter_query,
}

-- No ampersand stands in the text.
abbrev Whole : String → Type 0
Whole String.[] = Unit
Whole (String.◌∷◌ c s) = (is_char 38 c ≡ false) × Whole s

push-Whole :
    (c : Char) (l : List String) → is_char 38 c ≡ false → All Whole l → All Whole (push c l)
push-Whole c [] plain all = ((plain, tt), tt)
push-Whole c (s ∷ rest) plain (first, all) = ((plain, first), all)

split_amp-Whole : (s : String) → All Whole (split_amp s)
unfolding split_amp
split_amp-Whole String.[] = (tt, tt)
split_amp-Whole (String.◌∷◌ c s) = elim (Bool-cases (is_char 38 c)) [
  | inl amp ↦ rw amp (tt, split_amp-Whole s)
  | inr plain ↦ rw plain (push-Whole c (split_amp s) plain (split_amp-Whole s))
]

-- A whole text in front of a split text joins its first piece.
abbrev prepend : String → List String → List String
prepend s [] = s ∷ []
prepend s (t ∷ rest) = (s <> t) ∷ rest

split_amp-single : (s : String) → Whole s → split_amp s ≡ s ∷ []
unfolding split_amp
split_amp-single String.[] whole = refl
split_amp-single (String.◌∷◌ c s) (plain, whole) = rw plain (ap (push c) (split_amp-single s whole))

amp-append : (t : String) → "&" <> t ≡ String.◌∷◌ "&" t
amp-append t = (λ i. append.cons "&" "" t i) ∙ ap (String.◌∷◌ "&") (λ i. append.nil t i)

split_amp-next : (s t : String) → Whole s → split_amp (s <> "&" <> t) ≡ s ∷ split_amp t
unfolding split_amp
split_amp-next String.[] t whole =
    ap split_amp ((λ i. append.nil ("&" <> t) i) ∙ amp-append t) ∙ refl
split_amp-next (String.◌∷◌ c s) t (plain, whole) =
    ap split_amp (λ i. append.cons c s ("&" <> t) i)
    ∙ rw plain (ap (push c) (split_amp-next s t whole))

split_amp-join_amp :
    (s : String) (l : List String) → All Whole (s ∷ l) → split_amp (join_amp (s ∷ l)) ≡ s ∷ l
unfolding join_amp
split_amp-join_amp s [] (whole, all) = split_amp-single s whole
split_amp-join_amp s (t ∷ l) (whole, all) =
    split_amp-next s (join_amp (t ∷ l)) whole ∙ ap (λ r. s ∷ r) (split_amp-join_amp t l all)

true-false : true ≡ false → ⊥
true-false h = cc

abbrev head_code : String → ℕ
head_code String.[] = 0
head_code (String.◌∷◌ c s) = code c

abbrev tail_of : String → String
tail_of String.[] = ""
tail_of (String.◌∷◌ c s) = s

empty-cons : {c : Char} {s : String} → "" ≡ String.◌∷◌ c s → ⊥
empty-cons e = cc

-- What stands in a joined text was joined, but for the empty text that stands in the empty text.
joined-In :
    (l : List String) (s : String)
    → All Whole l
    → In s (split_amp (join_amp l))
    → (s ≡ "" → ⊥)
    → In s l
unfolding split_amp join_amp
joined-In [] s whole m some_text = absurd (elim m [ inl e ↦ some_text e | inr later ↦ later ])
joined-In (t ∷ l) s whole m some_text = subst (In s) (split_amp-join_amp t l whole) m

starts_with-prefix : (p s : String) → (starts_with p s ≡ true) ↔ ((rest : String) × (s ≡ p <> rest))
unfolding starts_with
starts_with-prefix String.[] s = ((λ h. (s, sym (λ i. append.nil s i))), λ h. refl)
starts_with-prefix (String.◌∷◌ c p) String.[] =
    ((λ h. cc), λ (rest, e). absurd (empty-cons (e ∙ (λ i. append.cons c p rest i))))
starts_with-prefix (String.◌∷◌ c p) (String.◌∷◌ d s) = (
  (λ h.
      let (rest, e) = (starts_with-prefix p s).0 (ground arith) in
      let same : c ≡ d = Char-path c d ((nat_eq.beq_iff (code c) (code d)).0 (ground arith)) in
      (
        rest,
        ap (λ x. String.◌∷◌ x s) (sym same)
            ∙ ap (String.◌∷◌ c) e
            ∙ sym (λ i. append.cons c p rest i),
      )),
  λ (rest, e).
      let whole : String.◌∷◌ d s ≡ String.◌∷◌ c (p <> rest) = e ∙ (λ i. append.cons c p rest i) in
      let first : (code c == code d) ≡ true =
        (nat_eq.beq_iff (code c) (code d)).1 (sym (ap head_code whole)) in
      rw (first, (starts_with-prefix p s).1 (rest, ap tail_of whole)) refl,
)

-- The names of the table, and those that begin with `utm_`.
abbrev pub Tracking : String → Type 0
Tracking name = In name tracking_params ⊎ ((rest : String) × (name ≡ "utm_" <> rest))

is_tracking_param-Tracking :
    (lower : String → String) (name : String)
    → (is_tracking_param lower name ≡ true) ↔ Tracking (lower name)
unfolding is_tracking_param
is_tracking_param-Tracking lower name =
    let (listed, listed') = any_of-In (lower name) tracking_params in
    let (begins, begins') = starts_with-prefix "utm_" (lower name) in
    (
      (λ h. elim (Bool-cases (any_of (λ p. p == lower name) tracking_params)) [
        | inl there ↦ inl (listed there)
        | inr missing ↦ inr (begins (ground (arith, missing, h)))
      ]),
      λ h. elim h [
        | inl there ↦ rw (listed' there) refl
        | inr prefix ↦ ground (arith, begins' prefix)
      ],
    )

module _ {A : Type 0} (p : A → Bool) where
  In-keep : (x : A) (l : List A) → In x (keep p l) ↔ (In x l × (p x ≡ true))
  In-keep x [] = ((λ m. absurd m), λ h. h.0)
  In-keep x (y ∷ l) = elim (Bool-cases (p y)) [
    | inl yes_y ↦ rw yes_y (
      (λ m. elim m [
        | inl e ↦ (inl e, ap p e ∙ yes_y)
        | inr later ↦ let (there, yes_x) = (In-keep x l).0 later in (inr there, yes_x)
      ]),
      λ (m, yes_x). elim m [ inl e ↦ inl e | inr later ↦ inr ((In-keep x l).1 (later, yes_x)) ],
    )
    | inr no_y ↦ rw no_y (
      (λ m. let (there, yes_x) = (In-keep x l).0 m in (inr there, yes_x)),
      λ (m, yes_x). elim m [
        | inl e ↦ absurd (true-false (sym yes_x ∙ ap p e ∙ no_y))
        | inr later ↦ (In-keep x l).1 (later, yes_x)
      ],
    )
  ]

  keep-All : (P : A → Type 0) (l : List A) → All P l → All P (keep p l)
  keep-All P [] all = tt
  keep-All P (x ∷ l) (first, all) = elim (Bool-cases (p x)) [
    | inl yes_x ↦ rw yes_x (first, keep-All P l all)
    | inr no_x ↦ rw no_x (keep-All P l all)
  ]

  keep-keep : (l : List A) → keep p (keep p l) ≡ keep p l
  keep-keep [] = refl
  keep-keep (x ∷ l) = elim (Bool-cases (p x)) [
    | inl yes_x ↦ rw yes_x (rw yes_x (ap (λ r. x ∷ r) (keep-keep l)))
    | inr no_x ↦ rw no_x (keep-keep l)
  ]

module _ (lower unquote : String → String) where
  abbrev keeps : String → List String
  keeps query = keep (survives lower unquote) (split_amp query)

  rejoined :
      (l : List String) → All Whole l → keep (survives lower unquote) l ≡ l → keeps (join_amp l) ≡ l
  unfolding split_amp join_amp survives
  rejoined [] all same = refl
  rejoined (s ∷ l) all same = ap (keep (survives lower unquote)) (split_amp-join_amp s l all) ∙ same

  filter_query-keeps : (query : String) → filter_query lower unquote query ≡ join_amp (keeps query)
  unfolding filter_query split_amp join_amp survives
  filter_query-keeps query = elim (Bool-cases (query == "")) [
    | inl empty ↦
        rw empty
          (subst (λ q. "" ≡ join_amp (keeps q)) (sym ((string_eq.beq_iff query "").0 empty)) refl)
    | inr more ↦ rw more refl
  ]

  kept-Whole : (query : String) → All Whole (keeps query)
  kept-Whole query =
      keep-All (survives lower unquote) Whole (split_amp query) (split_amp-Whole query)

  filter_query-same : (query : String) → keeps (filter_query lower unquote query) ≡ keeps query
  filter_query-same query =
      ap keeps (filter_query-keeps query)
      ∙ rejoined (keeps query) (kept-Whole query)
          (keep-keep (survives lower unquote) (split_amp query))

  -- A segment that is to stay: it is not empty, and the lower case of its decoded key is not a name
  -- of the table and does not begin with `utm_`.
  abbrev pub Stays : String → Type 0
  Stays s = (s ≡ "" → ⊥) × (Tracking (lower (unquote (key_of s))) → ⊥)

  survives-Stays : (s : String) → (survives lower unquote s ≡ true) ↔ Stays s
  unfolding survives
  survives-Stays s =
      let (tracks, tracked) = is_tracking_param-Tracking lower (unquote (key_of s)) in
      ground (arith, string_eq.beq_iff s "", tracks, tracked)

  -- The segments of a filtered query that are not empty are exactly those segments of the query
  -- that are not empty and whose key, percent-decoded and in lower case, is not in the table of
  -- tracking parameters and does not begin with `utm_`; the segments that survive the filter are
  -- the same before and after it, in the same order; and a second filtering changes nothing. This
  -- holds whatever lower case and percent decoding are.
  pub filter_query-again :
      (query : String)
      → ((s : String)
          → (In s (split_amp (filter_query lower unquote query)) × (s ≡ "" → ⊥))
            ↔ (In s (split_amp query) × Stays s))
        × (keep (survives lower unquote) (split_amp (filter_query lower unquote query))
            ≡ keep (survives lower unquote) (split_amp query))
        × (filter_query lower unquote (filter_query lower unquote query)
            ≡ filter_query lower unquote query)
  filter_query-again query = (
    (λ s. (
      (λ (m, some_text).
          let kept = (In-keep (survives lower unquote) s (split_amp query)).0 (
            joined-In (keeps query) s (kept-Whole query)
              (subst (λ q. In s (split_amp q)) (filter_query-keeps query) m) some_text) in
          (kept.0, (survives-Stays s).0 kept.1)),
      λ (m, stays).
          let kept =
            (In-keep (survives lower unquote) s (split_amp query)).1
              (m, (survives-Stays s).1 stays) in
          (
            ((In-keep (survives lower unquote) s _).0
                (subst (In s) (sym (filter_query-same query)) kept)).0,
            stays.0,
          ),
    )),
    filter_query-same query,
    filter_query-keeps (filter_query lower unquote query)
        ∙ ap join_amp (filter_query-same query)
        ∙ sym (filter_query-keeps query),
  )
