-- ===== src/Domain/Identity/Merge.antt =====
-- Two events are merged only when they are one event by every component of their type.
use semiconductor_intel.Prelude.{
  ◌≡◌, refl, sym, ap, ◌∙◌, ◌↔◌, String, Bool, true, false, Option, none, some, List, [], ◌∷◌, ◌++◌,
  arith, string_eq, ◌==◌, In, Bool-cases, inl, inr, subst,
}
use semiconductor_intel.Prelude.Dict.{Dict, get}
use semiconductor_intel.Domain.Identity.{
  event_identity_components, StrongKey, key, same_components, can_auto_merge, duplicate_candidates,
  or_blank, with_value, required_components, optional_components, strong_key, build_from,
  build_identity_key,
}

same_components_iff : (c d : List (String × String)) → (same_components c d ≡ true) ↔ (c ≡ d)
same_components_iff [] [] = (λ h. refl, λ h. refl)
same_components_iff [] (d ∷ ds) = (λ h. cc, λ h. cc)
same_components_iff (c ∷ cs) [] = (λ h. cc, λ h. cc)
same_components_iff ((n, v) ∷ cs) ((m, w) ∷ ds) =
    ground (arith, string_eq.beq_iff n m, string_eq.beq_iff v w, same_components_iff cs ds)

can_auto_merge_iff : (a b : StrongKey) → (can_auto_merge a b ≡ true) ↔ (a ≡ b)
unfolding can_auto_merge
can_auto_merge_iff a b = ground (
  arith,
  string_eq.beq_iff a.event_type b.event_type,
  same_components_iff a.components b.components,
)

ap2_pair :
    {a b : String} {x y : StrongKey} → a ≡ b → x ≡ y → Path (String × StrongKey) (a, x) (b, y)
ap2_pair e h = cc (e, h)

some_pair :
    {a b c d : List String}
    → Path (Option (List String × List String)) (some (a, b)) (some (c, d))
    → (a ≡ c) × (b ≡ d)
some_pair h = (cc, cc)

true-false : true ≡ false → ⊥
true-false h = cc

-- The candidates for a key are the events of the index that have exactly this key, and no other.
pub duplicate_candidates-In :
    (k : StrongKey) (existing : Dict String StrongKey) (id : String)
    → In id (duplicate_candidates k existing) ↔ In (id, k) existing
unfolding duplicate_candidates
duplicate_candidates-In k [] id = (λ m. m, λ m. m)
duplicate_candidates-In k ((j, other) ∷ rest) id =
    let is = can_auto_merge_iff k other in
    let more = duplicate_candidates-In k rest id in
    elim (Bool-cases (can_auto_merge k other)) [
      | inl same ↦ rw same (
        (λ m. elim m [ inl e ↦ inl (ap2_pair e (is.0 same)) | inr there ↦ inr (more.0 there) ]),
        (λ m. elim m [
          | inl e ↦ inl (ap (λ (x : String × StrongKey). x.0) e)
          | inr there ↦ inr (more.1 there)
        ]),
      )
      | inr differ ↦ rw differ (
        (λ m. inr (more.0 m)),
        (λ m. elim m [
          | inl e ↦
              absurd (true-false (sym (is.1 (ap (λ (x : String × StrongKey). x.1) e)) ∙ differ))
          | inr there ↦ more.1 there
        ]),
      )
    ]

module _ (blank : String → Bool) (normalize : String → String) where
  -- The normalized value of a component, blank where it is missing.
  abbrev pub value : Dict String String → String → String
  value fields name = normalize (or_blank (get name fields))

  abbrev listed : Dict String String → List String → List (String × String)
  listed fields [] = []
  listed fields (n ∷ ns) = (n, value fields n) ∷ listed fields ns

  optional-listed :
      (fields : Dict String String) (names : List String)
      → optional_components blank normalize fields names ≡ listed fields names
  unfolding optional_components
  optional-listed fields [] = refl
  optional-listed fields (n ∷ ns) = ap (◌∷◌ (n, value fields n)) (optional-listed fields ns)

  with_value-inv :
      (name : String) (o : Option String) (rest : Option (List (String × String)))
      (cs : List (String × String))
      → with_value blank normalize name o rest ≡ some cs
      → (raw : String) × (cs' : List (String × String)) × (o ≡ some raw)
        × (blank raw ≡ false)
        × (rest ≡ some cs')
        × (cs ≡ (name, normalize raw) ∷ cs')
  with_value-inv name none rest cs h = cc
  with_value-inv name (some raw) none cs h = cc
  with_value-inv name (some raw) (some more) cs h = elim (Bool-cases (blank raw)) [
    | inl empty ↦ absurd (ground (arith, empty))
    | inr filled ↦ (raw, more, refl, filled, refl, ground (arith, filled))
  ]

  required-listed :
      (fields : Dict String String) (names rest : List String) (cs : List (String × String))
      → required_components blank normalize fields names (listed fields rest) ≡ some cs
      → (cs ≡ listed fields (names ++ rest))
        × ((n : String)
            → In n names
            → (raw : String) × (get n fields ≡ some raw) × (blank raw ≡ false))
  unfolding required_components
  required-listed fields [] rest cs h = (ground arith, λ n m. absurd m)
  required-listed fields (n ∷ ns) rest cs h =
      let (raw, cs', there, filled, more, is) = with_value-inv n (get n fields) _ cs h in
      let (same, all) = required-listed fields ns rest cs' more in
      (
        is ∙ cc (same, there),
        λ m mem. elim mem [
          | inl e ↦ (raw, ap (λ x. get x fields) e ∙ there, filled)
          | inr later ↦ all m later
        ],
      )

  same-listed :
      (f g : Dict String String) (names : List String)
      → (same_components (listed f names) (listed g names) ≡ true)
        ↔ ((n : String) → In n names → value f n ≡ value g n)
  same-listed f g [] = (λ h n m. absurd m, λ h. refl)
  same-listed f g (n ∷ ns) =
      let here = string_eq.beq_iff (value f n) (value g n) in
      let self = (string_eq.beq_iff n n).1 refl in
      let more = same-listed f g ns in
      (
        (λ h m mem. elim mem [
          | inl e ↦ subst (λ x. value f x ≡ value g x) (sym e) (ground (arith, here))
          | inr later ↦ more.0 (ground arith) m later
        ]),
        λ all.
            ground (arith, self, here.1 (all n (inl refl)), more.1 (λ m later. all m (inr later))),
      )

  -- The components of a type.
  abbrev pub components_of : String → Option (List String × List String)
  components_of type = get type event_identity_components

  strong_key-inv :
      (type : String) (o : Option (List (String × String))) (a : StrongKey)
      → strong_key blank normalize type o ≡ key a
      → (cs : List (String × String)) × (o ≡ some cs)
        × (a ≡ record { event_type = type; components = cs })
  strong_key-inv type none a h = cc
  strong_key-inv type (some cs) a h = (cs, refl, cc)

  build_from-inv :
      (type : String) (fields : Dict String String) (o : Option (List String × List String))
      (a : StrongKey)
      → build_from blank normalize type fields o ≡ key a
      → (required : List String) × (optional : List String) × (o ≡ some (required, optional))
        × (a ≡ record { event_type = type; components = listed fields (required ++ optional) })
        × ((n : String)
            → In n required
            → (raw : String) × (get n fields ≡ some raw) × (blank raw ≡ false))
  build_from-inv type fields none a h = cc
  build_from-inv type fields (some (required, optional)) a h =
      let (cs, e, is) = strong_key-inv type _ a h in
      let e' : required_components blank normalize fields required (listed fields optional)
          ≡ some cs =
        subst (λ x. required_components blank normalize fields required x ≡ some cs)
          (optional-listed fields optional) e in
      let (same, all) = required-listed fields required optional cs e' in
      (required, optional, refl, cc (is, same), all)

  build-listed :
      (type : String) (fields : Dict String String) (a : StrongKey)
      → build_identity_key blank normalize type fields ≡ key a
      → (required : List String) × (optional : List String) × (components_of type
          ≡ some (required, optional))
        × (a ≡ record { event_type = type; components = listed fields (required ++ optional) })
        × ((n : String)
            → In n required
            → (raw : String) × (get n fields ≡ some raw) × (blank raw ≡ false))
  unfolding build_identity_key
  build-listed type fields a h = elim (Bool-cases (type == "other")) [
    | inl other ↦ absurd (ground (arith, other))
    | inr known ↦ build_from-inv type fields (components_of type) a (ground (arith, known))
  ]

  -- Two events of one type with strong keys are merged exactly when all the type's components,
  -- required and optional, have the same normalized values; and both have every required component,
  -- not blank.
  pub build_identity_key-merge :
      (type : String) (f g : Dict String String) (a b : StrongKey)
      → build_identity_key blank normalize type f ≡ key a
      → build_identity_key blank normalize type g ≡ key b
      → (required : List String) × (optional : List String) × (components_of type
          ≡ some (required, optional))
        × ((can_auto_merge a b ≡ true)
            ↔ ((n : String) → In n (required ++ optional) → value f n ≡ value g n))
        × ((n : String)
            → In n required
            → ((raw : String) × (get n f ≡ some raw) × (blank raw ≡ false))
              × ((raw : String) × (get n g ≡ some raw) × (blank raw ≡ false)))
  unfolding can_auto_merge
  build_identity_key-merge type f g a b h k =
      let (required, optional, at, is, all) = build-listed type f a h in
      let (required', optional', at', is', all') = build-listed type g b k in
      let (same_r, same_o) = some_pair (sym at' ∙ at) in
      let same_b : b ≡ record { event_type = type; components = listed g (required ++ optional) } =
        cc (is', same_r, same_o) in
      let self = (string_eq.beq_iff type type).1 refl in
      let lists = same-listed f g (required ++ optional) in
      (
        required,
        optional,
        at,
        rw (is, same_b) ((λ e. lists.0 (ground arith)), λ e. ground (arith, self, lists.1 e)),
        λ n m. (all n m, all' n (subst (In n) (sym same_r) m)),
      )
