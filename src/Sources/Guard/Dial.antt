-- ===== src/Sources/Guard/Dial.antt =====
-- What the guard lets a connection be made to.
use semiconductor_intel.Prelude.{
  ℕ, String, ◌≡◌, ◌≢◌, ◌↔◌, ◌⊎◌, inl, inr, refl, sym, ◌∙◌, ap, subst, Bool, true, false, not,
  Option, none, some, List, [], ◌∷◌, In, All, nat_eq, Bool-cases, Option-cases, if◌then◌else◌,
  any_of-In,
}
use semiconductor_intel.Prelude.Exec.{Result, ok, err}
use semiconductor_intel.Sources.Guard.{
  Library, first_address, unless, and_then, allows, reject_address, check_host_literal,
  validate_all, resolved, resolve_and_validate, connect_tcp,
}
use semiconductor_intel.Sources.Guard.Public.{Public, reject_address-Public}

ok_injective : {A : Type 0} {x y : A} → Path (Result String A) (ok x) (ok y) → x ≡ y
ok_injective h = cc

err-ok : {A : Type 0} {e : String} {a : A} → Path (Result String A) (err e) (ok a) → ⊥
err-ok h = cc

cons-empty : {a : String} {l : List String} → Path (List String) (a ∷ l) [] → ⊥
cons-empty h = cc

module _ {V4 V6 : Type 0} (lib : Library V4 V6) where
  -- The address is the text of a public one.
  abbrev pub Safe : String → Type 0
  Safe a = (ip : V4 ⊎ V6) × (a ≡ lib.text ip) × Public lib ip

  -- Each answer is a public address, and the texts are theirs in order.
  abbrev pub Validated : List String → List String → Type 0
  Validated [] addresses = addresses ≡ []
  Validated (raw ∷ rest) addresses =
      (ip : V4 ⊎ V6) × (more : List String) × (lib.ip_address raw ≡ some ip)
      × Public lib ip
      × (addresses ≡ lib.text ip ∷ more)
      × Validated rest more

  abbrev step : Option (V4 ⊎ V6) → List String → Result String (List String)
  step none rest = err "resolution_invalid"
  step (some ip) rest =
      unless (reject_address lib ip)
        (and_then (validate_all lib rest) (λ validated. ok (lib.text ip ∷ validated)))

  validate_all-step :
      (raw : String) (rest : List String)
      → validate_all lib (raw ∷ rest) ≡ step (lib.ip_address raw) rest
  unfolding validate_all
  validate_all-step raw rest = elim (Option-cases (lib.ip_address raw)) [
    | inl bad ↦ rw (bad, validate_all) refl
    | inr (ip, is) ↦ rw (is, validate_all) refl
  ]

  unless-ok :
      {A : Type 0} (o : Option String) (r : Result String A) (a : A)
      → (unless o r ≡ ok a) ↔ ((o ≡ none) × (r ≡ ok a))
  unless-ok none r a = ((λ h. (refl, h)), λ (x, y). y)
  unless-ok (some reason) r a = ((λ h. absurd cc), λ (x, y). absurd cc)

  and_then-ok :
      {A B : Type 0} (r : Result String A) (f : A → Result String B) (b : B)
      → and_then r f ≡ ok b
      → (a : A) × (r ≡ ok a) × (f a ≡ ok b)
  and_then-ok (ok a) f b h = (a, refl, h)
  and_then-ok (err e) f b h = absurd cc

  validate_all-Validated :
      (answers addresses : List String)
      → (validate_all lib answers ≡ ok addresses) ↔ Validated answers addresses
  unfolding validate_all
  validate_all-Validated [] addresses = ((λ h. sym (ok_injective h)), λ e. ap ok (sym e))
  validate_all-Validated (raw ∷ rest) addresses = (
    (λ h. elim (Option-cases (lib.ip_address raw)) [
      | inl bad ↦
          absurd (err-ok (sym (ap (λ o. step o rest) bad) ∙ sym (validate_all-step raw rest) ∙ h))
      | inr (ip, is) ↦
          let split =
            unless-ok (reject_address lib ip)
              (and_then (validate_all lib rest) (λ validated. ok (lib.text ip ∷ validated)))
              addresses in
          let (open_, later) =
            split.0 (sym (ap (λ o. step o rest) is) ∙ sym (validate_all-step raw rest) ∙ h) in
          let (more, rest_ok, e) = and_then-ok (validate_all lib rest) _ addresses later in
          (
            ip,
            more,
            is,
            (reject_address-Public lib ip).0 open_,
            sym (ok_injective e),
            (validate_all-Validated rest more).0 rest_ok,
          )
    ]),
    λ (ip, more, is, public, e, later).
        let rest_ok = (validate_all-Validated rest more).1 later in
        let open_ = (reject_address-Public lib ip).1 public in
        validate_all-step raw rest
        ∙ ap (λ o. step o rest) is
        ∙ (unless-ok (reject_address lib ip) _ addresses).1 (
          open_,
          ap (λ r. and_then r (λ validated. ok (lib.text ip ∷ validated))) rest_ok ∙ ap ok (sym e),
        ),
  )

  Validated-Safe :
      (answers addresses : List String) → Validated answers addresses → All Safe addresses
  Validated-Safe [] addresses e = subst (All Safe) (sym e) tt
  Validated-Safe (raw ∷ rest) addresses (ip, more, is, public, e, later) =
      subst (All Safe) (sym e) ((ip, refl, public), Validated-Safe rest more later)

  Validated-some :
      (raw : String) (rest addresses : List String)
      → Validated (raw ∷ rest) addresses
      → addresses ≢ []
  Validated-some raw rest addresses (ip, more, is, public, e, later) empty =
      cons-empty (sym e ∙ empty)

  answers-some :
      (answers addresses : List String)
      → answers ≢ []
      → Validated answers addresses
      → addresses ≢ []
  answers-some [] addresses some_there v = absurd (some_there refl)
  answers-some (raw ∷ rest) addresses some_there v = Validated-some raw rest addresses v

  first-Safe :
      (addresses : List String)
      → All Safe addresses
      → addresses ≢ []
      → (a : String) × (first_address addresses ≡ some a) × Safe a
  first-Safe [] safe some_there = absurd (some_there refl)
  first-Safe (a ∷ rest) safe some_there = (a, refl, safe.0)

  module _ (allowed_ports : List ℕ) (resolve : String → List String) where
    abbrev literal : Option (V4 ⊎ V6) → String → Result String (List String)
    literal (some ip) host = unless (reject_address lib ip) (ok (lib.text ip ∷ []))
    literal none host = unless (check_host_literal lib host) (resolved lib (resolve host))

    by_literal :
        (host : String) (port : ℕ)
        → allows allowed_ports port ≡ true
        → resolve_and_validate lib allowed_ports resolve host port
          ≡ literal (lib.ip_address host) host
    unfolding resolve_and_validate
    by_literal host port allowed = elim (Option-cases (lib.ip_address host)) [
      | inl name ↦ rw allowed (rw (name, resolve_and_validate) refl)
      | inr (ip, is) ↦ rw allowed (rw (is, resolve_and_validate) refl)
    ]

    closed_port :
        (b : Bool) (r : Result String (List String)) (addresses : List String)
        → b ≡ false
        → (if not b then err "port" else r) ≡ ok addresses
        → ⊥
    closed_port true r addresses e h = cc
    closed_port false r addresses e h = err-ok h

    port-allowed :
        (host : String) (port : ℕ) (addresses : List String)
        → resolve_and_validate lib allowed_ports resolve host port ≡ ok addresses
        → allows allowed_ports port ≡ true
    unfolding resolve_and_validate
    port-allowed host port addresses h = elim (Bool-cases (allows allowed_ports port)) [
      | inl allowed ↦ allowed
      | inr closed ↦ absurd (closed_port (allows allowed_ports port) _ addresses closed h)
    ]

    resolved-Validated :
        (answers addresses : List String)
        → (resolved lib answers ≡ ok addresses) ↔ ((answers ≢ []) × Validated answers addresses)
    resolved-Validated [] addresses =
        ((λ h. absurd (err-ok h)), λ (some_there, v). absurd (some_there refl))
    resolved-Validated (a ∷ rest) addresses =
        let all = validate_all-Validated (a ∷ rest) addresses in
        ((λ h. (cons-empty, all.0 h)), λ (some_there, v). all.1 v)

    -- On an allowed port a host name that is no address and passes the checks on names is resolved
    -- exactly when the resolver answers something and each answer is a public address; the result is
    -- their texts in order.
    pub resolve_and_validate-Validated :
        (host : String) (port : ℕ) (addresses : List String)
        → allows allowed_ports port ≡ true
        → lib.ip_address host ≡ none
        → check_host_literal lib host ≡ none
        → (resolve_and_validate lib allowed_ports resolve host port ≡ ok addresses)
          ↔ ((resolve host ≢ []) × Validated (resolve host) addresses)
    resolve_and_validate-Validated host port addresses allowed name clean =
        let is : resolve_and_validate lib allowed_ports resolve host port
            ≡ resolved lib (resolve host) =
          by_literal host port allowed
          ∙ ap (λ o. literal o host) name
          ∙ ap (λ o. unless o (resolved lib (resolve host))) clean in
        let all = resolved-Validated (resolve host) addresses in
        ((λ h. all.0 (sym is ∙ h)), λ v. is ∙ all.1 v)

    literal-Safe :
        (o : Option (V4 ⊎ V6)) (host : String) (addresses : List String)
        → literal o host ≡ ok addresses
        → All Safe addresses × (addresses ≢ [])
    literal-Safe (some ip) host addresses h =
        let (open_, e) =
          (unless-ok (reject_address lib ip) (ok (lib.text ip ∷ [])) addresses).0 h in
        let is = ok_injective e in
        (
          subst (All Safe) is ((ip, refl, (reject_address-Public lib ip).0 open_), tt),
          λ empty. cons-empty (is ∙ empty),
        )
    literal-Safe none host addresses h =
        let (clean, e) =
          (unless-ok (check_host_literal lib host) (resolved lib (resolve host)) addresses).0 h in
        let (some_there, v) = (resolved-Validated (resolve host) addresses).0 e in
        (
          Validated-Safe (resolve host) addresses v,
          answers-some (resolve host) addresses some_there v,
        )

    resolve_and_validate-Safe :
        (host : String) (port : ℕ) (addresses : List String)
        → resolve_and_validate lib allowed_ports resolve host port ≡ ok addresses
        → All Safe addresses × (addresses ≢ [])
    resolve_and_validate-Safe host port addresses h =
        literal-Safe (lib.ip_address host) host addresses
          (sym (by_literal host port (port-allowed host port addresses h)) ∙ h)

    -- A connection goes to an allowed port and to a public address, and there always is one to go to,
    -- whatever the host is and whatever the resolver answers.
    pub connect_tcp-Public :
        (host : String) (port : ℕ) (dialled : Option String)
        → connect_tcp lib allowed_ports resolve host port ≡ ok dialled
        → In port allowed_ports × ((a : String) × (dialled ≡ some a) × Safe a)
    unfolding connect_tcp
    connect_tcp-Public host port dialled h =
        let (addresses, is, e) =
          and_then-ok (resolve_and_validate lib allowed_ports resolve host port) _ dialled h in
        let (safe, some_there) = resolve_and_validate-Safe host port addresses is in
        let (a, head, fine) = first-Safe addresses safe some_there in
        (
          (any_of-In port allowed_ports).0 (port-allowed host port addresses is),
          (a, sym (ok_injective e) ∙ head, fine),
        )
