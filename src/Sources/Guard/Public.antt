-- ===== src/Sources/Guard/Public.antt =====
-- Only public addresses come through the guard.
use semiconductor_intel.Prelude.{
  String, ◌≡◌, ◌↔◌, ◌⊎◌, inl, inr, refl, sym, subst, Bool, false, Option, none, some, List, [], ◌∷◌,
  In, nat_eq, arith,
}
use semiconductor_intel.Sources.Guard.{
  Library, rejection_reasons, first_reason, or_else, reject_v4, reject_native, reject_embedded,
  reject_v6, reject_address,
}

first_reason-none :
    (is : String → Bool) (rs : List String)
    → (first_reason is rs ≡ none) ↔ ((r : String) → In r rs → is r ≡ false)
unfolding first_reason
first_reason-none is [] = ((λ h r m. absurd m), λ all. refl)
first_reason-none is (x ∷ rs) =
    let later = first_reason-none is rs in
    (
      (λ h r m. elim m [
        | inl e ↦ subst (λ y. is y ≡ false) (sym e) (ground arith)
        | inr there ↦ later.0 (ground arith) r there
      ]),
      λ all. ground (arith, all x (inl refl), later.1 (λ r m. all r (inr m))),
    )

or_else-none : (o p : Option String) → (or_else o p ≡ none) ↔ ((o ≡ none) × (p ≡ none))
or_else-none none p = ((λ h. (refl, h)), λ (a, b). b)
or_else-none (some r) p = ((λ h. cc), λ (a, b). cc)

module _ {V4 V6 : Type 0} (lib : Library V4 V6) where
  -- None of the classes that are refused.
  abbrev pub PublicV4 : V4 → Type 0
  PublicV4 ip =
      ((r : String) → In r rejection_reasons → lib.flag4 r ip ≡ false)
      × (lib.in_shared_v4 ip ≡ false)

  abbrev pub BothPublic : Option (V4 × V4) → Type 0
  BothPublic none = Unit
  BothPublic (some (a, b)) = PublicV4 a × PublicV4 b

  -- A mapped or 6to4 address is as public as the address in it; another has no refused class itself,
  -- nor have the two that Teredo puts in it.
  abbrev pub PublicV6As : Option V4 → Option V4 → V6 → Type 0
  PublicV6As (some m) s ip = PublicV4 m
  PublicV6As none (some m) ip = PublicV4 m
  PublicV6As none none ip =
      BothPublic (lib.teredo ip) × ((r : String) → In r rejection_reasons → lib.flag6 r ip ≡ false)

  abbrev pub Public : V4 ⊎ V6 → Type 0
  Public (inl ip) = PublicV4 ip
  Public (inr ip) = PublicV6As (lib.ipv4_mapped ip) (lib.sixtofour ip) ip

  reject_v4-Public : (ip : V4) → (reject_v4 lib ip ≡ none) ↔ PublicV4 ip
  unfolding reject_v4
  reject_v4-Public ip =
      let flags = first_reason-none (λ r. lib.flag4 r ip) rejection_reasons in
      let split = or_else-none (first_reason (λ r. lib.flag4 r ip) rejection_reasons) _ in
      (
        (λ h. let (a, b) = split.0 h in (flags.0 a, ground arith)),
        λ (all, shared). split.1 (flags.1 all, rw shared refl),
      )

  reject_native-Public :
      (ip : V6) (t : Option (V4 × V4))
      → (reject_native lib ip t ≡ none)
        ↔ (BothPublic t × ((r : String) → In r rejection_reasons → lib.flag6 r ip ≡ false))
  unfolding reject_native
  reject_native-Public ip none =
      let flags = first_reason-none (λ r. lib.flag6 r ip) rejection_reasons in
      ((λ h. (tt, flags.0 h)), λ (u, all). flags.1 all)
  reject_native-Public ip (some (a, b)) =
      let flags = first_reason-none (λ r. lib.flag6 r ip) rejection_reasons in
      let own = first_reason (λ r. lib.flag6 r ip) rejection_reasons in
      let outer = or_else-none (reject_v4 lib a) (or_else (reject_v4 lib b) own) in
      let inner = or_else-none (reject_v4 lib b) own in
      (
        (λ h.
            let (x, rest) = outer.0 h in
            let (y, z) = inner.0 rest in
            (((reject_v4-Public a).0 x, (reject_v4-Public b).0 y), flags.0 z)),
        λ ((x, y), all).
            outer.1 ((reject_v4-Public a).1 x, inner.1 ((reject_v4-Public b).1 y, flags.1 all)),
      )

  reject_embedded-Public :
      (m s : Option V4) (ip : V6) → (reject_embedded lib m s ip ≡ none) ↔ PublicV6As m s ip
  unfolding reject_embedded
  reject_embedded-Public (some m) s ip = reject_v4-Public m
  reject_embedded-Public none (some m) ip = reject_v4-Public m
  reject_embedded-Public none none ip = reject_native-Public ip (lib.teredo ip)

  pub reject_address-Public : (ip : V4 ⊎ V6) → (reject_address lib ip ≡ none) ↔ Public ip
  unfolding reject_address reject_v6
  reject_address-Public (inl ip) = reject_v4-Public ip
  reject_address-Public (inr ip) = reject_embedded-Public (lib.ipv4_mapped ip) (lib.sixtofour ip) ip
