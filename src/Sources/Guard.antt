-- ===== src/Sources/Guard.antt =====
-- The guard on outbound addresses: src/intel/sources/ssrf.py. What `ipaddress`, `socket`, `urlsplit`
-- and the pattern for DNS labels say of an address or a text is a parameter, and so is what the
-- resolver answers.
mod Public
mod Dial
mod Samples
use semiconductor_intel.Prelude.{
  ℕ, String, Bool, true, false, not, ◌&&◌, ◌||◌, Option, none, some, List, [], ◌∷◌, ◌⊎◌, inl, inr,
  ltb, leb, ◌==◌, nat_eq, string_eq, if◌then◌else◌, any_of, all_of, length,
}
use semiconductor_intel.Prelude.Exec.{Result, ok, err}

-- `urlsplit` stands for the split of the URL without the spaces around it, the scheme in lower case;
-- the port may raise when it is read, or be absent.
pub data PortField : Type 0 where
  bad absent : PortField
  given : ℕ → PortField

pub record UrlParts : Type 0 where
  pub scheme : String
  pub hostname : Option String
  pub port : PortField

pub record Library (V4 V6 : Type 0) : Type 0 where
  pub ip_address : String → Option (V4 ⊎ V6)
  -- The attribute `is_` with this name.
  pub flag4 : String → V4 → Bool
  pub flag6 : String → V6 → Bool
  pub in_shared_v4 : V4 → Bool
  pub ipv4_mapped : V6 → Option V4
  pub sixtofour : V6 → Option V4
  pub teredo : V6 → Option (V4 × V4)
  pub text : V4 ⊎ V6 → String
  pub labels : String → List String
  pub dns_label : String → Bool
  pub is_digits : String → Bool
  pub inet_aton : String → Bool
  pub size : String → ℕ
  pub urlsplit : String → UrlParts

-- _REJECTION_REASONS
unfoldable pub rejection_reasons : List String
rejection_reasons =
    "loopback" ∷ "link_local" ∷ "multicast" ∷ "unspecified" ∷ "private" ∷ "reserved" ∷ []

unfoldable pub first_reason : (String → Bool) → List String → Option String
first_reason is [] = none
first_reason is (r ∷ rs) = if is r then some r else first_reason is rs

abbrev pub or_else : Option String → Option String → Option String
or_else none later = later
or_else (some r) later = some r

pub record ValidatedTarget : Type 0 where
  pub url : String
  pub scheme : String
  pub host : String
  pub port : ℕ
  pub addresses : List String

abbrev pub unless : {A : Type 0} → Option String → Result String A → Result String A
unless none rest = rest
unless (some reason) rest = err reason

abbrev pub and_then : {A B : Type 0} → Result String A → (A → Result String B) → Result String B
and_then (ok a) f = f a
and_then (err e) f = err e

-- _SCHEME_DEFAULT_PORTS
unfoldable pub default_port : String → Option ℕ
default_port scheme =
    if scheme == "http" then some 80 else if scheme == "https" then some 443 else none

unfoldable pub scheme_allowed : String → Bool
scheme_allowed scheme = scheme == "http" || scheme == "https"

abbrev port_of : String → PortField → Option (Option ℕ)
port_of scheme bad = none
port_of scheme absent = some (default_port scheme)
port_of scheme (given n) = some (some n)

abbrev pub allows : List ℕ → ℕ → Bool
allows ports port = any_of (λ p. p == port) ports

abbrev given_host : Option String → Option String
given_host none = none
given_host (some h) = if h == "" then none else some h

abbrev pub first_address : List String → Option String
first_address [] = none
first_address (a ∷ rest) = some a

module _ {V4 V6 : Type 0} (lib : Library V4 V6) where
  unfoldable pub reject_v4 : V4 → Option String
  unfolding first_reason rejection_reasons
  reject_v4 ip =
      or_else (first_reason (λ r. lib.flag4 r ip) rejection_reasons)
        (if lib.in_shared_v4 ip then some "private" else none)

  -- After the tests for an embedded address of which only that one counts.
  unfoldable pub reject_native : V6 → Option (V4 × V4) → Option String
  unfolding reject_v4
  reject_native ip none = first_reason (λ r. lib.flag6 r ip) rejection_reasons
  reject_native ip (some (a, b)) =
      or_else (reject_v4 a)
        (or_else (reject_v4 b) (first_reason (λ r. lib.flag6 r ip) rejection_reasons))

  unfoldable pub reject_embedded : Option V4 → Option V4 → V6 → Option String
  unfolding reject_native
  reject_embedded (some m) s ip = reject_v4 m
  reject_embedded none (some m) ip = reject_v4 m
  reject_embedded none none ip = reject_native ip (lib.teredo ip)

  unfoldable pub reject_v6 : V6 → Option String
  unfolding reject_embedded
  reject_v6 ip = reject_embedded (lib.ipv4_mapped ip) (lib.sixtofour ip) ip

  -- `_reject_address`
  unfoldable pub reject_address : V4 ⊎ V6 → Option String
  unfolding reject_v6
  reject_address (inl ip) = reject_v4 ip
  reject_address (inr ip) = reject_v6 ip

  -- The reason with which `_check_host_literal` raises.
  unfoldable pub check_host_literal : String → Option String
  unfolding reject_address
  check_host_literal host = elim (lib.ip_address host) [
    | some ip ↦ reject_address ip
    | none ↦
        let labels = lib.labels host in
        if ltb 253 (lib.size host) || not (all_of lib.dns_label labels)
        then some "host_invalid"
        else if all_of lib.is_digits labels && leb (length labels) 4
        then some "host_obfuscated"
        else if lib.inet_aton host
        then some "host_obfuscated"
        else none
  ]

  -- The loop over what the resolver answered.
  unfoldable pub validate_all : List String → Result String (List String)
  unfolding reject_address
  validate_all [] = ok []
  validate_all (raw ∷ rest) = elim (lib.ip_address raw) [
    | none ↦ err "resolution_invalid"
    | some ip ↦
        unless (reject_address ip)
          (and_then (validate_all rest) (λ validated. ok (lib.text ip ∷ validated)))
  ]

  abbrev resolved : List String → Result String (List String)
  resolved [] = err "resolution_empty"
  resolved (a ∷ rest) = validate_all (a ∷ rest)

  module _ (allowed_ports : List ℕ) (resolve : String → List String) where
    unfoldable pub parse : String → Result String (String × String × ℕ)
    unfolding check_host_literal default_port scheme_allowed
    parse url =
        let parts = lib.urlsplit url in
        if not (scheme_allowed parts.scheme)
        then err "scheme"
        else elim (given_host parts.hostname) [
          | none ↦ err "host_invalid"
          | some host ↦ elim (port_of parts.scheme parts.port) [
            | none ↦ err "port"
            | some none ↦ err "port"
            | some (some port) ↦
                if not (allows allowed_ports port)
                then err "port"
                else unless (check_host_literal host) (ok (parts.scheme, host, port))
          ]
        ]

    unfoldable pub resolve_and_validate : String → ℕ → Result String (List String)
    unfolding check_host_literal validate_all
    resolve_and_validate host port =
        if not (allows allowed_ports port) then err "port" else elim (lib.ip_address host) [
          | some ip ↦ unless (reject_address ip) (ok (lib.text ip ∷ []))
          | none ↦ unless (check_host_literal host) (resolved (resolve host))
        ]

    unfoldable pub validate : String → Result String ValidatedTarget
    unfolding parse resolve_and_validate
    validate url = and_then (parse url) (λ p. and_then (resolve_and_validate p.1 p.2) (λ addresses.
        ok (record { url = url; scheme = p.0; host = p.1; port = p.2; addresses = addresses })))

    -- The address that `connect_tcp` dials, the first one.
    unfoldable pub connect_tcp : String → ℕ → Result String (Option String)
    unfolding resolve_and_validate
    connect_tcp host port =
        and_then (resolve_and_validate host port) (λ addresses. ok (first_address addresses))
