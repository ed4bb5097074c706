-- ===== src/Sources/Guard/Samples.antt =====
-- The guard over two addresses, one of them private.
use semiconductor_intel.Prelude.{
  ℕ, String, ◌≡◌, ◌≢◌, ◌↔◌, refl, inl, true, false, ◌&&◌, Option, none, some, List, [], ◌∷◌, In,
  ◌==◌, nat_eq, string_eq, if◌then◌else◌,
}
use semiconductor_intel.Prelude.Exec.{ok}
use semiconductor_intel.Sources.Guard.{
  Library, absent, rejection_reasons, first_reason, reject_v4, reject_address, check_host_literal,
  validate_all, resolve_and_validate, connect_tcp,
}
use semiconductor_intel.Sources.Guard.Dial.{
  Validated, Safe, resolve_and_validate-Validated, connect_tcp-Public,
}

abbrev library : Library ℕ (Unit {0})
library = record {
  ip_address = λ host.
      if host == "10.0.0.1" then some (inl 1) else if host == "8.8.8.8" then some (inl 0) else none;
  flag4 = λ r ip. r == "private" && ip == 1;
  flag6 = λ r ip. false;
  in_shared_v4 = λ ip. false;
  ipv4_mapped = λ ip. none;
  sixtofour = λ ip. none;
  teredo = λ ip. none;
  text = λ ip. "8.8.8.8";
  labels = λ host. "feeds" ∷ "example" ∷ [];
  dns_label = λ label. true;
  is_digits = λ label. false;
  inet_aton = λ host. false;
  size = λ host. 13;
  urlsplit = λ url. record { scheme = "https"; hostname = some "feeds.example"; port = absent };
}

abbrev ports : List ℕ
ports = 80 ∷ 443 ∷ []

abbrev answers : String → List String
answers host = "8.8.8.8" ∷ []

-- What the guard unfolds to.
program : Unit {0}
unfolding connect_tcp resolve_and_validate check_host_literal validate_all reject_address reject_v4
    first_reason rejection_reasons
program = tt

name_is_none : library.ip_address "feeds.example" ≡ none
name_is_none = refl

name_is_clean : check_host_literal library "feeds.example" ≡ none
unfolding program
name_is_clean = refl

resolve_and_validate-Validated_example :
    (resolve_and_validate library ports answers "feeds.example" 443 ≡ ok ("8.8.8.8" ∷ [])) ↔ (
      (answers "feeds.example" ≢ []) × Validated library (answers "feeds.example") ("8.8.8.8" ∷ []))
resolve_and_validate-Validated_example =
    resolve_and_validate-Validated library ports answers "feeds.example" 443 ("8.8.8.8" ∷ []) refl
      name_is_none name_is_clean

dials : connect_tcp library ports answers "feeds.example" 443 ≡ ok (some "8.8.8.8")
unfolding program
dials = refl

connect_tcp-Public_example :
    In 443 ports
    × ((a : String) × (Path (Option String) (some "8.8.8.8") (some a)) × Safe library a)
connect_tcp-Public_example =
    connect_tcp-Public library ports answers "feeds.example" 443 (some "8.8.8.8") dials
