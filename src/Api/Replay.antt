-- ===== src/Api/Replay.antt =====
-- The replay of a POST by its Idempotency-Key: src/intel/api/idempotency.py over
-- src/intel/repositories/idempotency.py. The table is a dictionary by owner, route and key (its unique
-- constraint); the insert that updates on a conflict is a write to it. A hash is a text, a response
-- body is a text, and the time is an argument.
use semiconductor_intel.Prelude.{
  ℕ, ◌+◌, ◌*◌, ◌≡◌, refl, ap, ◌∙◌, String, ◌&&◌, Option, none, some, leb, nat_eq, string_eq, ◌==◌,
  if◌then◌else◌, Bool-cases, inl, inr,
}
use semiconductor_intel.Prelude.Dict.{Dict, get, put, get-put, triple_eq}
use semiconductor_intel.Queue.Rows.{seconds}

-- IDEMPOTENCY_TTL
abbrev pub idempotency_ttl : ℕ
idempotency_ttl = seconds (24 * 3600)

pub record IdempotencyRecord : Type 0 where
  pub owner_id : ℕ
  pub route : String
  pub key : String
  pub request_hash : String
  pub response_status : ℕ
  pub response_body : String
  pub expires_at : ℕ

abbrev pub Table : Type 0
Table = Dict (ℕ × String × String) IdempotencyRecord

unfoldable pub repo_get : ℕ → String → String → Table → Option IdempotencyRecord
repo_get owner route key t = get (owner, route, key) t

unfoldable pub repo_put : IdempotencyRecord → Table → Table
repo_put r t = put (r.owner_id, r.route, r.key) r t

pub record IdempotencyGuard : Type 0 where
  pub owner_id : ℕ
  pub route : String
  pub key : String
  pub body_hash : String

-- What `lookup` leaves: nothing to replay, a response to replay, or an IdempotencyConflict.
pub data Lookup : Type 0 where
  fresh conflict : Lookup
  replayed : ℕ → String → Lookup

abbrev judge : IdempotencyGuard → ℕ → Option IdempotencyRecord → Lookup
judge guard now none = fresh
judge guard now (some r) =
    if leb r.expires_at now
    then fresh
    else if r.request_hash == guard.body_hash
    then replayed r.response_status r.response_body
    else conflict

unfoldable pub lookup : IdempotencyGuard → ℕ → Table → Lookup
unfolding repo_get
lookup guard now t = judge guard now (repo_get guard.owner_id guard.route guard.key t)

unfoldable pub store : IdempotencyGuard → ℕ → ℕ → String → Table → Table
unfolding repo_put
store guard now status body t =
    repo_put
      (record {
        owner_id = guard.owner_id;
        route = guard.route;
        key = guard.key;
        request_hash = guard.body_hash;
        response_status = status;
        response_body = body;
        expires_at = now + idempotency_ttl;
      })
      t

-- After a response was stored, a request of the same owner with the same route and key is, for the
-- next 24 hours, answered by that response if its body has the same hash and refused if it has not;
-- afterwards it is handled anew. A request of another owner, route or key is answered as before.
pub lookup-store :
    (guard other : IdempotencyGuard) (now later status : ℕ) (body : String) (t : Table)
    → lookup other later (store guard now status body t) ≡ (
        if guard.owner_id == other.owner_id && guard.route == other.route && guard.key == other.key
        then (if leb (now + 86_400_000_000) later
            then fresh
            else if guard.body_hash == other.body_hash
            then replayed status body
            else conflict)
        else lookup other later t)
unfolding lookup store repo_get repo_put
lookup-store guard other now later status body t =
    let stored : IdempotencyRecord = record {
      owner_id = guard.owner_id;
      route = guard.route;
      key = guard.key;
      request_hash = guard.body_hash;
      response_status = status;
      response_body = body;
      expires_at = now + idempotency_ttl;
    } in
    ap (judge other later) (
      get-put (guard.owner_id, guard.route, guard.key) (other.owner_id, other.route, other.key)
        stored t)
    ∙ elim (Bool-cases (
        guard.owner_id == other.owner_id && guard.route == other.route && guard.key == other.key)) [
          | inl same ↦ rw same refl
          | inr differs ↦ rw differs refl
        ]
