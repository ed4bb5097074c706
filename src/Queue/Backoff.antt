-- ===== src/Queue/Backoff.antt =====
-- How long a failed job waits, and which failures are tried again.
use semiconductor_intel.Prelude.{
  ℕ, ◌+◌, ◌-◌, ◌*◌, ◌/◌, ◌^◌, ◌≤◌, ◌<◌, min, ◌≡◌, refl, ◌⊎◌, inl, inr, Option, none, some, arith,
  Bool-cases, leb,
}
use semiconductor_intel.Queue.Rows.{retry_wait, seconds}
use semiconductor_intel.Queue.Retry.{
  ErrorClass, transient, parser_error, schema_output, validation_failed, access_blocked,
  scope_violation, cancellation, unclassified, jittered_backoff, classify_failure,
  transient_backoff_base, transient_backoff_cap,
}
use native.Mathlib.Nat.{one-le-pow, mul-le-mul_left}

-- The delay before its jitter.
abbrev pub raw_backoff : ℕ → ℕ
raw_backoff attempt = min (transient_backoff_base * 2 ^ (attempt - 1)) transient_backoff_cap

stretched : (raw k : ℕ) → raw ≤ (raw * (2 ^ 53 + k) + 2 ^ 52) / 2 ^ 53
stretched raw k = omega arith

doubled : (raw k : ℕ) → k < 2 ^ 53 → (raw * (2 ^ 53 + k) + 2 ^ 52) / 2 ^ 53 ≤ 2 * raw
doubled raw k h = grind (arith, mul-le-mul_left {m = k} {n = 2 ^ 53} raw)

-- For a draw k below 2 ^ 53, the jittered delay is between the delay without jitter and its double;
-- it is at least 30 seconds and at most 30 minutes.
pub jittered_backoff-bounds :
    (attempt k : ℕ)
    → k < 2 ^ 53
    → (raw_backoff attempt ≤ jittered_backoff attempt k)
      × (jittered_backoff attempt k ≤ 2 * raw_backoff attempt)
      × (seconds 30 ≤ jittered_backoff attempt k)
      × (jittered_backoff attempt k ≤ seconds 1800)
unfolding jittered_backoff
jittered_backoff-bounds attempt k h =
    let raw = raw_backoff attempt in
    let low = stretched raw k in
    let high = doubled raw k h in
    let power = one-le-pow (attempt - 1) 2 (omega arith) in
    (omega (arith, low), omega (arith, high), omega (arith, low, power), omega arith)

-- A failure is tried again only if it is transient before the fifth try or a parser error before the
-- second; the decision then has a delay, and unless the source asked for one, it is between 30 seconds
-- and 30 minutes for every draw k below 2 ^ 53.
pub classify_failure-retries :
    (c : ErrorClass) (attempt : ℕ) (retry_after : Option ℕ) (k : ℕ)
    → k < 2 ^ 53
    → (classify_failure c attempt retry_after k).next_state ≡ some retry_wait
    → (((c ≡ transient) × (attempt < 5)) ⊎ ((c ≡ parser_error) × (attempt < 2)))
      × (delay : ℕ) × ((classify_failure c attempt retry_after k).delay ≡ some delay)
      × (retry_after ≡ none → (seconds 30 ≤ delay) × (delay ≤ seconds 1800))
unfolding classify_failure
classify_failure-retries transient attempt none k h retried =
    let (_, _, low, high) = jittered_backoff-bounds attempt k h in
    elim (Bool-cases (leb 5 attempt)) [
      | inl last ↦ absurd (ground (arith, last))
      | inr more ↦ (
        inl (refl, ground (arith, more)),
        jittered_backoff attempt k,
        ground (arith, more),
        λ _. (low, high),
      )
    ]
classify_failure-retries transient attempt (some after) k h retried =
    elim (Bool-cases (leb 5 attempt)) [
      | inl last ↦ absurd (ground (arith, last))
      | inr more ↦ (inl (refl, ground (arith, more)), after, ground (arith, more), λ e. cc)
    ]
classify_failure-retries parser_error attempt retry_after k h retried =
    elim (Bool-cases (leb 2 attempt)) [
      | inl last ↦ absurd (ground (arith, last))
      | inr more ↦ (
        inr (refl, ground (arith, more)),
        seconds 30,
        ground (arith, more),
        λ _. (omega arith, omega arith),
      )
    ]
classify_failure-retries schema_output attempt retry_after k h retried = cc
classify_failure-retries validation_failed attempt retry_after k h retried = cc
classify_failure-retries access_blocked attempt retry_after k h retried = cc
classify_failure-retries scope_violation attempt retry_after k h retried = cc
classify_failure-retries cancellation attempt retry_after k h retried = cc
classify_failure-retries (unclassified name) attempt retry_after k h retried = cc
