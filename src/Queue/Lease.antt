-- ===== src/Queue/Lease.antt =====
-- src/intel/workers/leases.py. The random token is drawn by the caller and passed in.
use semiconductor_intel.Prelude.{ℕ, ◌+◌, String, Option, Bool}
use semiconductor_intel.Queue.Rows.{seconds, ahead}

abbrev pub lease_seconds : ℕ
lease_seconds = 90

abbrev pub heartbeat_seconds : ℕ
heartbeat_seconds = 30

pub record Lease : Type 0 where
  pub token : String
  pub until : ℕ
  pub heartbeat_at : ℕ

unfoldable pub new_lease : ℕ → String → ℕ → Lease
new_lease now token s = record {
  token = token;
  until = now + seconds s;
  heartbeat_at = now + seconds heartbeat_seconds;
}

unfoldable pub heartbeat_lease : Lease → ℕ → Lease
heartbeat_lease lease now = record {
  token = lease.token;
  until = now + seconds lease_seconds;
  heartbeat_at = now + seconds heartbeat_seconds;
}

unfoldable pub lease_is_current : Option ℕ → ℕ → Bool
lease_is_current until now = ahead until now
