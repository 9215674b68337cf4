-- ===== src/Node.antt =====
-- internal/node/node.go: the workers that the entry knows.
pub mod Repository
pub mod Registry
pub mod Leases
pub mod Draining
pub mod Refinement
pub mod Presence
use updater_service.Base.{String, Eq, string_dec, List}
use updater_service.Operation.{Time}

-- `type Status string`: the constants, and any other text.
pub data Status : Type 0 where
  online draining offline : Status
  other : String → Status

unfoldable pub Status-discrete : Discrete Status
Status-discrete = hlevel string_dec

instance abbrev pub status_eq : Eq Status
status_eq = record { dec = Status-discrete }

pub record Node : Type 0 where
  pub id : String
  pub instance_id : String
  pub status : Status
  pub address : String
  pub version : String
  pub capabilities : List String
  pub last_seen_at : Time
  pub lease_expires_at : Time
  pub started_at : Time
  pub created_at : Time
  pub updated_at : Time
