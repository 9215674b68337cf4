-- ===== src/Operation.antt =====
-- internal/operation/operation.go and file_metadata.go: the life of an update operation.
pub mod Repository
pub mod Files
pub mod Monitor
pub mod Progress
pub mod History
pub mod Delivery
pub mod Terminal
pub mod Timeout
pub mod Lookup
use updater_service.Base.{ℕ, String, Bool, true, false, ◌==◌, Eq, string_eq, string_dec}
use updater_service.Base.{if◌then◌else◌}

-- An instant, counted from the epoch.
abbrev pub Time : Type 0
Time = ℕ

-- `type Status string`: the constants, and any other text.
pub data Status : Type 0 where
  pending dispatched transferred running backup_created applying health_checking : Status
  succeeded failed rolling_back rollback_health_checking rolled_back rollback_failed : Status
  other : String → Status

unfoldable pub Status-discrete : Discrete Status
Status-discrete = hlevel string_dec

instance abbrev pub status_eq : Eq Status
status_eq = record { dec = Status-discrete }

-- `string(s)`
unfoldable pub status_text : Status → String
status_text pending = "PENDING"
status_text dispatched = "DISPATCHED"
status_text transferred = "TRANSFERRED"
status_text running = "RUNNING"
status_text backup_created = "BACKUP_CREATED"
status_text applying = "APPLYING"
status_text health_checking = "HEALTH_CHECKING"
status_text succeeded = "SUCCEEDED"
status_text failed = "FAILED"
status_text rolling_back = "ROLLING_BACK"
status_text rollback_health_checking = "ROLLBACK_HEALTH_CHECKING"
status_text rolled_back = "ROLLED_BACK"
status_text rollback_failed = "ROLLBACK_FAILED"
status_text (other s) = s

-- `Status(s)`
unfoldable pub parse_status : String → Status
parse_status s =
    if s == "PENDING"
    then pending
    else if s == "DISPATCHED"
    then dispatched
    else if s == "TRANSFERRED"
    then transferred
    else if s == "RUNNING"
    then running
    else if s == "BACKUP_CREATED"
    then backup_created
    else if s == "APPLYING"
    then applying
    else if s == "HEALTH_CHECKING"
    then health_checking
    else if s == "SUCCEEDED"
    then succeeded
    else if s == "FAILED"
    then failed
    else if s == "ROLLING_BACK"
    then rolling_back
    else if s == "ROLLBACK_HEALTH_CHECKING"
    then rollback_health_checking
    else if s == "ROLLED_BACK"
    then rolled_back
    else if s == "ROLLBACK_FAILED"
    then rollback_failed
    else other s

unfoldable pub is_terminal : Status → Bool
is_terminal succeeded = true
is_terminal failed = true
is_terminal rolled_back = true
is_terminal rollback_failed = true
is_terminal _ = false

pub record Operation : Type 0 where
  pub id : String
  pub status : Status
  pub service : String
  pub node_id : String
  pub created_at : Time
  pub updated_at : Time

pub record FileMetadata : Type 0 where
  pub operation_id : String
  pub file_name : String
  pub file_path : String
  pub file_size : ℕ
  pub sha256 : String
  pub created_at : Time
  pub status : String
