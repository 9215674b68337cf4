-- ===== src/Message.antt =====
-- internal/message and internal/subjects: what the entry and the workers send to each other.
use updater_service.Base.{ℕ, String, List}

pub record UpdateCommand : Type 0 where
  pub operation_id : String
  pub service : String
  pub node_instance : String
  pub file_url : String
  pub file_name : String
  pub file_size : ℕ
  pub file_sha256 : String

pub record UpdateResult : Type 0 where
  pub operation_id : String
  pub status : String
  pub error : String

pub record NodeRegister : Type 0 where
  pub node_id : String
  pub instance_id : String
  pub address : String
  pub version : String
  pub capabilities : List String
  pub started_at : String

pub record NodeHeartbeat : Type 0 where
  pub node_id : String
  pub instance_id : String

pub record NodeGoodbye : Type 0 where
  pub node_id : String
  pub instance_id : String

abbrev pub command_prefix : String
command_prefix = "update.command."

abbrev pub result_subject : String
result_subject = "update.result"

abbrev pub register_subject : String
register_subject = "node.register"

abbrev pub heartbeat_subject : String
heartbeat_subject = "node.heartbeat"

abbrev pub goodbye_subject : String
goodbye_subject = "node.goodbye"
