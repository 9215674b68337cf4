-- ===== src/Heartbeat.antt =====
-- internal/heartbeat/heartbeat.go: what a worker publishes about itself. The ticks of its timer are a
-- list that ends when its context does, and whether each publication succeeds is a parameter.
pub mod Received
pub mod Rows
pub mod Life
use updater_service.Base.{
  ℕ, ◌*◌, String, ℤ, pos, leb_ℤ, Bool, List, [], ◌∷◌, ◌++◌, Outcome, served, refused, lost,
  if◌then◌else◌,
}
use updater_service.Message.{NodeRegister, NodeHeartbeat, NodeGoodbye}

pub record HeartbeatManager : Type 0 where
  pub node_id : String
  pub instance_id : String
  pub address : String
  pub version : String
  pub capabilities : List String
  pub started_at : String  -- in time.RFC3339Nano
  pub interval : ℤ
  pub lease : ℤ

unfoldable pub new_heartbeat_manager :
    String → String → String → String → List String → String → ℤ → ℤ → HeartbeatManager
new_heartbeat_manager node_id instance_id address version capabilities now interval lease = record {
  node_id = node_id;
  instance_id = instance_id;
  address = address;
  version = version;
  capabilities = capabilities;
  started_at = now;
  interval = if leb_ℤ interval (pos 0) then pos (5 * 1000000000) else interval;
  lease = if leb_ℤ lease (pos 0) then pos (15 * 1000000000) else lease;
}

-- What is on the wire.
pub data Published : Type 0 where
  registered : NodeRegister → Published
  beat : NodeHeartbeat → Published
  left : NodeGoodbye → Published

-- `PublishAndFlush`: a message that is lost was sent, and its flush failed.
abbrev pub publish : Outcome → Published → List Published
publish served message = message ∷ []
publish (refused e) message = []
publish (lost e) message = message ∷ []

module _ (h : HeartbeatManager) where
  unfoldable pub registration : NodeRegister
  registration = record {
    node_id = h.node_id;
    instance_id = h.instance_id;
    address = h.address;
    version = h.version;
    capabilities = h.capabilities;
    started_at = h.started_at;
  }

  unfoldable pub register : Outcome → List Published
  register o = publish o (registered registration)

  unfoldable pub heartbeat : Outcome → List Published
  heartbeat o = publish o (beat (record { node_id = h.node_id; instance_id = h.instance_id }))

  unfoldable pub goodbye : Outcome → List Published
  goodbye o = publish o (left (record { node_id = h.node_id; instance_id = h.instance_id }))

  -- The loop of `Run` over the ticks that are left, each with the ends of its two publications.
  unfoldable pub tick_all : List (Outcome × Outcome) → Outcome → List Published
  tick_all [] bye = goodbye bye
  tick_all ((again, alive) ∷ ticks) bye = register again ++ (heartbeat alive ++ tick_all ticks bye)

  unfoldable pub run : Outcome → List (Outcome × Outcome) → Outcome → List Published
  run first ticks bye = register first ++ tick_all ticks bye
