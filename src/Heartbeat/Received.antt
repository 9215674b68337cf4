-- ===== src/Heartbeat/Received.antt =====
-- internal/entry/server.go and handler.go: the messages of a worker, as the entry receives them.
use updater_service.Base.{
  String, ◌≡◌, ◌≢◌, ◌⊎◌, some, List, [], ◌∷◌, Outcome, ok, string_eq, none, on_option,
}
use updater_service.Operation.{Time}
use updater_service.Node.{online, draining, offline, status_eq}
use updater_service.Node.Repository.{Nodes, NodeRow}
use updater_service.Node.Registry.{Event, registering, step}
use updater_service.Node.Refinement.{rows_of}
use updater_service.Entry.Nodes.{
  Settings, process_node_register, process_node_heartbeat, process_node_goodbye,
}
use updater_service.Heartbeat.{HeartbeatManager, Published, registered, beat, left, registration}
use updater_service.Message.{NodeHeartbeat, NodeGoodbye}

-- The entry handles a message: how its statement ends, and when the clock was read.
pub record Delivery : Type 0 where
  pub outcome : Outcome
  pub here : Time
  pub now : Time

unfoldable pub receive : Settings → Published → Delivery → Nodes → Nodes
receive settings (registered p) d rows =
    (process_node_register settings d.outcome d.now (ok p) rows).1
receive settings (beat p) d rows =
    (process_node_heartbeat settings d.outcome d.here d.now (ok p) rows).1
receive settings (left p) d rows = (process_node_goodbye settings d.outcome d.now (ok p) rows).1

-- What happens to the table: the entry handles a message, or a statement of another node, of the monitor
-- or of an administrator runs. NATS runs the handlers of the three subjects side by side, and each is
-- one statement, so that messages are handled in any order.
pub data Arrival : Type 0 where
  handled : Published → Delivery → Arrival
  elsewhere : Event → Arrival

unfoldable pub receive_all : Settings → List Arrival → Nodes → Nodes
unfolding receive
receive_all settings [] rows = rows
receive_all settings (handled message d ∷ arrivals) rows =
    receive_all settings arrivals (receive settings message d rows)
receive_all settings (elsewhere event ∷ arrivals) rows =
    receive_all settings arrivals (step settings.codec event rows)

-- The entry can read what the worker writes, and takes its ids as they are.
pub record IsReadable (settings : Settings) (h : HeartbeatManager) : Type 0 where
  pub has_id : h.node_id ≢ ""
  pub has_instance : h.instance_id ≢ ""
  pub trimmed_id : settings.trim h.node_id ≡ h.node_id
  pub trimmed_instance : settings.trim h.instance_id ≡ h.instance_id
  pub json : String
  pub encoded : settings.codec.encode h.capabilities ≡ ok json
  pub started : Time
  pub parsed : settings.parse_time h.started_at ≡ ok started

-- The node's row is of this incarnation.
abbrev pub IsMine : HeartbeatManager → Nodes → Type 0
IsMine h rows =
    on_option (rows_of rows h.node_id) none (λ r. some r.instance_id) ≡ some h.instance_id

-- No other incarnation of the node registers.
abbrev pub IsKind : HeartbeatManager → Event → Type 0
IsKind h (registering o n) = n.id ≡ h.node_id → n.instance_id ≡ h.instance_id
IsKind h _ = Unit

-- The node is offline, or draining, and its lease ended at the time.
abbrev pub IsOver : HeartbeatManager → Time → Nodes → Type 0
IsOver h now rows =
    (row : NodeRow) × (rows_of rows h.node_id ≡ some row)
    × (row.instance_id ≡ h.instance_id)
    × ((row.status ≡ offline) ⊎ (row.status ≡ draining))
    × (row.lease_expires_at ≡ now)

-- The node is online, or draining, with a lease until the time.
abbrev pub IsBack : HeartbeatManager → Time → Nodes → Type 0
IsBack h lease rows =
    (row : NodeRow) × (rows_of rows h.node_id ≡ some row)
    × ((row.status ≡ online) ⊎ (row.status ≡ draining))
    × (row.lease_expires_at ≡ lease)

abbrev pub sign : HeartbeatManager → NodeHeartbeat
sign h = record { node_id = h.node_id; instance_id = h.instance_id }

abbrev pub farewell : HeartbeatManager → NodeGoodbye
farewell h = record { node_id = h.node_id; instance_id = h.instance_id }

-- The messages that a worker publishes.
abbrev pub IsOwn : HeartbeatManager → Published → Type 0
IsOwn h message =
    (message ≡ registered (registration h))
    ⊎ (message ≡ beat (sign h))
    ⊎ (message ≡ left (farewell h))
