-- ===== src/Worker/Running.antt =====
-- internal/worker/server.go: `Run`, which subscribes to the commands of its node, and sends heartbeats
-- until its context ends.
use updater_service.Base.{◌∷◌, ◌≡◌, arith, ok, String, ◌<>◌, List, Outcome, Act, pure, ◌>>=◌, ◌>>◌}
use updater_service.Message.{command_prefix}
use updater_service.Nats.{Connection, Subscriptions, subscribe}
use updater_service.Heartbeat.{HeartbeatManager, Published, run}

-- What the heartbeat published comes back. The ends of its first registration, of the publications of
-- each tick and of its goodbye are given; an error of theirs is only logged.
unfoldable pub run_worker :
    Connection
    → String
    → HeartbeatManager
    → Outcome
    → List (Outcome × Outcome)
    → Outcome
    → Act Subscriptions (List Published)
run_worker connection node_id heartbeat first ticks bye = do
  subscribe connection (command_prefix <> node_id)
  pure (run heartbeat first ticks bye)

pub run_worker_lem :
    (connection : Connection) (node_id : String) (heartbeat : HeartbeatManager) (first : Outcome)
    (ticks : List (Outcome × Outcome)) (bye : Outcome) (subjects : Subscriptions)
    (published : List Published)
    → (run_worker connection node_id heartbeat first ticks bye subjects).0 ≡ ok published
    → (run_worker connection node_id heartbeat first ticks bye subjects).1
      ≡ (command_prefix <> node_id) ∷ subjects
unfolding run_worker subscribe ◌>>=◌ pure
run_worker_lem connection node_id heartbeat first ticks bye subjects published h = ground (arith, h)
