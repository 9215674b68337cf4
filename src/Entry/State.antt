-- ===== src/Entry/State.antt =====
-- The state of the entry: the tables that all processes share and what it published.
use updater_service.Base.{ℕ, ◌+◌, String, List, ◌∷◌, Result, Outcome, call, Act}
use updater_service.Operation.{Time}
use updater_service.Operation.Repository.{Operations}
use updater_service.Operation.History.{Event, history}
use updater_service.Operation.Files.{Files}
use updater_service.Node.Repository.{Nodes, Codec}
use updater_service.Node.Registry
use updater_service.Node.Registry.{node_history}
use updater_service.Message.{UpdateCommand}

pub record World : Type 0 where
  pub ops : Operations
  pub files : Files
  pub nodes : Nodes
  pub sent : List (String × UpdateCommand)  -- the subject and the command, newest first
  pub calls : ℕ

-- How the n-th call goes, what other processes and requests do before it, and functions of the
-- standard library.
pub record Env : Type 0 where
  pub db : ℕ → Outcome
  pub others : ℕ → List Event
  pub node_events : ℕ → List Registry.Event
  pub nats : ℕ → Outcome
  pub clock : ℕ → Time
  pub codec : Codec
  pub sha256 : String → Result String  -- hash.SHA256
  pub random_id : ℕ → Result String  -- newOperationID
  pub base : String → String  -- filepath.Base
  pub trim : String → String  -- strings.TrimSpace
  pub base_url : String

module _ (env : Env) where
  -- One statement on each table, after whatever other processes did to it.
  unfoldable pub op_statement : {A : Type 0} → (Outcome → Time → Act Operations A) → Act World A
  op_statement m w =
      let (r, ops') = m (env.db w.calls) (env.clock w.calls) (history (env.others w.calls) w.ops) in
      (r, record w { ops = ops'; calls = w.calls + 1 })

  unfoldable pub file_statement : {A : Type 0} → (Operations → Outcome → Act Files A) → Act World A
  file_statement m w =
      let ops' = history (env.others w.calls) w.ops in
      let (r, files') = m ops' (env.db w.calls) w.files in
      (r, record w { ops = ops'; files = files'; calls = w.calls + 1 })

  unfoldable pub node_statement : {A : Type 0} → (Outcome → Time → Act Nodes A) → Act World A
  node_statement m w =
      let (r, nodes') =
        m (env.db w.calls) (env.clock w.calls)
          (node_history env.codec (env.node_events w.calls) w.nodes) in
      (r, record w { nodes = nodes'; calls = w.calls + 1 })

  -- `Publish` and `Flush`: a failed flush may have sent the command.
  unfoldable pub publish_command : String → UpdateCommand → Act World Unit
  publish_command subject command w =
      call (env.nats w.calls) (λ v. (tt, record v { sent = (subject, command) ∷ v.sent }))
        (record w { calls = w.calls + 1 })

  unfoldable pub now : Act World Time
  now w = (Result.ok (env.clock w.calls), w)

  unfoldable pub new_operation_id : Act World String
  new_operation_id w = (env.random_id w.calls, record w { calls = w.calls + 1 })
