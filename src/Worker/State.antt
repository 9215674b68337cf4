-- ===== src/Worker/State.antt =====
-- internal/worker/server.go: what a worker works on, and the components that it is given.
use updater_service.Base.{
  ℕ, ◌+◌, String, Bool, true, false, Option, none, some, List, ◌∷◌, Error, Result, ok, err, Outcome,
  call, Act, ◌>>=◌, pure, attempt, on_result, if◌then◌else◌, ◌==◌, nat_eq,
}
use updater_service.Operation.{Time, Status, status_text}
use updater_service.Operation.Repository
use updater_service.Operation.Repository.{Operations}
use updater_service.Operation.History.{Event, history}
use updater_service.Disk.{Disk}
use updater_service.Message.{UpdateResult}
use updater_service.Services.{ServiceDefinition}

-- The table that all processes share, the worker's disk, the results that it published and the
-- services that it restarted, both newest first, and how many calls it made.
pub record World : Type 0 where
  pub ops : Operations
  pub disk : Disk
  pub outbox : List UpdateResult
  pub restarts : List String
  pub calls : ℕ

-- The interface `FileDeployer`.
pub record FileDeployer : Type 0 where
  pub backup : String → String → Act Disk Bool
  pub apply : String → String → Act Disk Unit
  pub rollback : String → String → Act Disk Unit

-- The components of `worker.Config`, and the world outside: how the n-th call goes, and what the
-- clock shows at it.
pub record Env : Type 0 where
  pub deployer : FileDeployer
  pub download : ℕ → String → String → ℕ → String → Act Disk Unit  -- Downloader.Download
  pub service : String → Option ServiceDefinition  -- DockerRunner.Service
  pub restart : ℕ → String → Option Error  -- DockerRunner.Restart
  pub wait_until_healthy : ℕ → String → Option Error  -- HealthChecker
  pub db : ℕ → Outcome
  pub others : ℕ → List Event  -- what other processes do to the table before the n-th call
  pub nats : ℕ → Outcome
  pub clock : ℕ → Time
  pub heartbeat : Option String  -- Heartbeat.InstanceID
  pub storage_root : String
  pub join : List String → String  -- filepath.Join
  pub base : String → String  -- filepath.Base
  pub format : Time → String  -- Time.Format

abbrev pub error_result : Option Error → Result (Unit {0})
error_result none = ok tt
error_result (some e) = err e

unfoldable pub on_disk : {A : Type 0} → Act Disk A → Act World A
on_disk m w = let (r, disk') = m w.disk in (r, record w { disk = disk'; calls = w.calls + 1 })

module _ (env : Env) where
  -- One statement of the operation repository, after whatever other processes did.
  unfoldable pub statement : {A : Type 0} → (Outcome → Time → Act Operations A) → Act World A
  statement m w =
      let (r, ops') = m (env.db w.calls) (env.clock w.calls) (history (env.others w.calls) w.ops) in
      (r, record w { ops = ops'; calls = w.calls + 1 })

  -- `Publish` and `Flush` on `update.result`: a failed flush may have sent the message.
  unfoldable pub publish_result : String → Status → String → Act World Unit
  publish_result id status message w =
      call (env.nats w.calls)
        (λ v. (
          tt,
          record v {
            outbox =
                record { operation_id = id; status = status_text status; error = message }
                ∷ v.outbox;
          },
        ))
        (record w { calls = w.calls + 1 })

  unfoldable pub restart : String → Act World Unit
  restart service w = elim (env.restart w.calls service) [
    | some e ↦ (err e, record w { calls = w.calls + 1 })
    | none ↦ (ok tt, record w { restarts = service ∷ w.restarts; calls = w.calls + 1 })
  ]

  unfoldable pub wait_until_healthy : String → Act World Unit
  wait_until_healthy url w =
      (error_result (env.wait_until_healthy w.calls url), record w { calls = w.calls + 1 })

  -- `advanceStatus`: a failed statement, and a status that is refused, both give false. The update of
  -- the search index changes none of this state.
  unfoldable pub advance_status : String → Status → Act World Bool
  advance_status id status = do
    advanced ← attempt (statement (λ o now. Repository.advance_status o now id status))
    on_result advanced (λ _. pure false)
        (λ updated.
          if updated
          then (do
            found ← attempt (statement (λ o _. Repository.get o id))
            on_result found (λ _. pure false) (λ _. pure true))
          else pure false)

  -- `ClaimForExecution`: its UPDATE, and the `Get` that follows.
  unfoldable pub claim : String → Act World Bool
  claim id = do
    rows ← statement (λ o now. Repository.claim o now id)
    op ← statement (λ o _. Repository.get o id)
    pure (rows == 1)
