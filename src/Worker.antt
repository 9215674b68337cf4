-- ===== src/Worker.antt =====
-- internal/worker/handler.go: the handler of update commands. Each function is an action on the
-- `World`; a `return` after a failure that is only logged ends the action.
pub mod Claimed
pub mod State
pub mod Parts
pub mod Said
pub mod Progress
pub mod Rollback
pub mod Deployer
pub mod Running
use updater_service.Base.{
  wrapped, ℕ, String, ◌<>◌, Bool, true, false, not, ◌&&◌, Option, none, some, List, [], ◌∷◌, Error,
  text, error_text, Result, ok, err, Act, pure, raise, lift, ignore, attempt, on_option, on_result,
  ◌>>=◌, ◌>>◌, ◌==◌, string_eq, if◌then◌else◌,
}
use updater_service.Operation.{
  Time, Status, running, transferred, backup_created, applying, health_checking, succeeded, failed,
  rolling_back, rollback_health_checking, rolled_back, rollback_failed,
}
use updater_service.Message.{UpdateCommand}
use updater_service.Services.{ServiceDefinition}
use State.{
  World, Env, FileDeployer, on_disk, publish_result, restart, wait_until_healthy, advance_status,
  claim,
}

module _ (env : Env) where
  -- if !s.advanceStatus(…) { return … }
  unfoldable pub require : String → Status → Error → Act World Unit
  require id status e = do done ← advance_status env id status; if done then pure tt else raise e

  -- The path of a backup that is made at a given time.
  unfoldable pub backup_path : UpdateCommand → ServiceDefinition → Time → String
  backup_path command service now = env.join (
      env.storage_root
      ∷ "backups"
      ∷ command.service
      ∷ (env.format now <> "." <> env.base service.config_path)
      ∷ [])

  unfoldable pub backup_path_of : UpdateCommand → ServiceDefinition → Act World String
  backup_path_of command service w = (ok (backup_path command service (env.clock w.calls)), w)

  -- `executeUpdate` up to the backup; the result is `backupPath`, empty if there was nothing to copy.
  unfoldable pub make_backup : UpdateCommand → ServiceDefinition → Act World String
  make_backup command service = do
    path ← backup_path_of command service
    require command.operation_id backup_created (text "failed to advance to BACKUP_CREATED")
    created ← wrapped "backup failed" (on_disk (env.deployer.backup service.config_path path))
    pure (if created then path else "")

  -- The rest of it.
  unfoldable pub install_update : UpdateCommand → ServiceDefinition → String → Act World Unit
  install_update command service staged = do
    require command.operation_id applying (text "failed to advance to APPLYING")
    wrapped "apply failed" (on_disk (env.deployer.apply staged service.config_path))
    wrapped "restart failed" (restart env command.service)
    require command.operation_id health_checking (text "failed to advance to HEALTH_CHECKING")
    if service.health_url == ""
        then raise (text ("health URL not configured for service " <> command.service))
        else wrapped "new version health check failed" (wait_until_healthy env service.health_url)

  -- The backup's path and the error, which Go returns together.
  unfoldable pub execute_update : UpdateCommand → String → Act World (String × Result (Unit {0}))
  execute_update command staged =
      on_option (env.service command.service)
        (pure ("", err (text ("unknown service " <> command.service))))
        (λ service. do
          backed ← attempt (make_backup command service)
          on_result backed (λ e. pure ("", err e))
              (λ path. do
                result ← attempt (install_update command service staged)
                pure (path, result)))

  unfoldable pub mark_rollback_failed : String → String → Act World Unit
  mark_rollback_failed id reason = do
    done ← advance_status env id rollback_failed
    if done then ignore (publish_result env id rollback_failed reason) else pure tt

  -- `rollbackOperation` after the restart.
  unfoldable pub verify_rollback : UpdateCommand → ServiceDefinition → Act World Unit
  verify_rollback command service = do
    let id = command.operation_id
    advance_status env id rollback_health_checking
    ignore (publish_result env id rollback_health_checking "")
    healthy ←
        if service.health_url == ""
        then pure (err (text "health URL not configured"))
        else attempt (wait_until_healthy env service.health_url)
    on_result healthy (λ e. mark_rollback_failed id (error_text e))
        (λ _. do
          done ← advance_status env id rolled_back
          if done then ignore (publish_result env id rolled_back "") else pure tt)

  -- Its part from the restoring of the file.
  unfoldable pub restore_backup : UpdateCommand → String → Act World Unit
  restore_backup command path =
      on_option (env.service command.service)
        (mark_rollback_failed command.operation_id "service definition not found")
        (λ service. do
          restored ← attempt (on_disk (env.deployer.rollback path service.config_path))
          on_result restored (λ e. mark_rollback_failed command.operation_id (error_text e))
              (λ _. do
                restarted ← attempt (restart env command.service)
                on_result restarted (λ e. mark_rollback_failed command.operation_id (error_text e))
                    (λ _. verify_rollback command service)))

  unfoldable pub rollback_operation : UpdateCommand → String → Error → Act World Unit
  rollback_operation command path cause = do
    let id = command.operation_id
    advance_status env id failed
    ignore (publish_result env id failed (error_text cause))
    rolling ← advance_status env id rolling_back
    if rolling
        then (do ignore (publish_result env id rolling_back ""); restore_backup command path)
        else pure tt

  -- `handleExecutionFailure`, and `failOperation`, which differs only in its context.
  unfoldable pub fail_operation : String → Error → Act World Unit
  fail_operation id e = do
    done ← advance_status env id failed
    if done then ignore (publish_result env id failed (error_text e)) else pure tt

  -- `handleCommand` after the file was transferred.
  unfoldable pub deploy : UpdateCommand → String → Act World Unit
  deploy command staged = do
    update ← execute_update command staged
    on_result update.1
        (λ e.
          if update.0 == ""
          then fail_operation command.operation_id e
          else rollback_operation command update.0 e)
        (λ _. publish_result env command.operation_id succeeded "")

  unfoldable pub staging_path : UpdateCommand → String
  staging_path command = env.join (
      env.join ("./update-worker" ∷ "staging" ∷ command.operation_id ∷ []) ∷ command.file_name ∷ [])

  unfoldable pub download_file : UpdateCommand → Act World Unit
  unfolding staging_path
  download_file command w =
      on_disk
        (env.download w.calls command.file_url (staging_path command) command.file_size
          command.file_sha256)
        w

  -- `handleCommand` after the claim.
  unfoldable pub execute : UpdateCommand → Act World Unit
  execute command = do
    let id = command.operation_id
    publish_result env id running ""
    downloaded ← attempt (download_file command)
    on_result downloaded (λ e. fail_operation id e)
        (λ _. do publish_result env id transferred ""; deploy command (staging_path command))

  -- The command is for another incarnation of this node.
  unfoldable pub is_stale : UpdateCommand → Bool
  is_stale command = elim env.heartbeat [
    | none ↦ false
    | some instance_id ↦
        not (command.node_instance == "") && not (command.node_instance == instance_id)
  ]

  -- What `json.Unmarshal` makes of the message is given.
  unfoldable pub handle_command : Result UpdateCommand → Act World Unit
  handle_command (err e) = pure tt
  handle_command (ok command) =
      if is_stale command
      then pure tt
      else do claimed ← claim env command.operation_id; if claimed then execute command else pure tt
