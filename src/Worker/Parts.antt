-- ===== src/Worker/Parts.antt =====
-- What the functions of the handler keep, given what their parts keep.
use updater_service.Base.{String, Error, Result, ok, err, Preserves, preserving}
use updater_service.Operation.{
  Status, failed, rolling_back, rollback_health_checking, rolled_back, rollback_failed,
}
use updater_service.Message.{UpdateCommand}
use updater_service.Services.{ServiceDefinition}
use updater_service.Worker.State.{
  World, Env, on_disk, publish_result, restart, wait_until_healthy, advance_status, claim,
}
use updater_service.Worker.{
  require, backup_path_of, make_backup, install_update, execute_update, mark_rollback_failed,
  verify_rollback, restore_backup, rollback_operation, fail_operation, deploy, download_file,
  execute, handle_command,
}

-- `P` outlives the calls of the database, of docker and of the health check.
pub record IsCalm (env : Env) (P : World → Type 0) : Type 0 where
  pub advancing : (id : String) (s : Status) → Preserves P (advance_status env id s)
  pub restarting : (service : String) → Preserves P (restart env service)
  pub waiting : (url : String) → Preserves P (wait_until_healthy env url)

-- And those of the deployer.
pub record IsStable (env : Env) (P : World → Type 0) : Type 0 where
  pub calm : IsCalm env P
  pub backing_up : (target path : String) → Preserves P (on_disk (env.deployer.backup target path))
  pub applying : (staged target : String) → Preserves P (on_disk (env.deployer.apply staged target))
  pub undoing : (path target : String) → Preserves P (on_disk (env.deployer.rollback path target))

abbrev pub Publishes : Env → (World → Type 0) → Status → Type 0
Publishes env P s = (id e : String) → Preserves P (publish_result env id s e)

module _ (env : Env) (P : World → Type 0) (calm : IsCalm env P) where
  open calm use {advancing, restarting, waiting}

  pub require-keeps : (id : String) (s : Status) (e : Error) → Preserves P (require env id s e)
  unfolding require
  require-keeps id s e = search (preserving, advancing)

  pub fail_operation-keeps :
      Publishes env P failed → (id : String) (e : Error) → Preserves P (fail_operation env id e)
  unfolding fail_operation
  fail_operation-keeps publishing id e = search (preserving, advancing, publishing)

  pub install_update-keeps :
      (c : UpdateCommand) (d : ServiceDefinition) (staged : String)
      → Preserves P (on_disk (env.deployer.apply staged d.config_path))
      → Preserves P (install_update env c d staged)
  unfolding install_update
  install_update-keeps c d staged applying =
      search (preserving, restarting, waiting, require-keeps) depth 12

  pub mark_rollback_failed-keeps :
      Publishes env P rollback_failed
      → (id e : String) → Preserves P (mark_rollback_failed env id e)
  unfolding mark_rollback_failed
  mark_rollback_failed-keeps publishing id e = search (preserving, advancing, publishing)

  pub verify_rollback-keeps :
      Publishes env P rollback_health_checking
      → Publishes env P rolled_back
      → Publishes env P rollback_failed
      → (c : UpdateCommand) (d : ServiceDefinition) → Preserves P (verify_rollback env c d)
  unfolding verify_rollback
  verify_rollback-keeps checking done failing c d =
      let marking = mark_rollback_failed-keeps failing in
      search (preserving, advancing, waiting, checking, done) depth 14

module _ (env : Env) (P : World → Type 0) (stable : IsStable env P) where
  open stable use {calm, backing_up, applying, undoing}
  open calm use {advancing, restarting, waiting}

  backup_path_of-keeps :
      (c : UpdateCommand) (d : ServiceDefinition) → Preserves P (backup_path_of env c d)
  unfolding backup_path_of
  backup_path_of-keeps c d = record { at = λ w h. h }

  pub make_backup-keeps :
      (c : UpdateCommand) (d : ServiceDefinition) → Preserves P (make_backup env c d)
  unfolding make_backup
  make_backup-keeps c d =
      search (preserving, backing_up, require-keeps env P calm, backup_path_of-keeps) depth 10

  installing :
      (c : UpdateCommand) (d : ServiceDefinition) (staged : String)
      → Preserves P (install_update env c d staged)
  installing c d staged = install_update-keeps env P calm c d staged (applying staged d.config_path)

  pub execute_update-keeps :
      (c : UpdateCommand) (staged : String) → Preserves P (execute_update env c staged)
  unfolding execute_update
  execute_update-keeps c staged = search (preserving, make_backup-keeps, installing) depth 12

  pub restore_backup-keeps :
      Publishes env P rollback_health_checking
      → Publishes env P rolled_back
      → Publishes env P rollback_failed
      → (c : UpdateCommand) (path : String) → Preserves P (restore_backup env c path)
  unfolding restore_backup
  restore_backup-keeps checking done failing c path =
      let marking = mark_rollback_failed-keeps env P calm failing in
      let verifying = verify_rollback-keeps env P calm checking done failing in
      search (preserving, undoing, restarting) depth 14

  pub rollback_operation-keeps :
      Publishes env P failed
      → Publishes env P rolling_back
      → Publishes env P rollback_health_checking
      → Publishes env P rolled_back
      → Publishes env P rollback_failed
      → (c : UpdateCommand) (path : String) (e : Error)
      → Preserves P (rollback_operation env c path e)
  unfolding rollback_operation
  rollback_operation-keeps failure rolling checking done failing c path e =
      let restoring = restore_backup-keeps checking done failing in
      search (preserving, advancing, failure, rolling) depth 14

  pub deploy-keeps :
      ((s : Status) → Publishes env P s)
      → (c : UpdateCommand) (staged : String) → Preserves P (deploy env c staged)
  unfolding deploy
  deploy-keeps publishing c staged =
      let failing = fail_operation-keeps env P calm (publishing failed) in
      let back =
        rollback_operation-keeps (publishing failed) (publishing rolling_back)
          (publishing rollback_health_checking) (publishing rolled_back)
          (publishing rollback_failed) in
      search (preserving, publishing, execute_update-keeps) depth 14

  pub execute-keeps :
      ((s : Status) → Publishes env P s)
      → ((c : UpdateCommand) → Preserves P (download_file env c))
      → (c : UpdateCommand) → Preserves P (execute env c)
  unfolding execute
  execute-keeps publishing downloading c =
      let failing = fail_operation-keeps env P calm (publishing failed) in
      let deploying = deploy-keeps publishing in
      search (preserving, publishing, downloading) depth 14

  pub handle_command-keeps :
      ((id : String) → Preserves P (claim env id))
      → ((c : UpdateCommand) → Preserves P (download_file env c))
      → ((s : Status) → Publishes env P s)
      → (c : Result UpdateCommand) → Preserves P (handle_command env c)
  unfolding handle_command
  handle_command-keeps claiming downloading publishing (err e) = search preserving
  handle_command-keeps claiming downloading publishing (ok c) =
      let executing = execute-keeps publishing downloading in search (preserving, claiming)
