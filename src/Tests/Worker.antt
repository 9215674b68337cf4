-- ===== src/Tests/Worker.antt =====
-- internal/worker: an update that is torn while it is applied, and rolled back.
use updater_service.Base.{
  select, ℕ, String, ◌<>◌, ◌≡◌, ◌≤◌, refl, Option, none, some, List, [], ◌∷◌, Bool, false, text,
  Error, ok, err, Outcome, served, arith, ◌==◌, string_eq, nat_eq, string_dec, ℕ_discrete,
  if◌then◌else◌, ne_of_beq, is_error, not_exist, error_text, Act, Result, ◌>>=◌, ◌+◌,
}
use updater_service.Operation.{Operation, Time, dispatched, running, status_text}
use updater_service.Operation.History.{history}
use updater_service.Disk.{Disk, Faults}
use updater_service.Message.{UpdateCommand}
use updater_service.Services.{ServiceDefinition}
use updater_service.Fileops.Deploy.{IsHonest}
use updater_service.Worker.State.{World, Env}
use updater_service.Worker.Deployer.{fileops_deployer, fileops-IsFaithful}
use updater_service.Worker.Rollback.Silence.{IsFaithful}
use updater_service.Worker.Rollback.{rolled_back-restored}
use updater_service.Worker.Said.{newest}
use updater_service.Worker.{is_stale, handle_command, staging_path, backup_path}

abbrev target : String
target = "/srv/config.yaml"

abbrev staged : String
staged = "/staging/config.yaml"

abbrev saved : String
saved = "/backups/config.yaml"

abbrev torn_copy : Faults
torn_copy = record {
  fault = λ n. if n == 14 then some (text "no space left on device") else none;
  torn = λ n. "ne";
}

torn_copy-IsHonest : IsHonest torn_copy
unfolding is_error
torn_copy-IsHonest = record { at = λ n e h. ground arith }

abbrev api : ServiceDefinition
api = record { container = "api"; config_path = target; health_url = "http://api/health" }

-- `filepath.Join`, for the three paths that the run asks for.
abbrev join : List String → String
join [] = ""
join (a ∷ []) = a
join (a ∷ b ∷ []) = staged
join (a ∷ b ∷ c ∷ []) = "/staging"
join (a ∷ b ∷ c ∷ d ∷ l) = saved

abbrev fetched : Disk → Disk
fetched d = record d { files = λ p. if p == staged then some "new" else d.files p }

abbrev env : Env
env = record {
  deployer = fileops_deployer torn_copy;
  download = λ n url path size sha256 d. (ok tt, fetched d);
  service = λ s. some api;
  restart = λ n s. none;
  wait_until_healthy = λ n url. none;
  db = λ n. served;
  others = λ n. [];
  nats = λ n. served;
  clock = λ n. n;
  heartbeat = some "instance";
  storage_root = "/var";
  join = join;
  base = λ p. "config.yaml";
  format = λ t. "now";
}

abbrev command : UpdateCommand
command = record {
  operation_id = "op-1";
  service = "api";
  node_instance = "instance";
  file_url = "http://entry/files/1";
  file_name = "config.yaml";
  file_size = 3;
  file_sha256 = "0";
}

abbrev world : World
world = record {
  ops =
      record {
        id = "op-1";
        status = dispatched;
        service = "api";
        node_id = "node-1";
        created_at = 0;
        updated_at = 0;
      }
      ∷ [];
  disk = record { files = λ p. if p == target then some "old" else none; calls = 0 };
  outbox = [];
  restarts = [];
  calls = 1;
}

laws :
    (now : Time)
    → IsFaithful env.deployer (staging_path env command) target (backup_path env command api now)
unfolding staging_path backup_path string_dec
laws now =
    fileops-IsFaithful torn_copy staged target saved torn_copy-IsHonest
      (ne_of_beq target (saved <> ".tmp") refl) (ne_of_beq saved target refl)
      (ne_of_beq saved (target <> ".new") refl) (ne_of_beq saved (target <> ".rollback") refl)
      (ne_of_beq staged (target <> ".new") refl)

download_elsewhere : (d : Disk) → (fetched d).files target ≡ d.files target
unfolding string_dec
download_elsewhere d = refl

said : newest (handle_command env (ok command) world).1.outbox ≡ some "ROLLED_BACK"
unfolding handle_command staging_path backup_path updater_service.Worker.is_stale
    updater_service.Worker.execute updater_service.Worker.download_file
    updater_service.Worker.deploy updater_service.Worker.execute_update
    updater_service.Worker.make_backup updater_service.Worker.backup_path_of
    updater_service.Worker.install_update updater_service.Worker.require
    updater_service.Worker.rollback_operation updater_service.Worker.restore_backup
    updater_service.Worker.verify_rollback updater_service.Worker.mark_rollback_failed
    updater_service.Worker.fail_operation updater_service.Worker.State.claim
    updater_service.Worker.State.statement updater_service.Worker.State.publish_result
    updater_service.Worker.State.on_disk updater_service.Worker.State.restart
    updater_service.Worker.State.wait_until_healthy updater_service.Worker.State.advance_status
    updater_service.Operation.Repository.claim updater_service.Operation.Repository.get
    updater_service.Operation.Repository.advance_status
    updater_service.Operation.Repository.status_rank
    updater_service.Operation.Repository.may_advance updater_service.Operation.Repository.case_rank
    updater_service.Operation.Repository.case_final updater_service.Operation.History.history
    updater_service.Operation.Status-discrete status_text string_dec ℕ_discrete ◌>>=◌
    updater_service.Base.select updater_service.Base.update updater_service.Base.affected error_text
    updater_service.Fileops.backup updater_service.Fileops.apply updater_service.Fileops.rollback
    updater_service.Fileops.install updater_service.Fileops.copy_file
    updater_service.Fileops.sync_file updater_service.Fileops.is_present updater_service.Disk.stat
    updater_service.Disk.mkdir_all updater_service.Disk.create_file updater_service.Disk.copy_buffer
    updater_service.Disk.flush updater_service.Disk.close_file updater_service.Disk.rename is_error
said = refl

rolled_back-restored_example :
    (handle_command env (ok command) world).1.disk.files target ≡ world.disk.files target
rolled_back-restored_example =
    rolled_back-restored env command api world laws refl
      (λ n url sha256 size d. download_elsewhere d) refl said

-- Another worker has claimed the operation.
abbrev taken : World
taken = record world {
  ops =
      record {
        id = "op-1";
        status = running;
        service = "api";
        node_id = "node-1";
        created_at = 0;
        updated_at = 0;
      }
      ∷ [];
}
