-- ===== src/Worker/Deployer.antt =====
-- cmd/worker/main.go: the worker is given the deployer of internal/fileops.
use updater_service.Base.{String, ◌<>◌, ◌≢◌}
use updater_service.Disk.{Faults}
use updater_service.Fileops.{backup, apply, rollback}
use updater_service.Fileops.Deploy.{IsHonest, backup_atomic, apply_atomic, rollback_atomic}
use updater_service.Worker.State.{FileDeployer}
use updater_service.Worker.Rollback.Silence.{IsFaithful}

abbrev pub fileops_deployer : Faults → FileDeployer
fileops_deployer os = record { backup = backup os; apply = apply os; rollback = rollback os }

-- Its laws hold whichever of its system calls fail, if its paths are different.
pub fileops-IsFaithful :
    (os : Faults) (staged target path : String)
    → IsHonest os
    → target ≢ path <> ".tmp"
    → path ≢ target
    → path ≢ target <> ".new"
    → path ≢ target <> ".rollback"
    → staged ≢ target <> ".new"
    → IsFaithful (fileops_deployer os) staged target path
fileops-IsFaithful os staged target path honest temp other new old fresh = record {
  saves = λ d kept. ((backup_atomic os target path d honest temp).0 kept).0;
  spares_backup = λ d. (apply_atomic os staged target d fresh).2 path other new;
  restores = λ d fine. ((rollback_atomic os path target d old).0 fine).0;
}
