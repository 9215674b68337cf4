-- ===== src/Fileops.antt =====
-- internal/fileops/deploy.go: backup, apply and rollback of a configuration file. The permission bits
-- are not modelled.
pub mod Atomic
pub mod Deploy
use updater_service.Base.{
  wrapped, wrapping, String, ◌<>◌, Bool, true, false, Result, ok, err, Act, pure, raise, lift,
  ◌>>=◌, ◌>>◌, is_error, not_exist, if◌then◌else◌,
}
use updater_service.Disk.{
  Disk, Faults, stat, mkdir_all, create_file, copy_buffer, flush, close_file, rename,
}

module _ (os : Faults) where
  unfoldable pub copy_file : String → String → Act Disk Unit
  copy_file source destination = do
    stat os source
    create_file os destination
    copy_buffer os source destination
    flush os
    close_file os

  unfoldable pub sync_file : String → Act Disk Unit
  sync_file path = do stat os path; flush os

  -- `os.Stat(target)` in `Backup`: a missing target is no error.
  unfoldable pub is_present : String → Act Disk Bool
  is_present target d =
      let (r, d') = stat os target d in
      elim r [
        | ok _ ↦ (ok true, d')
        | err e ↦
            (if is_error e not_exist then ok false else wrapping "stat target file" (err e), d')
      ]

  -- The three last steps of each method: fill a temporary file, and rename it.
  unfoldable pub install : String → String → String → String → String → Act Disk Unit
  install copying renaming source temp destination = do
    wrapped copying (copy_file source temp)
    sync_file temp
    wrapped renaming (rename os temp destination)

  unfoldable pub backup : String → String → Act Disk Bool
  backup target backup_path = do
    wrapped "create backup directory" (mkdir_all os)
    present ← is_present target
    if present
        then (do
          install "create backup" "finalize backup" target (backup_path <> ".tmp") backup_path
          pure true)
        else pure false

  unfoldable pub apply : String → String → Act Disk Unit
  apply staged target = do
    wrapped "staged file does not exist" (stat os staged)
    wrapped "create target directory" (mkdir_all os)
    install "copy staged file" "replace target" staged (target <> ".new") target

  unfoldable pub rollback : String → String → Act Disk Unit
  rollback backup_path target = do
    wrapped "backup does not exist" (stat os backup_path)
    wrapped "create target directory" (mkdir_all os)
    install "restore backup" "finalize rollback" backup_path (target <> ".rollback") target
