-- ===== src/Fileops/Deploy.antt =====
-- Backup, apply and rollback are atomic, and undo one another.
use updater_service.Base.{
  Option-cases, inl, inr, ◌∙◌, String, ◌<>◌, ◌≡◌, ◌≢◌, true, false, none, some, Error, ok, ◌>>=◌,
  is_error, not_exist, suffix_ne, arith, string_eq, ℕ,
}
use updater_service.Disk.{Disk, Faults, stat, mkdir_all}
use updater_service.Fileops.{is_present, backup, apply, rollback}
use updater_service.Fileops.Atomic.{install-frame, install_atomic}

-- A call fails with `os.ErrNotExist` only for a file that is missing.
pub record IsHonest (os : Faults) : Type 0 where
  pub at : (n : ℕ) (e : Error) → os.fault n ≡ some e → is_error e not_exist ≡ false

module _ (os : Faults) where
  -- Whichever calls fail, `Apply` leaves the target with the staged contents if it returns no error,
  -- and as it was if it returns one. No other path changes but its temporary file's.
  pub apply_atomic :
      (staged target : String) (d : Disk)
      → staged ≢ target <> ".new"
      → ((apply os staged target d).0 ≡ ok tt
          → ((apply os staged target d).1.files target ≡ d.files staged) × (d.files staged ≢ none))
        × ((apply os staged target d).0 ≢ ok tt
            → (apply os staged target d).1.files target ≡ d.files target)
        × ((p : String)
            → p ≢ target
            → p ≢ target <> ".new"
            → (apply os staged target d).1.files p ≡ d.files p)
  unfolding apply stat mkdir_all ◌>>=◌
  apply_atomic staged target d h =
      let s = (stat os staged d).1 in
      let m = (mkdir_all os s).1 in
      let both =
        install_atomic os "copy staged file" "replace target" staged (target <> ".new") target m h
          (suffix_ne target ".new" (omega arith)) in
      (
        λ r. ground (arith, both.0),
        λ r. ground (arith, both.1),
        λ p k l. ground (
          arith,
          install-frame os "copy staged file" "replace target" staged (target <> ".new") target m p
              l k,
        ),
      )

  -- The same of `Rollback`, which copies the backup over the target.
  pub rollback_atomic :
      (saved target : String) (d : Disk)
      → saved ≢ target <> ".rollback"
      → ((rollback os saved target d).0 ≡ ok tt
          → ((rollback os saved target d).1.files target ≡ d.files saved) × (d.files saved ≢ none))
        × ((rollback os saved target d).0 ≢ ok tt
            → (rollback os saved target d).1.files target ≡ d.files target)
        × ((p : String)
            → p ≢ target
            → p ≢ target <> ".rollback"
            → (rollback os saved target d).1.files p ≡ d.files p)
  unfolding rollback stat mkdir_all ◌>>=◌
  rollback_atomic saved target d h =
      let m = (mkdir_all os (stat os saved d).1).1 in
      let temp = target <> ".rollback" in
      let both =
        install_atomic os "restore backup" "finalize rollback" saved temp target m h
          (suffix_ne target ".rollback" (omega arith)) in
      (
        λ r. ground (arith, both.0),
        λ r. ground (arith, both.1),
        λ p k l. ground (
          arith,
          install-frame os "restore backup" "finalize rollback" saved temp target m p l k,
        ),
      )

  absent :
      (target : String) (d : Disk)
      → IsHonest os
      → (is_present os target d).0 ≡ ok false
      → d.files target ≡ none
  unfolding is_present stat
  absent target d honest r = elim (Option-cases (os.fault d.calls)) [
    | inl fine ↦ ground (arith, fine)
    | inr (e, failed) ↦ absurd (ground (arith, failed, honest.at d.calls e failed))
  ]

  -- If no failing call reports a missing file, and the target is not the backup's temporary file: when
  -- `Backup` answers true, there was a target, and the backup holds what it held; when it answers
  -- false, there was no target. Unless it answers true, the backup's path is as it was. No path changes
  -- but the backup's and its temporary file's.
  pub backup_atomic :
      (target saved : String) (d : Disk)
      → IsHonest os
      → target ≢ saved <> ".tmp"
      → ((backup os target saved d).0 ≡ ok true
          → ((backup os target saved d).1.files saved ≡ d.files target) × (d.files target ≢ none))
        × ((backup os target saved d).0 ≡ ok false → d.files target ≡ none)
        × ((backup os target saved d).0 ≢ ok true
            → (backup os target saved d).1.files saved ≡ d.files saved)
        × ((p : String)
            → p ≢ saved
            → p ≢ saved <> ".tmp"
            → (backup os target saved d).1.files p ≡ d.files p)
  unfolding backup is_present stat mkdir_all ◌>>=◌
  backup_atomic target saved d honest h =
      let m = (mkdir_all os d).1 in
      let s = (is_present os target m).1 in
      let temp = saved <> ".tmp" in
      let both =
        install_atomic os "create backup" "finalize backup" target temp saved s h
          (suffix_ne saved ".tmp" (omega arith)) in
      (
        λ r. ground (arith, both.0),
        λ r. ground (arith, absent target m honest),
        λ r. ground (arith, both.1),
        λ p k l.
            ground
              (arith, install-frame os "create backup" "finalize backup" target temp saved s p l k),
      )

-- After a backup that answers true and an attempt to apply a staged file, failed or not, a rollback
-- that returns no error gives the target back what it held before the backup.
pub rollback_undoes :
    (os : Faults) (target saved staged : String) (d : Disk)
    → IsHonest os
    → target ≢ saved <> ".tmp"
    → saved ≢ target
    → saved ≢ target <> ".new"
    → saved ≢ target <> ".rollback"
    → staged ≢ target <> ".new"
    → (backup os target saved d).0 ≡ ok true
    → (rollback os saved target (apply os staged target (backup os target saved d).1).1).0 ≡ ok tt
    → (rollback os saved target (apply os staged target (backup os target saved d).1).1).1.files
        target
      ≡ d.files target
rollback_undoes os target saved staged d honest h1 h2 h3 h4 h5 kept restored =
    let b = (backup os target saved d).1 in
    let a = (apply os staged target b).1 in
    ((rollback_atomic os saved target a h4).0 restored).0
    ∙ (apply_atomic os staged target b h5).2 saved h2 h3
    ∙ ((backup_atomic os target saved d honest h1).0 kept).0
