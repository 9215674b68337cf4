-- ===== src/Tests/Files.antt =====
-- internal/fileops: a deployment on a disk where some calls fail.
use updater_service.Base.{
  ne_of_beq, wrap, String, ◌<>◌, ◌≡◌, ◌≢◌, refl, none, some, true, false, text, ok, err, is_error,
  arith, ◌==◌, string_eq, nat_eq, string_dec, ℕ_discrete, if◌then◌else◌, ◌>>=◌,
}
use updater_service.Disk.{
  Disk, Faults, stat, mkdir_all, create_file, copy_buffer, flush, close_file, rename,
}
use updater_service.Fileops.{copy_file, sync_file, is_present, install, backup, apply, rollback}
use updater_service.Fileops.Deploy.{IsHonest, apply_atomic, backup_atomic, rollback_undoes}

abbrev target : String
target = "/srv/config.yaml"

abbrev staged : String
staged = "/staging/config.yaml"

abbrev saved : String
saved = "/backups/config.yaml"

abbrev disk : Disk
disk = record {
  files = λ p. if p == target then some "old" else if p == staged then some "new" else none;
  calls = 0;
}

-- Every call succeeds but the copy while the update is applied.
abbrev torn_copy : Faults
torn_copy = record {
  fault = λ n. if n == 14 then some (text "no space left on device") else none;
  torn = λ n. "ne";
}

torn_copy-IsHonest : IsHonest torn_copy
unfolding is_error
torn_copy-IsHonest = record { at = λ n e h. ground arith }

target-saved : target ≢ saved <> ".tmp"
unfolding string_dec
target-saved = ne_of_beq target (saved <> ".tmp") refl

saved-target : saved ≢ target
unfolding string_dec
saved-target = ne_of_beq saved target refl

saved-new : saved ≢ target <> ".new"
unfolding string_dec
saved-new = ne_of_beq saved (target <> ".new") refl

saved-rollback : saved ≢ target <> ".rollback"
unfolding string_dec
saved-rollback = ne_of_beq saved (target <> ".rollback") refl

staged-new : staged ≢ target <> ".new"
unfolding string_dec
staged-new = ne_of_beq staged (target <> ".new") refl

abbrev d1 : Disk
d1 = (backup torn_copy target saved disk).1

abbrev d2 : Disk
d2 = (apply torn_copy staged target d1).1

backed_up : (backup torn_copy target saved disk).0 ≡ ok true
unfolding backup copy_file sync_file is_present stat mkdir_all create_file copy_buffer flush
    close_file rename install string_dec ℕ_discrete ◌>>=◌
backed_up = refl

torn :
    (apply torn_copy staged target d1).0
    ≡ err (wrap "copy staged file" (text "no space left on device"))
unfolding apply backup copy_file sync_file is_present stat mkdir_all create_file copy_buffer flush
    close_file rename install string_dec ℕ_discrete ◌>>=◌
torn = refl

restored : (rollback torn_copy saved target d2).0 ≡ ok tt
unfolding rollback apply backup copy_file sync_file is_present stat mkdir_all create_file
    copy_buffer flush close_file rename install string_dec ℕ_discrete ◌>>=◌
restored = refl

apply_atomic_example :
    ((apply torn_copy staged target d1).0 ≡ ok tt
      → ((apply torn_copy staged target d1).1.files target ≡ d1.files staged)
        × (d1.files staged ≢ none))
    × ((apply torn_copy staged target d1).0 ≢ ok tt
        → (apply torn_copy staged target d1).1.files target ≡ d1.files target)
    × ((p : String)
        → p ≢ target
        → p ≢ target <> ".new"
        → (apply torn_copy staged target d1).1.files p ≡ d1.files p)
apply_atomic_example = apply_atomic torn_copy staged target d1 staged-new

backup_atomic_example :
    ((backup torn_copy target saved disk).0 ≡ ok true
      → ((backup torn_copy target saved disk).1.files saved ≡ disk.files target)
        × (disk.files target ≢ none))
    × ((backup torn_copy target saved disk).0 ≡ ok false → disk.files target ≡ none)
    × ((backup torn_copy target saved disk).0 ≢ ok true
        → (backup torn_copy target saved disk).1.files saved ≡ disk.files saved)
    × ((p : String)
        → p ≢ saved
        → p ≢ saved <> ".tmp"
        → (backup torn_copy target saved disk).1.files p ≡ disk.files p)
backup_atomic_example = backup_atomic torn_copy target saved disk torn_copy-IsHonest target-saved

rollback_undoes_example :
    (rollback torn_copy saved target
        (apply torn_copy staged target (backup torn_copy target saved disk).1).1).1.files
      target
    ≡ disk.files target
rollback_undoes_example =
    rollback_undoes torn_copy target saved staged disk torn_copy-IsHonest target-saved saved-target
      saved-new saved-rollback staged-new backed_up restored
