-- ===== src/Services/Replacing.antt =====
-- What `ReplaceConfig` leaves, however many calls fail.
use updater_service.Base.{
  String, ◌<>◌, none, ◌≡◌, ◌≢◌, ◌⊎◌, ok, ◌>>=◌, pure, string_eq, suffix_ne, arith, sym,
}
use updater_service.Disk.{Disk, Faults, stat, create_file, copy_buffer, flush, rename, syscall}
use updater_service.Services.{copy_file, sync_file, replace_config}

module _ (os : Faults) where
  copy_file-frame :
      (src dst p : String) (d : Disk) → p ≢ dst → (copy_file os src dst d).1.files p ≡ d.files p
  unfolding copy_file stat create_file copy_buffer flush ◌>>=◌
  copy_file-frame src dst p d h = ground arith

  copy_file-copies :
      (src dst : String) (d : Disk)
      → src ≢ dst
      → (copy_file os src dst d).0 ≡ ok tt
      → ((copy_file os src dst d).1.files dst ≡ d.files src) × (d.files src ≢ none)
  unfolding copy_file stat create_file copy_buffer flush ◌>>=◌
  copy_file-copies src dst d h r = ground arith

  sync_file-frame : (path p : String) (d : Disk) → (sync_file os path d).1.files p ≡ d.files p
  unfolding sync_file stat flush ◌>>=◌
  sync_file-frame path p d = ground arith

  stat-frame : (path p : String) (d : Disk) → (stat os path d).1.files p ≡ d.files p
  unfolding stat syscall
  stat-frame path p d = ground arith

  stat_missing : (path : String) (d : Disk) → (stat os path d).0 ≡ ok tt → d.files path ≢ none
  unfolding stat syscall
  stat_missing path d h = ground arith

  rename-cases :
      (old new : String) (d : Disk)
      → old ≢ new
      → (((rename os old new d).0 ≡ ok tt)
          × ((rename os old new d).1.files new ≡ d.files old)
          × ((rename os old new d).1.files old ≡ none))
        ⊎ (((rename os old new d).0 ≢ ok tt)
            × ((rename os old new d).1.files new ≡ d.files new)
            × ((rename os old new d).1.files old ≡ d.files old))
  unfolding rename stat syscall
  rename-cases old new d h = ground arith

  rename-frame :
      (old new p : String) (d : Disk)
      → p ≢ old
      → p ≢ new
      → (rename os old new d).1.files p ≡ d.files p
  unfolding rename stat syscall
  rename-frame old new p d h k = ground arith

  -- If the staged file, the target, its temporary file and the backup are different paths, then a
  -- replacement that returns no error leaves the staged contents in the target, and the target's old
  -- contents in the backup, or the backup as it was. After an error the target is as it was, or there
  -- is no target, and the backup has its old contents.
  pub replace_config_lem :
      (staged target backup : String) (d : Disk)
      → staged ≢ target <> ".new"
      → backup ≢ target
      → backup ≢ target <> ".new"
      → ((replace_config os staged target backup d).0 ≡ ok tt
          → ((replace_config os staged target backup d).1.files target ≡ d.files staged)
            × (d.files staged ≢ none)
            × (((replace_config os staged target backup d).1.files backup ≡ d.files target)
                ⊎ ((replace_config os staged target backup d).1.files backup ≡ d.files backup)))
        × ((replace_config os staged target backup d).0 ≢ ok tt
            → ((replace_config os staged target backup d).1.files target ≡ d.files target)
              ⊎ (((replace_config os staged target backup d).1.files target ≡ none)
                  × ((replace_config os staged target backup d).1.files backup ≡ d.files target)))
  unfolding replace_config ◌>>=◌ pure
  replace_config_lem staged target backup d h1 h2 h3 =
      let temp = target <> ".new" in
      let other : target ≢ temp = λ e. suffix_ne target ".new" (omega arith) (sym e) in
      let c = (copy_file os staged temp d).1 in
      let s = (sync_file os temp c).1 in
      let t = (stat os target s).1 in
      let r = (rename os target backup t).1 in
      let copied = copy_file-copies staged temp d h1 in
      let same = copy_file-frame staged temp target d other in
      let same_backup = copy_file-frame staged temp backup d h3 in
      let synced = sync_file-frame temp target c in
      let synced_temp = sync_file-frame temp temp c in
      let synced_backup = sync_file-frame temp backup c in
      let seen = stat-frame target target s in
      let seen_temp = stat-frame target temp s in
      let seen_backup = stat-frame target backup s in
      let first = rename-cases target backup t (λ e. h2 (sym e)) in
      let first_temp = rename-frame target backup temp t (λ e. other (sym e)) (λ e. h3 (sym e)) in
      let second = rename-cases temp target r (λ e. other (sym e)) in
      let second_backup = rename-frame temp target backup r h3 h2 in
      let second' = rename-cases temp target t (λ e. other (sym e)) in
      let second_backup' = rename-frame temp target backup t h3 h2 in
      (
        λ q. ground (
          arith, copied, same, same_backup, synced, synced_temp, synced_backup, seen, seen_temp,
          seen_backup, first, first_temp, second, second_backup, second', second_backup', q,
        ),
        λ q. ground (
          arith, copied, same, same_backup, synced, synced_temp, synced_backup, seen, seen_temp,
          seen_backup, first, first_temp, second, second_backup, second', second_backup', q,
        ),
      )
