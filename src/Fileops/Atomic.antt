-- ===== src/Fileops/Atomic.antt =====
-- What the deployer's methods leave in the file system, however many calls fail.
use updater_service.Base.{ap, sym, Option, String, ◌≡◌, ◌≢◌, none, ok, ◌>>=◌, string_eq, arith}
use updater_service.Disk.{Disk, Faults, stat, create_file, copy_buffer, flush, close_file, rename}
use updater_service.Fileops.{copy_file, sync_file, install}

module _ (os : Faults) where
  pub copy_file-frame :
      (source destination p : String) (d : Disk)
      → p ≢ destination
      → (copy_file os source destination d).1.files p ≡ d.files p
  unfolding copy_file stat create_file copy_buffer flush close_file ◌>>=◌
  copy_file-frame source destination p d h = ground arith

  copy_file-copies :
      (source destination : String) (d : Disk)
      → source ≢ destination
      → (copy_file os source destination d).0 ≡ ok tt
      → ((copy_file os source destination d).1.files destination ≡ d.files source)
        × (d.files source ≢ none)
  unfolding copy_file stat create_file copy_buffer flush close_file ◌>>=◌
  copy_file-copies source destination d h r = ground arith

  sync_file-frame : (path : String) (d : Disk) → (sync_file os path d).1.files ≡ d.files
  unfolding sync_file stat flush ◌>>=◌
  sync_file-frame path d = ground arith

  rename-frame :
      (old new p : String) (d : Disk)
      → p ≢ old
      → p ≢ new
      → (rename os old new d).1.files p ≡ d.files p
  unfolding rename stat
  rename-frame old new p d h k = ground arith

  rename_replaces :
      (old new : String) (d : Disk)
      → old ≢ new
      → ((rename os old new d).0 ≡ ok tt → (rename os old new d).1.files new ≡ d.files old)
        × ((rename os old new d).0 ≢ ok tt → (rename os old new d).1.files ≡ d.files)
  unfolding rename stat
  rename_replaces old new d h = (λ r. ground arith, λ r. ground arith)

  module _ (copying renaming source temp destination : String) (d : Disk) where
    pub install-frame :
        (p : String)
        → p ≢ temp
        → p ≢ destination
        → (install os copying renaming source temp destination d).1.files p ≡ d.files p
    unfolding install ◌>>=◌
    install-frame p h k =
        let c = (copy_file os source temp d).1 in
        let s = (sync_file os temp c).1 in
        ground (
          arith,
          copy_file-frame source temp p d h,
          ap (λ (f : String → Option String). f p) (sync_file-frame temp c),
          rename-frame temp destination p s h k,
        )

    pub install_atomic :
        source ≢ temp
        → temp ≢ destination
        → ((install os copying renaming source temp destination d).0 ≡ ok tt
            → ((install os copying renaming source temp destination d).1.files destination
                ≡ d.files source)
              × (d.files source ≢ none))
          × ((install os copying renaming source temp destination d).0 ≢ ok tt
              → (install os copying renaming source temp destination d).1.files destination
                ≡ d.files destination)
    unfolding install ◌>>=◌
    install_atomic h k =
        let c = (copy_file os source temp d).1 in
        let s = (sync_file os temp c).1 in
        ground (
          arith,
          copy_file-copies source temp d h,
          copy_file-frame source temp destination d (λ e. k (sym e)),
          ap (λ (f : String → Option String). f temp) (sync_file-frame temp c),
          ap (λ (f : String → Option String). f destination) (sync_file-frame temp c),
          rename_replaces temp destination s k,
        )
