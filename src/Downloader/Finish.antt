-- ===== src/Downloader/Finish.antt =====
-- internal/filetransfer/downloader.go: `verifyAndFinalize`, with internal/hash/hash.go. crypto/sha256 and
-- the hexadecimal text of its sum are a parameter.
use updater_service.Base.{
  String, ◌<>◌, none, some, Error, text, not_exist, ok, err, Act, pure, raise, ignore, wrapped,
  ◌>>=◌, ◌>>◌, ◌==◌, ◌≡◌, ◌≢◌, ◌&&◌, not, string_eq, if◌then◌else◌, on_option, on_result, arith,
  suffix_ne, suffixes_ne, Option-cases, inl, inr, Result-cases, sym, ◌⊎◌,
}
use updater_service.Disk.{Disk, Faults, syscall, stat, remove, rename}

module _ (os : Faults) where
  -- The contents of an open file, which os.ReadFile or io.CopyBuffer reads.
  unfoldable pub read_file : String → Act Disk String
  read_file path d =
      let (r, d') = syscall os (λ x. x) (λ x. x) d in
      (on_result r err (λ _. on_option (d.files path) (err not_exist) ok), d')

module _ (os : Faults) (sha256 : String → String) where
  unfoldable pub hash_file : String → Act Disk String
  hash_file path = do stat os path; content ← read_file os path; pure (sha256 content)

  unfoldable pub verify_and_finalize : String → String → String → String → Act Disk Unit
  verify_and_finalize part dest state expected = do
    ignore (stat os part)
    sum ← wrapped "failed to calculate SHA256" (hash_file part)
    if not (expected == "") && not (sum == expected)
        then (do
          ignore (remove os state)
          ignore (remove os part)
          raise (text "SHA256 verification failed"))
        else (do
          ignore (remove os state)
          wrapped "failed to rename part file" (rename os part dest))

  -- The end of `Download`, with the paths that it makes.
  unfoldable pub finish_download : String → String → Act Disk Unit
  finish_download dest expected =
      wrapped "final verification failed"
        (verify_and_finalize (dest <> ".part") dest (dest <> ".state.json") expected)

  remove-frame : (path p : String) (d : Disk) → p ≢ path → (remove os path d).1.files p ≡ d.files p
  unfolding remove stat syscall ◌>>=◌
  remove-frame path p d h = ground arith

  rename_replaces :
      (old new : String) (d : Disk)
      → old ≢ new
      → ((rename os old new d).0 ≡ ok tt
          → ((rename os old new d).1.files new ≡ d.files old)
            × ((rename os old new d).1.files old ≡ none))
        × ((rename os old new d).0 ≢ ok tt → (rename os old new d).1.files new ≡ d.files new)
  unfolding rename stat syscall
  rename_replaces old new d h = (λ r. ground arith, λ r. ground arith)

  rename-frame :
      (old new p : String) (d : Disk)
      → p ≢ old
      → p ≢ new
      → (rename os old new d).1.files p ≡ d.files p
  unfolding rename stat syscall
  rename-frame old new p d h k = ground arith

  hash_file-frame :
      (path p : String) (d : Disk) → (hash_file path (stat os path d).1).1.files p ≡ d.files p
  unfolding hash_file read_file stat syscall ◌>>=◌ pure
  hash_file-frame path p d = ground arith

  hash_file_sum :
      (path : String) (d : Disk)
      → ((e : Error) × ((hash_file path (stat os path d).1).0 ≡ err e))
        ⊎ ((content : String) × (d.files path ≡ some content)
            × ((hash_file path (stat os path d).1).0 ≡ ok (sha256 content)))
  unfolding hash_file read_file stat syscall ◌>>=◌ pure
  hash_file_sum path d = elim (Result-cases (hash_file path (stat os path d).1).0) [
    | inr failed ↦ inl failed
    | inl (sum, e) ↦ elim (Option-cases (d.files path)) [
      | inl absent ↦ absurd (ground (arith, absent, e))
      | inr (content, there) ↦ inr (content, there, ground (arith, there, e))
    ]
  ]

  -- A download that ends without an error has moved its part file to its destination, and the
  -- contents have the expected sum, if one is expected. One that ends with an error leaves the
  -- destination as it was. No path changes but the destination, the part file's and the state file's.
  pub finish_download_lem :
      (dest expected : String) (d : Disk)
      → ((finish_download dest expected d).0 ≡ ok tt
          → (content : String) × (d.files (dest <> ".part") ≡ some content)
            × ((expected ≢ "") → sha256 content ≡ expected)
            × ((finish_download dest expected d).1.files dest ≡ some content)
            × ((finish_download dest expected d).1.files (dest <> ".part") ≡ none))
        × ((finish_download dest expected d).0 ≢ ok tt
            → (finish_download dest expected d).1.files dest ≡ d.files dest)
        × ((p : String)
            → p ≢ dest
            → p ≢ dest <> ".part"
            → p ≢ dest <> ".state.json"
            → (finish_download dest expected d).1.files p ≡ d.files p)
  unfolding finish_download verify_and_finalize ◌>>=◌ raise
  finish_download_lem dest expected d =
      let part = dest <> ".part" in
      let state = dest <> ".state.json" in
      let hashed = (hash_file part (stat os part d).1).1 in
      let a = (remove os state hashed).1 in
      let apart = suffixes_ne dest ".part" ".state.json" (omega arith) in
      let to_part = suffix_ne dest ".part" (omega arith) in
      let to_state = suffix_ne dest ".state.json" (omega arith) in
      let renamed = rename_replaces part dest a to_part in
      let kept_part = remove-frame state part hashed apart in
      let kept_dest = remove-frame state dest hashed (λ e. to_state (sym e)) in
      let kept = remove-frame part dest a (λ e. to_part (sym e)) in
      elim (hash_file_sum part d) [
        | inl (e, failed) ↦ (
          (λ r. absurd (ground (arith, failed, r))),
          ground (arith, failed, hash_file-frame part dest d),
          λ p h k l. ground (arith, failed, hash_file-frame part p d),
        )
        | inr (content, there, sum) ↦ (
          λ r. (
            content,
            there,
            ground (arith, sum, r),
            ground (arith, sum, r, renamed.0, kept_part, there, hash_file-frame part part d),
            ground (arith, sum, r, renamed.0),
          ),
          λ r. ground (arith, sum, r, renamed.1, kept_dest, kept, hash_file-frame part dest d),
          λ p h k l. ground (
            arith,
            sum,
            hash_file-frame part p d,
            remove-frame state p hashed l,
            remove-frame part p a k,
            rename-frame part dest p a k h,
          ),
        )
      ]
