-- ===== src/Downloader/Whole.antt =====
-- internal/filetransfer/downloader.go: `Download`, from the destination's directory to the final check.
-- What the workers do to the disk is a sequence of events, whatever their interleaving; which bytes of
-- which chunks they write is in Downloader.Pool. Downloader.Untouched has the lemmas.
use updater_service.Base.{
  String, ◌<>◌, ℕ, some, List, [], ◌∷◌, Error, ok, err, Act, pure, raise, lift, attempt, wrapped,
  ◌>>=◌, ◌>>◌, on_result, on_option, wrap,
}
use updater_service.Disk.{Disk, Faults, write, mkdir_all, syscall}
use updater_service.Downloader.Finish.{finish_download}
use updater_service.Downloader.State.{Codec, mark_chunk_complete, load_state}

-- What a worker does to the disk, and how a chunk fails.
pub data Event : Type 0 where
  wrote : String → Event  -- WriteAt: the part file's text after it
  marked : ℕ → Event  -- markChunkComplete
  failed : Error → Event  -- downloadChunkWithRetry returns an error, or the context ends

-- A size, the events of a download, and (*os.File).Truncate on a text.
pub record Transfer : Type 0 where
  pub chunk_size : ℕ
  pub resize : ℕ → String → String
  pub events : List Event

module _ (os : Faults) where
  -- os.OpenFile with O_CREATE and without O_TRUNC
  unfoldable pub open_part : String → Act Disk Unit
  open_part path =
      syscall os (λ d. d) (λ d. write path (some (on_option (d.files path) "" (λ found. found))) d)

  unfoldable pub truncate : (ℕ → String → String) → String → ℕ → Act Disk Unit
  truncate resize path size =
      syscall os (λ d. d)
        (λ d. write path (some (resize size (on_option (d.files path) "" (λ found. found)))) d)

module _ (os : Faults) (codec : Codec) where
  unfoldable pub happen : String → Event → Act Disk Unit
  happen dest (wrote content) d = (ok tt, write (dest <> ".part") (some content) d)
  happen dest (marked i) d =
      (wrapped "failed to mark chunk complete"
          (mark_chunk_complete os codec (dest <> ".state.json") i))
        d
  happen dest (failed e) d = (raise (wrap "worker failed chunk" e)) d

  -- The workers go on after the error of one of them; the first error that was sent is returned.
  unfoldable pub happen_all : String → List Event → Act Disk Unit
  happen_all dest [] = pure tt
  happen_all dest (event ∷ events) = do
    first ← attempt (happen dest event)
    others ← attempt (happen_all dest events)
    lift (on_result first err (λ _. others))

  unfoldable pub download : (String → String) → Transfer → String → ℕ → String → Act Disk Unit
  download sha256 transfer dest expected_size expected = do
    wrapped "failed to create destination directory" (mkdir_all os)
    _ ←
        wrapped "failed to initialize download state"
          (load_state os codec transfer.chunk_size expected_size (dest <> ".state.json"))
    wrapped "failed to open part file" (open_part os (dest <> ".part"))
    wrapped "failed to pre-allocate file"
        (truncate os transfer.resize (dest <> ".part") expected_size)
    happen_all dest transfer.events
    finish_download os sha256 dest expected
