-- ===== src/Downloader/State.antt =====
-- internal/filetransfer/downloader.go: the saved state, `readStateFile`, `saveStateFile`,
-- `markChunkComplete` and `loadOrInitState` on the disk. encoding/json is a parameter; the time stamps
-- are part of what `encode` writes.
use updater_service.Base.{
  Result-cases, inl, inr, ◌≡◌, arith, String, ◌<>◌, ℕ, nat_eq, Option, none, some, List, length,
  text, not_exist, is_error, Result, ok, err, Act, pure, raise, lift, ignore, attempt, wrapped,
  ◌>>=◌, ◌>>◌, ◌==◌, on_result, on_option, if◌then◌else◌, ltb,
}
use updater_service.Disk.{Disk, Faults, write, syscall, create_file, close_file, remove, rename}
use updater_service.Downloader.{Chunk, init_chunks, init_state, total_size, load_or_init_state}
use updater_service.Downloader.Pool.{complete_at}
use updater_service.Downloader.Finish.{read_file}

-- json.Unmarshal and (*json.Encoder).Encode for a `DownloadState`
pub record Codec : Type 0 where
  pub decode : String → Result (List Chunk)
  pub encode : List Chunk → Result String

-- The state of a file that holds the plan of this download.
unfoldable pub resumable : ℕ → Result (Option (List Chunk)) → Option (List Chunk)
resumable expected_size (err e) = none
resumable expected_size (ok none) = none
resumable expected_size (ok (some chunks)) =
    if total_size chunks == expected_size then some chunks else none

module _ (os : Faults) (codec : Codec) where
  unfoldable pub read_state_file : String → Act Disk (Option (List Chunk))
  read_state_file path = do
    content ← attempt (read_file os path)
    on_result content (λ e. if is_error e not_exist then pure none else raise e)
        (λ json.
          wrapped "failed to parse state file"
            (lift (on_result (codec.decode json) err (λ chunks. ok (some chunks)))))

  -- A write that fails leaves any text in the file.
  unfoldable pub encode_to : String → List Chunk → Act Disk Unit
  encode_to path chunks =
      on_result (codec.encode chunks) raise
        (λ json d. syscall os (write path (some (os.torn d.calls))) (write path (some json)) d)

  unfoldable pub save_state_file : String → List Chunk → Act Disk Unit
  save_state_file path chunks = do
    create_file os (path <> ".tmp")
    written ← attempt (encode_to (path <> ".tmp") chunks)
    ignore (close_file os)
    on_result written (λ e. ignore (remove os (path <> ".tmp")) >> raise e)
        (λ _. rename os (path <> ".tmp") path)

  -- The source reads the state without a test for nil: with no file it panics, which ends the
  -- process. Here that is an error.
  unfoldable pub mark_chunk_complete : String → ℕ → Act Disk Unit
  mark_chunk_complete path i = do
    state ← read_state_file path
    on_option state (raise (text "nil pointer dereference")) (λ chunks.
        if ltb i (length chunks)
        then save_state_file path (complete_at chunks i)
        else raise (text "invalid chunk index"))

  unfoldable pub load_state : ℕ → ℕ → String → Act Disk (List Chunk)
  load_state chunk_size expected_size path = do
    found ← attempt (read_state_file path)
    on_option (resumable expected_size found)
        (do
          chunks ← lift (init_chunks chunk_size expected_size)
          wrapped "failed to save initial state" (save_state_file path chunks)
          pure chunks)
        pure

-- `load_state` answers what `load_or_init_state` says of the file that was read and of the saving.
load_state-reply :
    (os : Faults) (codec : Codec) (chunk_size expected_size : ℕ) (path : String) (d : Disk)
    → (load_state os codec chunk_size expected_size path d).0
      ≡ load_or_init_state chunk_size expected_size (read_state_file os codec path d).0 (
          on_result
            (init_chunks chunk_size expected_size)
            (λ _. none)
            (λ chunks.
              on_result
                (save_state_file os codec path chunks (read_state_file os codec path d).1).0
                some
                (λ _. none)))
unfolding load_state load_or_init_state init_state resumable ◌>>=◌ pure lift
load_state-reply os codec chunk_size expected_size path d =
    elim (Result-cases (init_chunks chunk_size expected_size)) [
      | inl (chunks, e) ↦ ground (arith, e)
      | inr (x, e) ↦ ground (arith, e)
    ]
