-- ===== src/Downloader/Retrying.antt =====
-- internal/filetransfer/downloader.go: `downloadChunkWithRetry`, the requests for one chunk.
pub mod Attempts
use updater_service.Base.{
  ℕ, zero, suc, ◌+◌, ℤ, pos, negsuc, Bool, Error, text, wrap, Result, ok, err, not, if◌then◌else◌,
}
use updater_service.Downloader.{is_retryable_error}
use updater_service.Downloader.Transfer.{Bytes, Response, Loop, download_chunk}

-- What `d.Client.Do` returns in each attempt, and whether the context is over before the attempt,
-- and in the wait after it.
pub record Line : Type 0 where
  pub answer : ℕ → Result Response
  pub over : ℕ → Bool
  pub expires : ℕ → Bool
  pub cause : Error  -- ctx.Err()

-- The error returned and the part file, and how many requests were made.
abbrev pub Tried : Type 0
Tried = Loop × ℕ

-- One request more.
abbrev pub counted : Tried → Tried
counted (loop, made) = (loop, suc made)

module _ (line : Line) (start last : ℕ) where
  -- What follows the attempt that ended with `loop`, given what the attempts after it do if there
  -- is one left.
  unfoldable pub end_attempt : ℕ → ℕ → Loop → Tried → Tried
  end_attempt left attempt (ok _, file) rest = ((ok tt, file), 1)
  end_attempt left attempt (err e, file) rest =
      if not (is_retryable_error e)
      then ((err (wrap "non-retryable error" e), file), 1)
      else elim left [
        | zero ↦ ((err (wrap "failed after attempts" e), file), 1)
        | suc _ ↦ if line.expires attempt then ((err line.cause, file), 1) else counted rest
      ]

  -- The loop from the attempt on, with the attempts that are left after it.
  unfoldable pub try_chunk : ℕ → ℕ → Bytes → Tried
  try_chunk zero attempt file =
      let loop = download_chunk (line.answer attempt) start last file in
      if line.over attempt
      then ((err line.cause, file), 0)
      else end_attempt zero attempt loop (loop, 0)
  try_chunk (suc left) attempt file =
      let loop = download_chunk (line.answer attempt) start last file in
      let rest = try_chunk left (attempt + 1) loop.1 in
      if line.over attempt
      then ((err line.cause, file), 0)
      else end_attempt (suc left) attempt loop rest

  unfoldable pub download_chunk_with_retry : ℤ → Bytes → Tried
  download_chunk_with_retry (negsuc _) file = ((err (text "failed after 0 attempts"), file), 0)
  download_chunk_with_retry (pos max_retries) file = try_chunk max_retries 0 file
