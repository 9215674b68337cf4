-- ===== src/Downloader/Transfer.antt =====
-- internal/filetransfer/downloader.go: `downloadChunk`, one request for a range of the file. The part
-- file and the body of the response are functions from the offset in the file to the byte.
pub mod Writes
use mathlib.Core.Path.{subst}
use updater_service.Base.{
  ℕ, suc, ◌+◌, ◌-◌, ◌≤◌, ◌<◌, ℤ, pos, negsuc, sub_ℕ, pos_part, min, ◌≡◌, ◌≢◌, refl, Bool, true,
  false, ◌&&◌, not, Option, none, some, List, [], ◌∷◌, Error, unexpected_eof, status_error, wrap,
  Result, ok, err, leb, ltb, ◌==◌, nat_eq, if◌then◌else◌, arith, on_result, Option-cases,
  ℕ_discrete, eqb_ℤ, ◌⊎◌, inl, inr,
}

abbrev pub Bytes : Type 0
Bytes = ℕ → ℕ

-- How a call of `resp.Body.Read` ends.
pub data ReadEnd : Type 0 where
  more : ReadEnd
  eof : ReadEnd
  broken : Error → ReadEnd

-- A round of the loop: how many bytes the body has ready, how the call ends, and, if the write
-- fails, after how many bytes and with which error.
pub record Read : Type 0 where
  pub count : ℕ
  pub finish : ReadEnd
  pub write_error : Option (ℕ × Error)

-- The body ends with an io.EOF after its reads.
pub record Response : Type 0 where
  pub status : ℕ
  pub content_length : ℤ  -- -1 if it is not known
  pub content : Bytes
  pub reads : List Read

abbrev pub buffer_size : ℕ
buffer_size = 1048576

-- (*os.File).WriteAt of `n` bytes
unfoldable pub write_at : Bytes → ℕ → ℕ → Bytes → Bytes
write_at content offset n file p = if leb offset p && ltb p (offset + n) then content p else file p

abbrev pub missing : Error
missing = wrap "unexpected EOF: missing bytes" unexpected_eof

-- `n`, the bytes that a round reads into `buf[:toRead]`.
abbrev pub bytes_read : Read → ℕ → ℕ
bytes_read r remaining = min r.count (min buffer_size remaining)

abbrev pub Loop : Type 0
Loop = Result (Unit {0}) × Bytes

-- The write of a round.
unfoldable pub write_round : Bytes → Read → ℕ → ℕ → Bytes → Loop
write_round content r offset n file = elim r.write_error [
  | none ↦ (ok tt, write_at content offset n file)
  | some (k, e) ↦
      if n == 0
      then (ok tt, file)
      else (err (wrap "write at offset" e), write_at content offset (min k n) file)
]

-- The rest of a round, with `left` bytes to come and the rounds that may follow.
unfoldable pub end_round : ReadEnd → ℕ → Loop → Bytes → Loop
end_round more left rest file = rest
end_round eof left rest file = if left == 0 then (ok tt, file) else (err missing, file)
end_round (broken e) left rest file = (err e, file)

-- The loop over the body.
unfoldable pub read_body : Bytes → List Read → ℕ → ℕ → Bytes → Loop
read_body content [] offset remaining file =
    if remaining == 0 then (ok tt, file) else (err missing, file)
read_body content (r ∷ reads) offset remaining file =
    let n = bytes_read r remaining in
    let (written, file') = write_round content r offset n file in
    let rest = read_body content reads (offset + n) (remaining - n) file' in
    if remaining == 0
    then (ok tt, file)
    else on_result written (λ e. (err e, file'))
        (λ _. end_round r.finish (remaining - n) rest file')

-- `downloadChunk` of the bytes from `start` to `last`, given what `d.Client.Do` returns.
unfoldable pub download_chunk : Result Response → ℕ → ℕ → Bytes → Loop
download_chunk (err e) start last file = (err e, file)
download_chunk (ok r) start last file =
    let expected = sub_ℕ (last + 1) start in
    if not (r.status == 206)
    then (err (status_error r.status "expected 206 Partial Content"), file)
    else if not (eqb_ℤ r.content_length (negsuc 0)) && not (eqb_ℤ r.content_length expected)
    then (err (status_error r.status "content length mismatch"), file)
    else read_body r.content r.reads start (pos_part expected) file
