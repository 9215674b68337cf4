-- ===== src/Downloader/Retrying/Attempts.antt =====
-- How many requests a chunk takes, when they succeed, and what they write.
use updater_service.Base.{
  ℕ, zero, suc, ◌+◌, ◌-◌, ◌≤◌, ◌<◌, ◌≢◌, ◌⊎◌, ℤ, pos, negsuc, Bool, true, false, Error, ok, err,
  not, arith, ◌≡◌, ◌↔◌, refl, Result-cases, inl, inr, if◌then◌else◌, wrap,
}
use updater_service.Downloader.{is_retryable_error}
use updater_service.Downloader.Transfer.{Bytes, Response, Loop, download_chunk}
use updater_service.Downloader.Transfer.Writes.{Wrote, failed-Wrote, download_chunk-Wrote}
use updater_service.Downloader.Retrying.{
  Line, Tried, counted, end_attempt, try_chunk, download_chunk_with_retry,
}

module _ (line : Line) (start last : ℕ) where
  -- The request `n` after the one numbered `from` is the first to bring the whole chunk; those before
  -- it fail with errors that are tried again, and the context lasts.
  abbrev pub ArrivesAt : ℕ → Bytes → ℕ → Type 0
  ArrivesAt from file zero =
      (line.over from ≡ false) × ((download_chunk (line.answer from) start last file).0 ≡ ok tt)
  ArrivesAt from file (suc n) =
      (line.over from ≡ false)
      × ((e : Error) × ((download_chunk (line.answer from) start last file).0 ≡ err e)
          × (is_retryable_error e ≡ true))
      × (line.expires from ≡ false)
      × ArrivesAt (from + 1) (download_chunk (line.answer from) start last file).1 n

  try_chunk_ok :
      (left from : ℕ) (file : Bytes)
      → (try_chunk line start last left from file).0.0 ≡ ok tt
      → (n : ℕ) × (n ≤ left) × ArrivesAt from file n
  unfolding try_chunk end_attempt
  try_chunk_ok zero from file h =
      elim (Result-cases (download_chunk (line.answer from) start last file).0) [
        | inl (done, e) ↦ (0, omega arith, (ground (arith, e), ground (arith, e)))
        | inr (x, e) ↦ absurd (ground (arith, e))
      ]
  try_chunk_ok (suc left) from file h =
      let loop = download_chunk (line.answer from) start last file in
      elim (Result-cases loop.0) [
        | inl (done, e) ↦ (0, omega arith, (ground (arith, e), ground (arith, e)))
        | inr (x, e) ↦
            let (n, le, at) = try_chunk_ok left (from + 1) loop.1 (ground (arith, e)) in
            (
              suc n,
              omega arith,
              (ground (arith, e), (x, e, ground (arith, e)), ground (arith, e), at),
            )
      ]

  try_chunk_arrives :
      (left from n : ℕ) (file : Bytes)
      → n ≤ left
      → ArrivesAt from file n
      → (try_chunk line start last left from file).0.0 ≡ ok tt
  unfolding try_chunk end_attempt
  try_chunk_arrives zero from zero file h at = ground arith
  try_chunk_arrives zero from (suc n) file h at = absurd (omega arith)
  try_chunk_arrives (suc left) from zero file h at = ground arith
  try_chunk_arrives (suc left) from (suc n) file h at =
      let loop = download_chunk (line.answer from) start last file in
      let (e, failed, again) = at.1 in
      ground (
        arith,
        at.0,
        failed,
        again,
        at.2,
        try_chunk_arrives left (from + 1) n loop.1 (omega arith) at.3,
      )

  try_chunk_made :
      (left from : ℕ) (file : Bytes) → (try_chunk line start last left from file).1 ≤ left + 1
  unfolding try_chunk end_attempt
  try_chunk_made zero from file = ground arith
  try_chunk_made (suc left) from file =
      ground (
        arith,
        try_chunk_made left (from + 1) (download_chunk (line.answer from) start last file).1,
      )

  -- Whatever one request does to the bytes, the requests after it do too.
  chain-Wrote :
      (content : Bytes) (file : Bytes) (p n : ℕ) (first : Loop) (rest : Tried)
      → Wrote content start n file p first
      → Wrote content start n first.1 p rest.0
      → Wrote content start n file p (counted rest).0
  chain-Wrote content file p n first ((r, file'), made) w v = record {
    outside = ground (arith, w.outside, v.outside);
    keeps = ground (arith, w.keeps, v.keeps);
    filled = v.filled;
  }

  as_failed-Wrote :
      (content : Bytes) (file : Bytes) (p n : ℕ) (first : Loop) (e : Error)
      → Wrote content start n file p first
      → Wrote content start n file p (err e, first.1)
  as_failed-Wrote content file p n first e w = record {
    outside = w.outside;
    keeps = w.keeps;
    filled = ground arith;
  }

  if-Wrote_tried :
      (content : Bytes) (file : Bytes) (p n : ℕ) (b : Bool) (s t : Tried)
      → Wrote content start n file p s.0
      → Wrote content start n file p t.0
      → Wrote content start n file p (if b then s else t).0
  if-Wrote_tried content file p n true s t x y = x
  if-Wrote_tried content file p n false s t x y = y

  end_attempt-Wrote :
      (content : Bytes) (left attempt : ℕ) (file : Bytes) (p n : ℕ) (first : Loop) (rest : Tried)
      → Wrote content start n file p first
      → Wrote content start n first.1 p rest.0
      → Wrote content start n file p (end_attempt line start last left attempt first rest).0
  unfolding end_attempt
  end_attempt-Wrote content left attempt file p n (ok tt, file') rest w v = w
  end_attempt-Wrote content zero attempt file p n (err e, file') rest w v =
      if-Wrote_tried content file p n (not (is_retryable_error e))
        ((err (wrap "non-retryable error" e), file'), 1)
        ((err (wrap "failed after attempts" e), file'), 1)
        (as_failed-Wrote content file p n (err e, file') (wrap "non-retryable error" e) w)
        (as_failed-Wrote content file p n (err e, file') (wrap "failed after attempts" e) w)
  end_attempt-Wrote content (suc left) attempt file p n (err e, file') rest w v =
      if-Wrote_tried content file p n (not (is_retryable_error e))
        ((err (wrap "non-retryable error" e), file'), 1)
        (if line.expires attempt then ((err line.cause, file'), 1) else counted rest)
        (as_failed-Wrote content file p n (err e, file') (wrap "non-retryable error" e) w)
        (if-Wrote_tried content file p n (line.expires attempt) ((err line.cause, file'), 1)
          (counted rest) (as_failed-Wrote content file p n (err e, file') line.cause w)
          (chain-Wrote content file p n (err e, file') rest w v))

  module _ (content : Bytes) (order : start ≤ last)
      (same : (n : ℕ) (r : Response)
        → line.answer n ≡ ok r
        → r.status ≡ 206
        → r.content ≡ content) where
    try_chunk-Wrote :
        (left attempt : ℕ) (file : Bytes) (p : ℕ)
        → Wrote content start
            (last + 1 - start)
            file
            p
            (try_chunk line start last left attempt file).0
    unfolding try_chunk
    try_chunk-Wrote zero attempt file p =
        let n = last + 1 - start in
        let loop = download_chunk (line.answer attempt) start last file in
        let w =
          download_chunk-Wrote (line.answer attempt) start last file p content (same attempt)
            order in
        if-Wrote_tried content file p n (line.over attempt) ((err line.cause, file), 0)
          (end_attempt line start last zero attempt loop (loop, 0))
          (failed-Wrote content start n file p line.cause)
          (end_attempt-Wrote content zero attempt file p n loop (loop, 0) w (again-Wrote loop w))
      where
        again-Wrote :
            (loop : Loop)
            → Wrote content start (last + 1 - start) file p loop
            → Wrote content start (last + 1 - start) loop.1 p loop
        again-Wrote loop w = record { outside = λ h. refl; keeps = λ h. h; filled = w.filled }
    try_chunk-Wrote (suc left) attempt file p =
        let n = last + 1 - start in
        let loop = download_chunk (line.answer attempt) start last file in
        let w =
          download_chunk-Wrote (line.answer attempt) start last file p content (same attempt)
            order in
        let rest = try_chunk line start last left (attempt + 1) loop.1 in
        if-Wrote_tried content file p n (line.over attempt) ((err line.cause, file), 0)
          (end_attempt line start last (suc left) attempt loop rest)
          (failed-Wrote content start n file p line.cause)
          (end_attempt-Wrote content (suc left) attempt file p n loop rest w
            (try_chunk-Wrote left (attempt + 1) loop.1 p))

-- With `m` retries, a chunk arrives exactly if one of the first `m + 1` requests brings all of it,
-- those before it fail with errors that are tried again, and the context lasts till then. No more
-- than `m + 1` requests are made, and with a negative number of retries none is, and the chunk fails.
pub download_chunk_with_retry_iff :
    (line : Line) (start last m : ℕ) (file : Bytes)
    → ((download_chunk_with_retry line start last (pos m) file).0.0 ≡ ok tt
        ↔ ((n : ℕ) × (n ≤ m) × ArrivesAt line start last 0 file n))
      × ((download_chunk_with_retry line start last (pos m) file).1 ≤ m + 1)
      × ((download_chunk_with_retry line start last (negsuc m) file).0.0 ≢ ok tt)
      × ((download_chunk_with_retry line start last (negsuc m) file).1 ≡ 0)
unfolding download_chunk_with_retry
download_chunk_with_retry_iff line start last m file = (
  (
    λ h. try_chunk_ok line start last m 0 file h,
    λ (n, le, at). try_chunk_arrives line start last m 0 n file le at,
  ),
  try_chunk_made line start last m 0 file,
  ground arith,
  refl,
)

-- If every 206 brings bytes of the same content, then whatever the requests for
-- a chunk, the body's reads and the disk do, the bytes outside of the chunk stay as they were and no
-- byte that was right is lost. If the chunk is said to have arrived, its bytes are the content's.
pub download_chunk_with_retry-Wrote :
    (line : Line) (start last : ℕ) (retries : ℤ) (file content : Bytes) (p : ℕ)
    → start ≤ last
    → ((n : ℕ) (r : Response) → line.answer n ≡ ok r → r.status ≡ 206 → r.content ≡ content)
    → let loop = (download_chunk_with_retry line start last retries file).0 in
      ((p < start) ⊎ (last < p) → loop.1 p ≡ file p)
      × (file p ≡ content p → loop.1 p ≡ content p)
      × (loop.0 ≡ ok tt → start ≤ p → p ≤ last → loop.1 p ≡ content p)
unfolding download_chunk_with_retry
download_chunk_with_retry-Wrote line start last (negsuc m) file content p order same =
    (λ h. refl, λ h. h, ground arith)
download_chunk_with_retry-Wrote line start last (pos m) file content p order same =
    let w = try_chunk-Wrote line start last content order same m 0 file p in
    (
      λ h. w.outside (ground (arith, h)),
      w.keeps,
      λ done from to. w.filled done from (omega (arith, order, to)),
    )
