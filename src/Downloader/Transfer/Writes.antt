-- ===== src/Downloader/Transfer/Writes.antt =====
-- What a request for a range of the file writes, and what it leaves.
use mathlib.Core.Path.{subst}
use updater_service.Base.{
  ℕ, ◌+◌, ◌-◌, ◌≤◌, ◌<◌, negsuc, sub_ℕ, pos_part, min, ◌≡◌, refl, Bool, true, false, ◌&&◌, not,
  List, [], ◌∷◌, Error, status_error, Result, ok, err, ◌==◌, nat_eq, if◌then◌else◌, arith,
  on_result, Option-cases, eqb_ℤ, ◌⊎◌, inl, inr,
}
use updater_service.Downloader.Transfer.{
  Bytes, ReadEnd, more, eof, broken, Read, Response, bytes_read, Loop, write_at, write_round,
  end_round, read_body, download_chunk,
}

-- Writing leaves a byte as it was, or makes it the byte of the content.
pub write_at-cases :
    (content : Bytes) (offset n : ℕ) (file : Bytes) (p : ℕ)
    → ((offset ≤ p) × (p < offset + n) × (write_at content offset n file p ≡ content p))
      ⊎ (((p < offset) ⊎ (offset + n ≤ p)) × (write_at content offset n file p ≡ file p))
unfolding write_at
write_at-cases content offset n file p = ground arith

-- At each offset `p`, what a loop that may write `n` bytes from `offset` on has done.
pub record Wrote (content : Bytes) (offset n : ℕ) (file : Bytes) (p : ℕ) (loop : Loop)
    : Type 0 where
  pub outside : (p < offset) ⊎ (offset + n ≤ p) → loop.1 p ≡ file p
  pub keeps : file p ≡ content p → loop.1 p ≡ content p
  pub filled : loop.0 ≡ ok tt → offset ≤ p → p < offset + n → loop.1 p ≡ content p

pub failed-Wrote :
    (content : Bytes) (offset n : ℕ) (file : Bytes) (p : ℕ) (e : Error)
    → Wrote content offset n file p (err e, file)
failed-Wrote content offset n file p e = record {
  outside = λ h. refl;
  keeps = λ h. h;
  filled = ground arith;
}

pub write_round-Wrote :
    (content : Bytes) (r : Read) (offset n : ℕ) (file : Bytes) (p : ℕ)
    → Wrote content offset n file p (write_round content r offset n file)
unfolding write_round
write_round-Wrote content r offset n file p =
    let all = write_at-cases content offset n file p in
    elim (Option-cases r.write_error) [
      | inl fine ↦
          rw (fine, write_round)
            (record {
              outside = ground (arith, all);
              keeps = ground (arith, all);
              filled = ground (arith, all);
            })
      | inr ((k, e), bad) ↦
          let part = write_at-cases content offset (min k n) file p in
          rw (bad, write_round)
            (record {
              outside = ground (arith, part);
              keeps = ground (arith, part);
              filled = ground (arith, part);
            })
    ]

end_round-Wrote :
    (content : Bytes) (finish : ReadEnd) (offset n left : ℕ) (file file' : Bytes) (rest : Loop)
    (p : ℕ)
    → Wrote content offset n file p (ok tt, file')
    → Wrote content (offset + n) left file' p rest
    → Wrote content offset (n + left) file p (end_round finish left rest file')
unfolding end_round
end_round-Wrote content more offset n left file file' rest p w v = (record {
  outside = ground (arith, w.outside, v.outside);
  keeps = ground (arith, w.keeps, v.keeps);
  filled = ground (arith, w.filled, v.keeps, v.filled);
})
end_round-Wrote content eof offset n left file file' rest p w v = (record {
  outside = ground (arith, w.outside);
  keeps = ground (arith, w.keeps);
  filled = ground (arith, w.filled);
})
end_round-Wrote content (broken e) offset n left file file' rest p w v = (record {
  outside = ground (arith, w.outside);
  keeps = ground (arith, w.keeps);
  filled = ground arith;
})

round-Wrote :
    (content : Bytes) (finish : ReadEnd) (offset n left : ℕ) (file : Bytes) (written : Loop)
    (rest : Bytes → Loop) (p : ℕ)
    → Wrote content offset n file p written
    → ((file' : Bytes) → Wrote content (offset + n) left file' p (rest file'))
    → Wrote content offset (n + left) file p (
        on_result written.0
          (λ e. (err e, written.1))
          (λ _. end_round finish left (rest written.1) written.1))
round-Wrote content finish offset n left file (ok tt, file') rest p w v =
    end_round-Wrote content finish offset n left file file' (rest file') p w (v file')
round-Wrote content finish offset n left file (err e, file') rest p w v = (record {
  outside = ground (arith, w.outside);
  keeps = ground (arith, w.keeps);
  filled = ground arith;
})

resize-Wrote :
    (content : Bytes) (offset : ℕ) (file : Bytes) (p : ℕ) {m n : ℕ} {loop : Loop}
    → m ≡ n
    → Wrote content offset m file p loop
    → Wrote content offset n file p loop
resize-Wrote content offset file p {loop} e w = subst (λ k. Wrote content offset k file p loop) e w

if-Wrote :
    (content : Bytes) (offset n : ℕ) (file : Bytes) (p : ℕ) (b : Bool) (a c : Loop)
    → (b ≡ true → Wrote content offset n file p a)
    → (b ≡ false → Wrote content offset n file p c)
    → Wrote content offset n file p (if b then a else c)
if-Wrote content offset n file p true a c f g = f refl
if-Wrote content offset n file p false a c f g = g refl

-- Whatever the body and the disk do, the loop writes only bytes of the body, at their offsets, and
-- when it returns no error it has written all of them.
pub read_body-Wrote :
    (content : Bytes) (reads : List Read) (offset remaining : ℕ) (file : Bytes) (p : ℕ)
    → Wrote content offset remaining file p (read_body content reads offset remaining file)
unfolding read_body
read_body-Wrote content [] offset remaining file p = (record {
  outside = ground arith;
  keeps = ground arith;
  filled = ground arith;
})
read_body-Wrote content (r ∷ reads) offset remaining file p =
    let n = bytes_read r remaining in
    let whole : n + (remaining - n) ≡ remaining = omega arith in
    let round =
      round-Wrote content r.finish offset n (remaining - n) file
        (write_round content r offset n file) (read_body content reads (offset + n) (remaining - n))
        p (write_round-Wrote content r offset n file p)
        (λ file'. read_body-Wrote content reads (offset + n) (remaining - n) file' p) in
    if-Wrote content offset remaining file p (remaining == 0) _ _
      (λ none_left. (record {
        outside = λ h. refl;
        keeps = λ h. h;
        filled = ground (arith, none_left);
      }))
      (λ some_left. resize-Wrote content offset file p whole round)

size_lem : (start last : ℕ) → start ≤ last → pos_part (sub_ℕ (last + 1) start) ≡ last + 1 - start
size_lem start last order = ground arith

-- The same of a whole request, when a 206 brings bytes of `content`.
pub download_chunk-Wrote :
    (response : Result Response) (start last : ℕ) (file : Bytes) (p : ℕ) (content : Bytes)
    → ((r : Response) → response ≡ ok r → r.status ≡ 206 → r.content ≡ content)
    → start ≤ last
    → Wrote content start (last + 1 - start) file p (download_chunk response start last file)
unfolding download_chunk
download_chunk-Wrote (err e) start last file p content same order =
    failed-Wrote content start (last + 1 - start) file p e
download_chunk-Wrote (ok r) start last file p content same order =
    let n = last + 1 - start in
    let read = read_body-Wrote r.content r.reads start n file p in
    let got : Loop = read_body r.content r.reads start (pos_part (sub_ℕ (last + 1) start)) file in
    let size = r.content_length in
    let wrong_size : Loop = (err (status_error r.status "content length mismatch"), file) in
    let wrong_status : Loop = (err (status_error r.status "expected 206 Partial Content"), file) in
    let mismatch = not (eqb_ℤ size (negsuc 0)) && not (eqb_ℤ size (sub_ℕ (last + 1) start)) in
    if-Wrote content start n file p (not (r.status == 206)) wrong_status
      (if mismatch then wrong_size else got)
      (λ other.
        failed-Wrote content start n file p (status_error r.status "expected 206 Partial Content"))
      (λ partial.
        if-Wrote content start n file p mismatch wrong_size got
          (λ other.
            failed-Wrote content start n file p (status_error r.status "content length mismatch"))
          (λ whole. rw (size_lem start last order) (
            subst (λ (c : Bytes). Wrote c start n file p (read_body r.content r.reads start n file))
              (same r refl (ground (arith, partial))) read)))
