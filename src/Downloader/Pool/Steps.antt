-- ===== src/Downloader/Pool/Steps.antt =====
-- Every step of a worker keeps the part file, the saved state and the workers sound.
use mathlib.Core.Path.{subst}
use updater_service.Base.{
  ℕ, zero, suc, ◌+◌, ◌-◌, Bool, true, false, Option, none, some, List, get_elem?, ◌==◌, nat_eq,
  arith, ◌≡◌, refl, on_option, on_result, if◌then◌else◌, ok, err,
}
use updater_service.Downloader.{Chunk}
use updater_service.Downloader.Transfer.{
  Bytes, Read, ReadEnd, more, eof, broken, Loop, bytes_read, write_round,
}
use updater_service.Downloader.Transfer.Writes.{Wrote, write_round-Wrote}
use updater_service.Downloader.Pool.{
  Slot, idle, taken, loading, failing, stopped, Pool, with_slot, with_file, slot_after,
  step_request, step_round, step_refused, step_retry,
}
use updater_service.Downloader.Pool.Sound.{
  held, IsLoaded, IsSound, with_slot-IsSound, with_file-IsSound,
}

pub step_request-IsSound :
    (content : Bytes) (w : ℕ) (pool : Pool) (s : Slot)
    → pool.slot w ≡ s
    → IsSound content pool
    → IsSound content (step_request w s pool)
unfolding step_request
step_request-IsSound content w pool (taken i) e sound = by_chunk (get_elem? pool.chunks i) refl
  where
    by_chunk :
        (o : Option Chunk)
        → get_elem? pool.chunks i ≡ o
        → IsSound content (on_option o pool (λ c. with_slot w (loading i c.start c.last) pool))
    by_chunk none q = sound
    by_chunk (some c) q =
        with_slot-IsSound content w (loading i c.start c.last) pool (ground (arith, e))
          (λ d at. (ground (arith, q, at), λ p from to. absurd (ground (arith, q, at, from, to))))
          sound
step_request-IsSound content w pool idle e sound = sound
step_request-IsSound content w pool (loading i offset last) e sound = sound
step_request-IsSound content w pool (failing i) e sound = sound
step_request-IsSound content w pool stopped e sound = sound

pub step_refused-IsSound :
    (content : Bytes) (w : ℕ) (pool : Pool) (s : Slot)
    → pool.slot w ≡ s
    → IsSound content pool
    → IsSound content (step_refused w s pool)
unfolding step_refused
step_refused-IsSound content w pool (taken i) e sound =
    with_slot-IsSound content w (failing i) pool (ground (arith, e)) tt sound
step_refused-IsSound content w pool idle e sound = sound
step_refused-IsSound content w pool (loading i offset last) e sound = sound
step_refused-IsSound content w pool (failing i) e sound = sound
step_refused-IsSound content w pool stopped e sound = sound

pub step_retry-IsSound :
    (content : Bytes) (w : ℕ) (pool : Pool) (s : Slot)
    → pool.slot w ≡ s
    → IsSound content pool
    → IsSound content (step_retry w s pool)
unfolding step_retry
step_retry-IsSound content w pool (failing i) e sound =
    with_slot-IsSound content w (taken i) pool (ground (arith, e)) tt sound
step_retry-IsSound content w pool idle e sound = sound
step_retry-IsSound content w pool (taken i) e sound = sound
step_retry-IsSound content w pool (loading i offset last) e sound = sound
step_retry-IsSound content w pool stopped e sound = sound

slot_after-IsLoaded :
    (content file : Bytes) (chunks : List Chunk) (finish : ReadEnd) (i left offset last : ℕ)
    → IsLoaded content chunks file (loading i offset last)
    → IsLoaded content chunks file (slot_after finish i left offset last)
unfolding slot_after
slot_after-IsLoaded content file chunks more i left offset last h = h
slot_after-IsLoaded content file chunks eof i zero offset last h = h
slot_after-IsLoaded content file chunks eof i (suc left) offset last h = tt
slot_after-IsLoaded content file chunks (broken e) i left offset last h = tt

held-slot_after :
    (finish : ReadEnd) (i left offset last : ℕ)
    → held (slot_after finish i left offset last) ≡ some i
unfolding slot_after
held-slot_after more i left offset last = refl
held-slot_after eof i zero offset last = refl
held-slot_after eof i (suc left) offset last = refl
held-slot_after (broken e) i left offset last = refl

round-IsSound :
    (content : Bytes) (w i left offset last n : ℕ) (finish : ReadEnd) (pool : Pool) (loop : Loop)
    → pool.slot w ≡ loading i offset last
    → IsSound content pool
    → ((p : ℕ) → Wrote content offset n pool.file p loop)
    → IsSound content (
        with_file loop.1 (
          on_result loop.0
            (λ e. with_slot w (failing i) pool)
            (λ _. with_slot w (slot_after finish i left (offset + n) last) pool)))
round-IsSound content w i left offset last n finish pool (ok tt, file) e sound wrote =
    let old : IsLoaded content pool.chunks pool.file (loading i offset last) =
      subst (λ s. IsLoaded content pool.chunks pool.file s) e (sound.loaded w) in
    let new : IsLoaded content pool.chunks file (loading i (offset + n) last) = λ c at.
      let known = old c at in
      (
        known.0,
        λ p from to. ground (arith, known.1 p from, (wrote p).filled refl, (wrote p).keeps, to),
      ) in
    let same = held-slot_after finish i left (offset + n) last in
    with_slot-IsSound content w (slot_after finish i left (offset + n) last) (with_file file pool)
      (ground (arith, e, same))
      (slot_after-IsLoaded content file pool.chunks finish i left (offset + n) last new)
      (with_file-IsSound content file pool (λ p. (wrote p).keeps) sound)
round-IsSound content w i left offset last n finish pool (err x, file) e sound wrote =
    with_slot-IsSound content w (failing i) (with_file file pool) (ground (arith, e)) tt
      (with_file-IsSound content file pool (λ p. (wrote p).keeps) sound)

pub if-IsSound :
    (content : Bytes) (b : Bool) (a c : Pool)
    → IsSound content a
    → IsSound content c
    → IsSound content (if b then a else c)
if-IsSound content true a c x y = x
if-IsSound content false a c x y = y

pub step_round-IsSound :
    (content : Bytes) (w : ℕ) (r : Read) (pool : Pool) (s : Slot)
    → pool.slot w ≡ s
    → IsSound content pool
    → IsSound content (step_round content w r s pool)
unfolding step_round
step_round-IsSound content w r pool (loading i offset last) e sound =
    let left = last + 1 - offset in
    let n = bytes_read r left in
    let loop = write_round content r offset n pool.file in
    if-IsSound content (left == 0) pool
      (with_file loop.1 (
        on_result loop.0 (λ e. with_slot w (failing i) pool)
          (λ _. with_slot w (slot_after r.finish i (left - n) (offset + n) last) pool)))
      sound
      (round-IsSound content w i (left - n) offset last n r.finish pool loop e sound
        (λ p. write_round-Wrote content r offset n pool.file p))
step_round-IsSound content w r pool idle e sound = sound
step_round-IsSound content w r pool (taken i) e sound = sound
step_round-IsSound content w r pool (failing i) e sound = sound
step_round-IsSound content w r pool stopped e sound = sound
