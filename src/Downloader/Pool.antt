-- ===== src/Downloader/Pool.antt =====
-- internal/filetransfer/downloader.go: the goroutines that `Download` starts, which take chunks from
-- a channel and write to one part file, `markChunkComplete`, and what a later `Download` resumes.
-- The steps of different workers may come in any order.
pub mod Sound
pub mod Steps
pub mod Marks
pub mod Resumed
use updater_service.Base.{
  ℕ, zero, suc, ◌+◌, ◌-◌, Bool, true, false, Option, none, some, List, [], ◌∷◌, Error, text, wrap,
  Result, ok, err, on_result, on_option, get_elem?, if◌then◌else◌, ◌==◌, nat_eq, leb, length, ◌&&◌,
}
use updater_service.Downloader.{Chunk, pending_chunks}
use updater_service.Downloader.Transfer.{
  Bytes, ReadEnd, more, eof, broken, Read, Loop, bytes_read, write_round,
}

-- What a worker is at: no chunk, chunk `index` before a request, or in the loop over a body at
-- `offset`, or after a request that failed, or it has returned.
pub data Slot : Type 0 where
  idle : Slot
  taken : ℕ → Slot
  loading : ℕ → ℕ → ℕ → Slot  -- index, offset, End
  failing : ℕ → Slot
  stopped : Slot

-- The saved state is read and written under a lock. The ranges in it are those that the workers
-- have in memory, where the chunks' flags are not read again once the channel is filled.
pub record Pool : Type 0 where
  pub file : Bytes
  pub chunks : List Chunk
  pub queue : List ℕ  -- chunkChan
  pub slot : ℕ → Slot
  pub failed : Bool  -- errChan is not empty

-- What may happen next. A worker gives up because the context is over or no attempt is left, or
-- because the error is not tried again.
pub data Event : Type 0 where
  take : ℕ → Event
  request : ℕ → Event  -- a request that is answered with its range
  refused : ℕ → Event  -- one that is not
  round : ℕ → Read → Event
  retry : ℕ → Event
  give_up : ℕ → Event
  complete : ℕ → Event
  not_saved : ℕ → Event  -- the state file cannot be read or written
  resume : Event  -- the process ends, and `Download` is called again

abbrev pub with_slot : ℕ → Slot → Pool → Pool
with_slot w s pool = record {
  file = pool.file;
  chunks = pool.chunks;
  queue = pool.queue;
  slot = λ v. if v == w then s else pool.slot v;
  failed = pool.failed;
}

abbrev pub with_file : Bytes → Pool → Pool
with_file file pool = record {
  file = file;
  chunks = pool.chunks;
  queue = pool.queue;
  slot = pool.slot;
  failed = pool.failed;
}

-- The worker returns with an error.
abbrev pub stop : ℕ → Pool → Pool
stop w pool = record {
  file = pool.file;
  chunks = pool.chunks;
  queue = pool.queue;
  slot = λ v. if v == w then stopped else pool.slot v;
  failed = true;
}

abbrev pub completed_chunk : Chunk → Chunk
completed_chunk c = record { index = c.index; start = c.start; last = c.last; completed = true }

-- `state.Chunks[chunkIndex].Completed = true`
unfoldable pub complete_at : List Chunk → ℕ → List Chunk
complete_at [] i = []
complete_at (c ∷ chunks) zero = completed_chunk c ∷ chunks
complete_at (c ∷ chunks) (suc i) = c ∷ complete_at chunks i

-- Where a round of the loop leaves its worker.
unfoldable pub slot_after : ReadEnd → ℕ → ℕ → ℕ → ℕ → Slot
slot_after more i left offset last = loading i offset last
slot_after eof i zero offset last = loading i offset last
slot_after eof i (suc left) offset last = failing i
slot_after (broken e) i left offset last = failing i

-- The steps of worker `w` that is at the slot.
unfoldable pub step_request : ℕ → Slot → Pool → Pool
step_request w (taken i) pool =
    on_option (get_elem? pool.chunks i) pool (λ c. with_slot w (loading i c.start c.last) pool)
step_request w _ pool = pool

unfoldable pub step_complete : ℕ → Slot → Pool → Pool
step_complete w (loading i offset last) pool =
    if last + 1 - offset == 0
    then record {
      file = pool.file;
      chunks = complete_at pool.chunks i;
      queue = pool.queue;
      slot = λ v. if v == w then idle else pool.slot v;
      failed = pool.failed;
    }
    else pool
step_complete w _ pool = pool

unfoldable pub step_take : ℕ → Slot → List ℕ → Pool → Pool
step_take w idle (i ∷ queue) pool = record {
  file = pool.file;
  chunks = pool.chunks;
  queue = queue;
  slot = λ v. if v == w then taken i else pool.slot v;
  failed = pool.failed;
}
step_take w _ _ pool = pool

unfoldable pub step_refused : ℕ → Slot → Pool → Pool
step_refused w (taken i) pool = with_slot w (failing i) pool
step_refused w _ pool = pool

unfoldable pub step_retry : ℕ → Slot → Pool → Pool
step_retry w (failing i) pool = with_slot w (taken i) pool
step_retry w _ pool = pool

unfoldable pub step_give_up : ℕ → Slot → Pool → Pool
step_give_up w (taken i) pool = stop w pool
step_give_up w (failing i) pool = stop w pool
step_give_up w _ pool = pool

unfoldable pub step_not_saved : ℕ → Slot → Pool → Pool
step_not_saved w (loading i offset last) pool = if last + 1 - offset == 0 then stop w pool else pool
step_not_saved w _ pool = pool

-- The pool that `Download` makes from the part file and the saved state that it finds.
unfoldable pub start_pool : Bytes → List Chunk → Pool
start_pool file chunks = record {
  file = file;
  chunks = chunks;
  queue = pending_chunks chunks;
  slot = λ w. idle;
  failed = false;
}

module _ (content : Bytes) where
  unfoldable pub step_round : ℕ → Read → Slot → Pool → Pool
  step_round w r (loading i offset last) pool =
      let left = last + 1 - offset in
      let n = bytes_read r left in
      let (written, file) = write_round content r offset n pool.file in
      if left == 0
      then pool
      else with_file file (
          on_result written (λ e. with_slot w (failing i) pool)
            (λ _. with_slot w (slot_after r.finish i (left - n) (offset + n) last) pool))
  step_round w r _ pool = pool

  unfoldable pub step : Event → Pool → Pool
  step (take w) pool = step_take w (pool.slot w) pool.queue pool
  step (request w) pool = step_request w (pool.slot w) pool
  step (refused w) pool = step_refused w (pool.slot w) pool
  step (round w r) pool = step_round w r (pool.slot w) pool
  step (retry w) pool = step_retry w (pool.slot w) pool
  step (give_up w) pool = step_give_up w (pool.slot w) pool
  step (complete w) pool = step_complete w (pool.slot w) pool
  step (not_saved w) pool = step_not_saved w (pool.slot w) pool
  step resume pool = start_pool pool.file pool.chunks

  unfoldable pub run : List Event → Pool → Pool
  run [] pool = pool
  run (event ∷ events) pool = run events (step event pool)
