-- ===== src/Downloader/Pool/Resumed.antt =====
-- What a run of the workers leaves, however often it is cut off and resumed.
use updater_service.Base.{
  ℕ, zero, suc, ◌≤◌, ◌<◌, true, false, ◌&&◌, none, some, List, [], ◌∷◌, get_elem?, nat_eq, arith,
  ◌≡◌, ◌⊎◌, inl, inr, refl, Bool-cases, leb, ◌∙◌, ok, ap, sym, ◌+◌, ◌^◌,
}
use updater_service.Downloader.{
  Chunk, pending_chunks, pending_from, chunk_at, chunks_from, init_chunks, load_or_init_state,
  init_state,
}
use updater_service.Downloader.Cover.{covers, chunks_cover, planned}
use updater_service.Downloader.Transfer.{Bytes}
use updater_service.Downloader.Pool.{
  Slot, idle, taken, loading, failing, stopped, Pool, Event, take, request, refused, round, retry,
  give_up, complete, not_saved, resume, complete_at, step_complete, step_take, step_give_up,
  step_not_saved, step_request, step_refused, step_round, step_retry, start_pool, step, run,
}
use updater_service.Downloader.Pool.Sound.{contains, held, IsSound}
use updater_service.Downloader.Pool.Steps.{
  step_request-IsSound, step_refused-IsSound, step_retry-IsSound, step_round-IsSound,
}
use updater_service.Downloader.Pool.Marks.{
  step_complete-IsSound, step_take-IsSound, step_give_up-IsSound, step_not_saved-IsSound,
}

-- A chunk is complete, or it is pending.
contains-pending_from :
    (chunks : List Chunk) (k i : ℕ) (c : Chunk)
    → get_elem? chunks i ≡ some c
    → (c.completed ≡ true) ⊎ (contains (k + i) (pending_from k chunks) ≡ true)
unfolding pending_from
contains-pending_from [] k i c at = absurd (ground arith)
contains-pending_from (d ∷ chunks) k zero c at = ground arith
contains-pending_from (d ∷ chunks) k (suc i) c at =
    let rest = contains-pending_from chunks (k + 1) i c at in ground (arith, rest)

start_pool-IsSound :
    (content file : Bytes) (chunks : List Chunk)
    → ((i : ℕ) (c : Chunk)
        → get_elem? chunks i ≡ some c
        → c.completed ≡ true
        → (p : ℕ) → c.start ≤ p
        → p ≤ c.last
        → file p ≡ content p)
    → IsSound content (start_pool file chunks)
unfolding start_pool pending_chunks
start_pool-IsSound content file chunks filled = record {
  filled = filled;
  loaded = λ w. tt;
  accounted = λ i c at. elim (contains-pending_from chunks 0 i c at) [
    | inl done ↦ inl done
    | inr waits ↦ inr (inl (ground (arith, waits)))
  ];
}

step-IsSound :
    (content : Bytes) (event : Event) (pool : Pool)
    → IsSound content pool
    → IsSound content (step content event pool)
unfolding step
step-IsSound content (take w) pool h =
    step_take-IsSound content w pool (pool.slot w) pool.queue refl refl h
step-IsSound content (request w) pool h = step_request-IsSound content w pool (pool.slot w) refl h
step-IsSound content (refused w) pool h = step_refused-IsSound content w pool (pool.slot w) refl h
step-IsSound content (round w r) pool h = step_round-IsSound content w r pool (pool.slot w) refl h
step-IsSound content (retry w) pool h = step_retry-IsSound content w pool (pool.slot w) refl h
step-IsSound content (give_up w) pool h = step_give_up-IsSound content w pool (pool.slot w) h
step-IsSound content (complete w) pool h = step_complete-IsSound content w pool (pool.slot w) refl h
step-IsSound content (not_saved w) pool h = step_not_saved-IsSound content w pool (pool.slot w) h
step-IsSound content resume pool h = start_pool-IsSound content pool.file pool.chunks h.filled

-- A chunk keeps its range when it is marked.
covers-complete_at :
    (b : ℕ) (chunks : List Chunk) (i : ℕ) → covers b (complete_at chunks i) ≡ covers b chunks
unfolding complete_at
covers-complete_at b [] i = refl
covers-complete_at b (c ∷ chunks) zero = refl
covers-complete_at b (c ∷ chunks) (suc i) = ground (arith, covers-complete_at b chunks i)

covers-step_complete :
    (b w : ℕ) (s : Slot) (pool : Pool)
    → covers b (step_complete w s pool).chunks ≡ covers b pool.chunks
unfolding step_complete
covers-step_complete b w (loading i offset last) pool =
    ground (arith, covers-complete_at b pool.chunks i)
covers-step_complete b w idle pool = refl
covers-step_complete b w (taken i) pool = refl
covers-step_complete b w (failing i) pool = refl
covers-step_complete b w stopped pool = refl

covers-step :
    (content : Bytes) (b : ℕ) (event : Event) (pool : Pool)
    → covers b (step content event pool).chunks ≡ covers b pool.chunks
unfolding step step_take step_request step_refused step_retry step_give_up step_not_saved step_round
    start_pool
covers-step content b (take w) pool = ground arith
covers-step content b (request w) pool = ground arith
covers-step content b (refused w) pool = ground arith
covers-step content b (round w r) pool = ground arith
covers-step content b (retry w) pool = ground arith
covers-step content b (give_up w) pool = ground arith
covers-step content b (complete w) pool = covers-step_complete b w (pool.slot w) pool
covers-step content b (not_saved w) pool = ground arith
covers-step content b resume pool = refl

run-IsSound :
    (content : Bytes) (events : List Event) (pool : Pool)
    → IsSound content pool
    → IsSound content (run content events pool)
unfolding run
run-IsSound content [] pool h = h
run-IsSound content (event ∷ events) pool h =
    run-IsSound content events (step content event pool) (step-IsSound content event pool h)

covers-run :
    (content : Bytes) (b : ℕ) (events : List Event) (pool : Pool)
    → covers b (run content events pool).chunks ≡ covers b pool.chunks
unfolding run
covers-run content b [] pool = refl
covers-run content b (event ∷ events) pool =
    covers-run content b events (step content event pool) ∙ covers-step content b event pool

-- A chunk that a byte is in.
covering :
    (b : ℕ) (chunks : List Chunk)
    → 0 < covers b chunks
    → (i : ℕ) × (c : Chunk) × (get_elem? chunks i ≡ some c) × (c.start ≤ b) × (b ≤ c.last)
covering b [] h = absurd (omega (arith, h))
covering b (c ∷ chunks) h = elim (Bool-cases (leb c.start b && leb b c.last)) [
  | inl here ↦ (0, c, refl, ground (arith, here), ground (arith, here))
  | inr there ↦
      let (i, d, at, from, to) = covering b chunks (ground (arith, there, h)) in
      (suc i, d, at, from, to)
]

fresh_chunks :
    (size n i left j : ℕ) (c : Chunk)
    → get_elem? (chunks_from size n i left) j ≡ some c
    → c.completed ≡ false
unfolding chunks_from chunk_at
fresh_chunks size n i zero j c at = absurd (ground arith)
fresh_chunks size n i (suc left) zero c at = ground (arith, at)
fresh_chunks size n i (suc left) (suc j) c at = fresh_chunks size n (i + 1) left j c at

planned_fresh :
    (size n : ℕ) (chunks : List Chunk)
    → init_chunks size n ≡ ok chunks
    → (i : ℕ) (c : Chunk) → get_elem? chunks i ≡ some c
    → c.completed ≡ false
unfolding init_chunks
planned_fresh size n chunks plan i c at =
    let (count, e, made) = planned size n chunks plan in
    fresh_chunks size n 0 count i c (ap (λ l. get_elem? l i) (sym made) ∙ at)

-- A pool that a download may be in: its workers' steps come in any order, the reads and writes of a
-- chunk end anywhere, and the process may end and resume from the saved state any number of times.
-- The part file starts with any bytes.
abbrev pub downloaded : Bytes → Bytes → List Chunk → List Event → Pool
downloaded content file chunks events = run content events (start_pool file chunks)

downloaded-IsSound :
    (content file : Bytes) (size n : ℕ) (chunks : List Chunk) (events : List Event)
    → init_chunks size n ≡ ok chunks
    → IsSound content (downloaded content file chunks events)
downloaded-IsSound content file size n chunks events plan =
    run-IsSound content events (start_pool file chunks) (
      start_pool-IsSound content file chunks (λ i c at done p from to.
        let fresh = planned_fresh size n chunks plan i c at in
        absurd (ground (arith, done, fresh))))

fresh_covers :
    (size n b : ℕ) (chunks : List Chunk)
    → 0 < size
    → n + size ≤ 2 ^ 63
    → b < n
    → init_chunks size n ≡ ok chunks
    → covers b chunks ≡ 1
unfolding load_or_init_state init_state
fresh_covers size n b chunks positive fits inside plan =
    chunks_cover size n b (ok none) none chunks positive fits inside
      (λ old e. absurd (ground (arith, e))) (ground (arith, plan))

-- Every chunk that the saved state of a download calls complete is complete in the part file,
-- whatever the order of the workers' steps, however the requests and writes end, and wherever the
-- process ended and resumed.
complete_filled :
    (content file : Bytes) (size n : ℕ) (chunks : List Chunk) (events : List Event) (i : ℕ)
    (c : Chunk)
    → init_chunks size n ≡ ok chunks
    → get_elem? (downloaded content file chunks events).chunks i ≡ some c
    → c.completed ≡ true
    → (p : ℕ) → c.start ≤ p
    → p ≤ c.last
    → (downloaded content file chunks events).file p ≡ content p
complete_filled content file size n chunks events i c plan at done p from to =
    (downloaded-IsSound content file size n chunks events plan).filled i c at done p from to

-- A download that starts with the chunks that are planned for its file, where chunks are not empty and
-- the size of a chunk and that of the file add up to 2^63 at most: once the channel is empty, no worker
-- has a chunk and no error is returned, the part file has all bytes of the content, whatever steps led
-- there.
pub download_complete :
    (content file : Bytes) (size n : ℕ) (chunks : List Chunk) (events : List Event) (b : ℕ)
    → 0 < size
    → n + size ≤ 2 ^ 63
    → init_chunks size n ≡ ok chunks
    → b < n
    → (downloaded content file chunks events).queue ≡ []
    → ((w : ℕ) → held ((downloaded content file chunks events).slot w) ≡ none)
    → (downloaded content file chunks events).failed ≡ false
    → (downloaded content file chunks events).file b ≡ content b
unfolding start_pool
download_complete content file size n chunks events b positive fits plan inside empty free fine =
    let pool = downloaded content file chunks events in
    let sound = downloaded-IsSound content file size n chunks events plan in
    let once = fresh_covers size n b chunks positive fits inside plan in
    let same = covers-run content b events (start_pool file chunks) in
    let (i, c, at, from, to) = covering b pool.chunks (ground (arith, once, same)) in
    elim (sound.accounted i c at) [
      | inl done ↦ sound.filled i c at done b from to
      | inr (inl waits) ↦ absurd (ground (arith, waits, empty))
      | inr (inr (inl (w, has))) ↦ absurd (ground (arith, has, free w))
      | inr (inr (inr bad)) ↦ absurd (ground (arith, bad, fine))
    ]
