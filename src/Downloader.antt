-- ===== src/Downloader.antt =====
-- internal/filetransfer/downloader.go: which chunks of a file are downloaded, and which errors are
-- tried again.
pub mod Cover
pub mod Options
pub mod Transfer
pub mod Retrying
pub mod Pool
pub mod Finish
pub mod Served
pub mod State
pub mod Whole
pub mod Untouched
pub mod Landing
pub mod Saved
use updater_service.Base.{
  ℕ, zero, suc, ◌+◌, ◌-◌, ◌*◌, ◌/◌, ◌<◌, ◌≤◌, String, Bool, true, false, ◌||◌, Option, none, some,
  List, [], ◌∷◌, Error, canceled, deadline_exceeded, unexpected_eof, net_op_error, status_error,
  wrap, Result, ok, err, is_error, ltb, leb, nat_eq, ◌==◌, if◌then◌else◌, length, arith, ◌≡◌, ◌++◌,
  on_option, on_result, ◌%◌, ◌^◌, ℤ, pos, negsuc, sub_ℕ, text,
}
use updater_service.Retry.{signed64}

-- The fields of `Chunk` that the downloader reads.
pub record Chunk : Type 0 where
  pub index : ℕ
  pub start : ℕ
  pub last : ℕ  -- End
  pub completed : Bool

-- The chunk that the loop of `loadOrInitState` makes in round `i`, for a chunk size above 0. Its sums
-- are on int64, and in no round that runs do they wrap: see `rounds_fit` in Downloader.Cover.
unfoldable pub chunk_at : ℕ → ℕ → ℕ → Chunk
chunk_at chunk_size expected_size i =
    let start = i * chunk_size in
    let last = start + chunk_size - 1 in
    record {
      index = i;
      start = start;
      last = if leb expected_size last then expected_size - 1 else last;
      completed = false;
    }

-- The rounds from `i` on, of which `left` are left.
unfoldable pub chunks_from : ℕ → ℕ → ℕ → ℕ → List Chunk
chunks_from chunk_size expected_size i zero = []
chunks_from chunk_size expected_size i (suc left) =
    chunk_at chunk_size expected_size i ∷ chunks_from chunk_size expected_size (i + 1) left

-- `/` on int64, which rounds towards 0.
unfoldable pub quotient : ℤ → ℕ → ℤ
quotient (pos n) k = pos (n / k)
quotient (negsuc n) k = sub_ℕ 0 (suc n / k)

-- The sum is on int64, and wraps around.
unfoldable pub chunk_count : ℕ → ℕ → ℤ
unfolding quotient
chunk_count chunk_size expected_size =
    quotient (signed64 ((expected_size + chunk_size - 1) % 2 ^ 64)) chunk_size

-- `make` panics at a negative length, which ends the process. Here that is an error.
unfoldable pub init_chunks : ℕ → ℕ → Result (List Chunk)
init_chunks chunk_size expected_size = elim (chunk_count chunk_size expected_size) [
  | pos n ↦ ok (chunks_from chunk_size expected_size 0 n)
  | negsuc _ ↦ err (text "makeslice: len out of range")
]

-- `TotalSize`
unfoldable pub total_size : List Chunk → ℕ
total_size [] = 0
total_size (c ∷ []) = c.last + 1
total_size (c ∷ d ∷ chunks) = total_size (d ∷ chunks)

-- A new state, whose file may not be saved.
unfoldable pub init_state : ℕ → ℕ → Option Error → Result (List Chunk)
init_state chunk_size expected_size failure =
    on_result (init_chunks chunk_size expected_size) err
      (λ chunks. on_option failure (ok chunks) (λ e. err (wrap "failed to save initial state" e)))

-- `loadOrInitState`, given what `readStateFile` returns and how `saveStateFile` fails.
unfoldable pub load_or_init_state :
    ℕ → ℕ → Result (Option (List Chunk)) → Option Error → Result (List Chunk)
load_or_init_state chunk_size expected_size (err e) failure =
    init_state chunk_size expected_size failure
load_or_init_state chunk_size expected_size (ok none) failure =
    init_state chunk_size expected_size failure
load_or_init_state chunk_size expected_size (ok (some chunks)) failure =
    if total_size chunks == expected_size
    then ok chunks
    else init_state chunk_size expected_size failure

unfoldable pub pending_from : ℕ → List Chunk → List ℕ
pending_from i [] = []
pending_from i (c ∷ chunks) =
    let rest = pending_from (i + 1) chunks in if c.completed then rest else i ∷ rest

-- `PendingChunks`
unfoldable pub pending_chunks : List Chunk → List ℕ
pending_chunks chunks = pending_from 0 chunks

-- errors.AsType[*StatusError] and [*net.OpError]
unfoldable pub status_code : Error → Option ℕ
status_code (status_error code message) = some code
status_code (wrap message e) = status_code e
status_code _ = none

unfoldable pub is_op_error : Error → Bool
is_op_error (net_op_error message) = true
is_op_error (wrap message e) = is_op_error e
is_op_error _ = false

-- `isRetryableError`
unfoldable pub is_retryable_error : Error → Bool
is_retryable_error e =
    if is_error e canceled || is_error e deadline_exceeded
    then false
    else if is_error e unexpected_eof
    then true
    else if on_option (status_code e) false (λ code. code == 429 || leb 500 code)
    then true
    else is_op_error e
