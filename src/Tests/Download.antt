-- ===== src/Tests/Download.antt =====
-- internal/filetransfer: files of ten bytes in chunks of four.
use updater_service.Base.{
  ◌^◌, ◌-◌, ne_of_beq, ap, nat_eq, ◌&&◌, inl, inr, unexpected_eof, Bool-cases, ◌>>=◌, string_dec,
  is_error, Error-discrete, Result, string_dec, ◌>>=◌, ℕ, zero, suc, ◌+◌, ◌≤◌, ◌<◌, ◌≡◌, ◌≢◌, ◌↔◌,
  ◌⊎◌, String, false, none, some, List, [], ◌∷◌, refl, ok, err, arith, pos, negsuc, canceled,
  net_op_error, if◌then◌else◌, ◌==◌, string_eq, ℕ_discrete,
}
use updater_service.Retry.{signed64}
use updater_service.Disk.{Disk, Faults, mkdir_all, create_file, rename, close_file, remove}
use updater_service.Config.Environment.{Environment}
use updater_service.Config.Loading.{load_config}
use updater_service.Downloader.{
  Chunk, load_or_init_state, init_state, init_chunks, chunks_from, chunk_at, chunk_count, quotient,
  pending_chunks, pending_from,
}
use updater_service.Downloader.Cover.{covers, chunks_cover}
use updater_service.Downloader.Transfer.{
  Bytes, Read, ReadEnd, more, eof, broken, Response, write_round,
}
use updater_service.Downloader.Retrying.{Line, download_chunk_with_retry}
use updater_service.Downloader.Retrying.Attempts.{
  ArrivesAt, download_chunk_with_retry_iff, download_chunk_with_retry-Wrote,
}
use updater_service.Downloader.Pool.{
  Event, take, request, round, complete, resume, start_pool, run, step, step_take, step_request,
  step_round, step_complete, complete_at, slot_after,
}
use updater_service.Downloader.Pool.Resumed.{downloaded, download_complete}
use updater_service.Config.Settings.{ApplicationConfig}
use updater_service.Operation.{FileMetadata}
use updater_service.Entry.Serving.{OpenFile}
use updater_service.Downloader.Finish.{finish_download, verify_and_finalize, hash_file, read_file}
use updater_service.Downloader.State.{
  Codec, resumable, read_state_file, encode_to, save_state_file, mark_chunk_complete, load_state,
}
use updater_service.Downloader.Whole.{
  Transfer, wrote, marked, happen, happen_all, open_part, truncate, download,
}
use updater_service.Downloader.Untouched.{IsApart}
use updater_service.Downloader.Saved.{IsMarked, mark_chunk_complete_lem}
use updater_service.Downloader.Landing.{Landed, download_lem}

abbrev chunk : ℕ → ℕ → ℕ → Chunk
chunk index start last = record { index = index; start = start; last = last; completed = false }

abbrev three_chunks : List Chunk
three_chunks = chunk 0 0 3 ∷ chunk 1 4 7 ∷ chunk 2 8 9 ∷ []

three_planned : init_chunks 4 10 ≡ ok three_chunks
unfolding init_chunks chunk_count quotient signed64 chunks_from chunk_at
three_planned = refl

-- The sum of these sizes wraps around, so that no chunk is planned.
none_planned : init_chunks (2 ^ 63 - 1) 100 ≡ ok []
unfolding init_chunks chunk_count quotient signed64 chunks_from
none_planned = refl

chunks_cover_example : covers 9 three_chunks ≡ 1
unfolding load_or_init_state init_state
chunks_cover_example =
    chunks_cover 4 10 9 (ok none) none three_chunks (omega arith) (omega arith) (omega arith)
      (λ chunks e. absurd (ground (arith, e))) (ground (arith, three_planned))

abbrev content : Bytes
content p = p + 65

abbrev read_of : ℕ → ReadEnd → Read
read_of count finish = record { count = count; finish = finish; write_error = none }

-- A response that is cut off, and a whole one.
abbrev line : Line
line = record {
  answer = λ n. ok (record {
    status = 206;
    content_length = pos 4;
    content = content;
    reads = elim n [
      | zero ↦ read_of 2 more ∷ read_of 0 (broken (net_op_error "connection reset")) ∷ []
      | suc _ ↦ read_of 3 more ∷ read_of 1 eof ∷ []
    ];
  });
  over = λ n. false;
  expires = λ n. false;
  cause = canceled;
}

abbrev blank : Bytes
blank p = 0

download_chunk_with_retry_iff_example :
    ((download_chunk_with_retry line 4 7 (pos 1) blank).0.0 ≡ ok tt
      ↔ ((n : ℕ) × (n ≤ 1) × ArrivesAt line 4 7 0 blank n))
    × ((download_chunk_with_retry line 4 7 (pos 1) blank).1 ≤ 2)
    × ((download_chunk_with_retry line 4 7 (negsuc 1) blank).0.0 ≢ ok tt)
    × ((download_chunk_with_retry line 4 7 (negsuc 1) blank).1 ≡ 0)
download_chunk_with_retry_iff_example = download_chunk_with_retry_iff line 4 7 1 blank

same_content : (n : ℕ) (r : Response) → line.answer n ≡ ok r → r.status ≡ 206 → r.content ≡ content
same_content n r e status = ground (arith, e)

download_chunk_with_retry-Wrote_example :
    let loop = (download_chunk_with_retry line 4 7 (pos 1) blank).0 in
    ((5 < 4) ⊎ (7 < 5) → loop.1 5 ≡ 0)
    × (0 ≡ content 5 → loop.1 5 ≡ content 5)
    × (loop.0 ≡ ok tt → 4 ≤ 5 → 5 ≤ 7 → loop.1 5 ≡ content 5)
download_chunk_with_retry-Wrote_example =
    download_chunk_with_retry-Wrote line 4 7 (pos 1) blank content 5 (omega arith) same_content

-- The process ends while worker 0 is in its chunk and worker 1 has completed another.
abbrev events : List Event
events =
    take 0
    ∷ request 0
    ∷ round 0 (read_of 2 more)
    ∷ take 1
    ∷ request 1
    ∷ round 1 (read_of 4 more)
    ∷ complete 1
    ∷ resume
    ∷ take 0
    ∷ request 0
    ∷ round 0 (read_of 9 more)
    ∷ complete 0
    ∷ []

abbrev two_chunks : List Chunk
two_chunks = chunk 0 0 3 ∷ chunk 1 4 5 ∷ []

two_planned : init_chunks 4 6 ≡ ok two_chunks
unfolding init_chunks chunk_count quotient signed64 chunks_from chunk_at
two_planned = refl

download_complete_example : (downloaded content blank two_chunks events).file 1 ≡ content 1
unfolding run step start_pool step_take step_request step_round step_complete complete_at slot_after
    write_round pending_chunks pending_from ℕ_discrete
download_complete_example =
    download_complete content blank 4 6 two_chunks events 1 (omega arith) (omega arith) two_planned
      (omega arith) refl (λ w. ground arith) refl

abbrev fine : Faults
fine = record { fault = λ n. none; torn = λ n. "" }

abbrev disk : Disk
disk = record {
  files = λ p.
      if p == "app.yaml.part" then some "new" else if p == "app.yaml" then some "old" else none;
  calls = 0;
}

abbrev expected : String
expected = "new"

abbrev target : String
target = "app.yaml"

abbrev stored_chunk : Chunk
stored_chunk = record { index = 0; start = 0; last = 2; completed = false }

abbrev codec : Codec
codec = record { decode = λ json. ok (stored_chunk ∷ []); encode = λ chunks. ok "saved" }

-- Two workers: one writes the chunk and marks it, and the other finds nothing to do.
abbrev transfer : Transfer
transfer = record {
  chunk_size = 4;
  resize = λ size content. content;
  events = wrote "ne" ∷ wrote "new" ∷ marked 0 ∷ [];
}

abbrev landed : Result {0} Unit × Disk
landed = download fine codec (λ s. s) transfer target 3 expected disk

download_lem_example :
    (landed.0 ≡ ok tt → Landed target (λ s. s) expected landed.1)
    × (landed.0 ≢ ok tt → landed.1.files target ≡ disk.files target)
    × ((p : String) → p ≢ target → IsApart target p → landed.1.files p ≡ disk.files p)
download_lem_example = download_lem fine codec (λ s. s) transfer target 3 expected disk

landed_ok : landed.0 ≡ ok tt
unfolding download load_state read_state_file save_state_file mark_chunk_complete happen happen_all
    open_part truncate finish_download verify_and_finalize ◌>>=◌ mkdir_all resumable read_file
    string_dec is_error Error-discrete create_file encode_to rename close_file hash_file remove
    init_chunks chunk_count signed64
landed_ok = refl

abbrev empty_environment : Environment
empty_environment = record {
  lookup = λ key. none;
  parse_duration = λ s. err canceled;
  random_hex = "00";
}

abbrev settings : ApplicationConfig
settings = load_config empty_environment

abbrev meta : FileMetadata
meta = record {
  operation_id = "op-1";
  file_name = "app.yaml";
  file_path = "/data/app.yaml";
  file_size = 6;
  sha256 = "00";
  created_at = 1;
  status = "READY";
}

abbrev stored : OpenFile
stored = record { size = ok 6; seek = ok tt; content = content }

abbrev reads : List Read
reads = read_of 4 more ∷ read_of 2 more ∷ []

-- A codec for states of one chunk of three bytes.
unfoldable encode_state : List Chunk → Result {0} String
encode_state [] = err unexpected_eof
encode_state (c ∷ []) =
    if c.index == 0 && c.start == 0 && c.last == 2
    then ok (if c.completed then "completed" else "open")
    else err unexpected_eof
encode_state (c ∷ d ∷ chunks) = err unexpected_eof

abbrev state_codec : Codec
state_codec = record {
  decode =
      λ json. ok (record { index = 0; start = 0; last = 2; completed = json == "completed" } ∷ []);
  encode = encode_state;
}

open_ne : ◌≢◌ {A = String} "open" "completed"
unfolding string_dec
open_ne = ne_of_beq "open" "completed" refl

encode_state_lem :
    (state : List Chunk) (json : String)
    → encode_state state ≡ ok json
    → state_codec.decode json ≡ ok state
unfolding encode_state
encode_state_lem [] json e = absurd (ground (arith, e))
encode_state_lem (c ∷ []) json e = elim (Bool-cases c.completed) [
  | inl t ↦ ap (λ x. ok (x ∷ [])) (ground (arith, e, t))
  | inr f ↦ ap (λ x. ok (x ∷ [])) (ground (arith, e, f, open_ne))
]
encode_state_lem (c ∷ d ∷ chunks) json e = absurd (ground (arith, e))

abbrev saved_disk : Disk
saved_disk = record { files = λ p. if p == "state" then some "open" else none; calls = 0 }

abbrev after_mark : Result {0} Unit × Disk
after_mark = mark_chunk_complete fine state_codec "state" 0 saved_disk

mark_chunk_complete_lem_example :
    (after_mark.0 ≡ ok tt
      → (before after : List Chunk) × (old new : String) × (saved_disk.files "state" ≡ some old)
        × (state_codec.decode old ≡ ok before)
        × (after_mark.1.files "state" ≡ some new)
        × (state_codec.decode new ≡ ok after)
        × IsMarked 0 before after)
    × (after_mark.0 ≢ ok tt → after_mark.1.files "state" ≡ saved_disk.files "state")
mark_chunk_complete_lem_example =
    mark_chunk_complete_lem fine state_codec "state" 0 saved_disk encode_state_lem
