-- ===== src/Downloader/Served.antt =====
-- A chunk that a worker asks the entry for.
use updater_service.Base.{ℕ, ◌-◌, ◌≡◌, pos, pos_part, none, List, [], ◌∷◌, Result, ok, nat_eq}
use updater_service.Config.Settings.{ApplicationConfig}
use updater_service.Downloader.{Chunk, init_chunks}
use updater_service.Downloader.Options.{worker_downloader}
use updater_service.Downloader.Transfer.{
  Bytes, Read, more, Response, bytes_read, Loop, download_chunk,
}
use updater_service.Entry.Serving.{Answer, response_of}
use updater_service.Operation.Files
use updater_service.Operation.Files.{Files}

-- The reads bring `left` bytes, with no error of the body or of the disk.
abbrev pub IsSteady : List Read → ℕ → Type 0
IsSteady [] left = left ≡ 0
IsSteady (r ∷ reads) left =
    (r.write_error ≡ none) × (r.finish ≡ more) × IsSteady reads (left - bytes_read r left)

abbrev whole_response : Bytes → List Read → ℕ → Response
whole_response content reads n = record {
  status = 206;
  content_length = pos n;
  content = content;
  reads = reads;
}

-- The chunks that a worker plans for a file of `n` bytes.
abbrev pub plan_of : ApplicationConfig → ℕ → Result (List Chunk)
plan_of c n = init_chunks (pos_part (worker_downloader c).chunk_size) n

-- What the request of a chunk does to the part file, when the entry answers.
abbrev pub requested : Chunk → List Read → Answer → Bytes → Loop
requested chunk reads answer file =
    download_chunk (ok (response_of reads answer)) chunk.start chunk.last file
