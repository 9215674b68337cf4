-- ===== src/Entry/Serving.antt =====
-- internal/entry/handler.go: `handleServeFile`, which the downloader of a worker asks for chunks. What
-- fmt.Sscanf reads from the Range header is an argument, and opened files are a parameter.
use updater_service.Base.{
  [], ℕ, String, ℤ, pos, List, Option, Result, Outcome, Act, pure, attempt, on_result, ◌>>=◌,
}
use updater_service.Downloader.Transfer.{Bytes, Read, Response}
use updater_service.Operation.{FileMetadata}
use updater_service.Operation.Files
use updater_service.Operation.Files.{Files}
use updater_service.Entry.Ranges.{Reply, whole, partial, unsatisfiable, serve_range}

-- An open file: what Stat and Seek return, and its bytes.
pub record OpenFile : Type 0 where
  pub size : Result ℕ
  pub seek : Result (Unit {0})
  pub content : Bytes

-- A failure has a status and no body; otherwise the ETag and the bytes of the reply.
pub data Answer : Type 0 where
  failure : ℕ → Answer
  sent : String → Bytes → Reply → Answer

-- The seek of a partial reply.
unfoldable pub after_seek : OpenFile → String → Reply → Answer
after_seek file etag (whole n) = sent etag file.content (whole n)
after_seek file etag unsatisfiable = sent etag file.content unsatisfiable
after_seek file etag (partial start last length) =
    on_result file.seek (λ e. failure 500) (λ _. sent etag file.content (partial start last length))

-- The reply from an open file.
unfoldable pub serve_file : FileMetadata → Option (Option (ℤ × ℤ)) → OpenFile → Answer
serve_file meta range file =
    on_result file.size (λ e. failure 500)
      (λ size. after_seek file meta.sha256 (serve_range size range))

unfoldable pub handle_serve_file :
    (String → Result OpenFile) → Outcome → String → Option (Option (ℤ × ℤ)) → Act Files Answer
handle_serve_file opening o id range = do
  found ← attempt (Files.get o id)
  on_result found (λ e. pure (failure 404))
      (λ meta.
        on_result (opening meta.file_path) (λ e. pure (failure 404))
          (λ file. pure (serve_file meta range file)))

-- The response that the client sees, whose body comes in the reads.
unfoldable pub response_of : List Read → Answer → Response
response_of reads (failure status) = record {
  status = status;
  content_length = pos 0;
  content = λ p. 0;
  reads = [];
}
response_of reads (sent etag content (whole n)) = record {
  status = 200;
  content_length = pos n;
  content = content;
  reads = reads;
}
response_of reads (sent etag content unsatisfiable) = record {
  status = 416;
  content_length = pos 0;
  content = content;
  reads = [];
}
response_of reads (sent etag content (partial start last length)) = record {
  status = 206;
  content_length = length;
  content = content;
  reads = reads;
}
