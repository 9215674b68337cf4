-- ===== src/Operation/Lookup.antt =====
-- What a row that was stored reads as, and the text of a status.
use updater_service.Base.{
  ◌≡◌, ◌≢◌, refl, String, none, ◌==◌, string_eq, if◌then◌else◌, served, ok, err, ◌>>=◌,
  duplicate_key, foreign_key, select, select-append, arith, string_dec,
}
use updater_service.Operation.{Status, status_text, parse_status, Operation, FileMetadata, other}
use updater_service.Operation.Repository.{Operations, key, create, get}
use updater_service.Operation.Files
use updater_service.Operation.Files.{Files, file_key}

-- After a served `Create`, `Get` returns the new operation under its id, and under any other id what
-- it returned before. A `Create` under an id that is taken fails, and stores nothing.
pub get-create :
    (op : Operation) (id : String) (rows : Operations)
    → (select key op.id rows ≡ none
        → ((create served op rows).0 ≡ ok tt)
          × ((get served id (create served op rows).1).0
              ≡ (if op.id == id then ok op else (get served id rows).0)))
      × (select key op.id rows ≢ none → create served op rows ≡ (err duplicate_key, rows))
unfolding create get ◌>>=◌
get-create op id rows = (λ h. ground (arith, select-append key id rows op), λ h. ground (arith))

-- A served `Create` of the metadata of a file, for an operation that exists and has none yet, stores
-- them: `Get` returns them under the id of the operation, and under any other id what it returned
-- before. A `Create` for an operation that does not exist, or that has metadata, fails and stores
-- nothing.
pub get-create_file :
    (ops : Operations) (meta : FileMetadata) (id : String) (rows : Files)
    → (select key meta.operation_id ops ≢ none
        → select file_key meta.operation_id rows ≡ none
        → ((Files.create ops served meta rows).0 ≡ ok tt)
          × ((Files.get served id (Files.create ops served meta rows).1).0
              ≡ (if meta.operation_id == id then ok meta else (Files.get served id rows).0)))
      × (select key meta.operation_id ops ≡ none
          → select file_key meta.operation_id rows ≡ none
          → Files.create ops served meta rows ≡ (err foreign_key, rows))
      × (select file_key meta.operation_id rows ≢ none
          → Files.create ops served meta rows ≡ (err duplicate_key, rows))
unfolding Files.create Files.get ◌>>=◌
get-create_file ops meta id rows = (
  λ h k. ground (arith, select-append file_key id rows meta),
  λ h k. ground arith,
  λ h. ground arith,
)

-- The text of a status constant reads back as that status.
parse_status-status_text :
    (s : Status) → ((t : String) → s ≢ other t) → parse_status (status_text s) ≡ s
unfolding parse_status status_text string_dec
parse_status-status_text (other s) h = absurd (h s refl)
parse_status-status_text Status.pending h = refl
parse_status-status_text _ h = refl
