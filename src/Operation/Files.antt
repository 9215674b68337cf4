-- ===== src/Operation/Files.antt =====
-- internal/operation/mariadb_file.go: the metadata of uploaded files, one row for an operation. The
-- table of migrations/002 has a foreign key into `operations`.
use updater_service.Base.{
  String, none, some, List, [], ◌∷◌, ◌++◌, Outcome, served, refused, lost, call, Act, pure, raise,
  ◌>>=◌, ok, err, no_rows, duplicate_key, foreign_key, select,
}
use updater_service.Operation.{FileMetadata}
use updater_service.Operation.Repository
use updater_service.Operation.Repository.{Operations}

abbrev pub Files : Type 0
Files = List FileMetadata

abbrev pub file_key : FileMetadata → String
file_key meta = meta.operation_id

-- The row is checked against both keys before it is stored.
unfoldable pub create : Operations → Outcome → FileMetadata → Act Files Unit
create ops (refused e) meta rows = (err e, rows)
create ops served meta rows = elim (select file_key meta.operation_id rows) [
  | some _ ↦ (err duplicate_key, rows)
  | none ↦ elim (select Repository.key meta.operation_id ops) [
    | some _ ↦ (ok tt, rows ++ meta ∷ [])
    | none ↦ (err foreign_key, rows)
  ]
]
create ops (lost e) meta rows = elim (select file_key meta.operation_id rows) [
  | some _ ↦ (err e, rows)
  | none ↦ elim (select Repository.key meta.operation_id ops) [
    | some _ ↦ (err e, rows ++ meta ∷ [])
    | none ↦ (err e, rows)
  ]
]

unfoldable pub get : Outcome → String → Act Files FileMetadata
get o id = do
  row ← call o (λ rows. (select file_key id rows, rows))
  elim row [ none ↦ raise no_rows | some meta ↦ pure meta ]
