-- ===== src/Operation/Repository.antt =====
-- internal/operation/mariadb_op.go: the repository of operations, as methods on the rows of the table
-- that migrations/001_operations.sql creates. Every statement sent to the database has an `Outcome`;
-- the times are what `time.Now` returned.
use updater_service.Base.{
  ℕ, ℤ, pos, negsuc, ltb_ℤ, String, ◌<>◌, Bool, true, false, ◌&&◌, ◌||◌, Option, none, some, List,
  [], ◌∷◌, ◌++◌, ltb, leb, ◌==◌, string_eq, nat_eq, if◌then◌else◌, Outcome, served, refused, lost,
  call, Act, pure, raise, ◌>>=◌, ok, err, no_rows, duplicate_key, text, select, update, affected,
}
use updater_service.Operation.{
  Time, Status, pending, dispatched, transferred, running, backup_created, applying,
  health_checking, succeeded, failed, rolling_back, rollback_health_checking, rolled_back,
  rollback_failed, other, status_eq, status_text, Operation,
}

abbrev pub Operations : Type 0
Operations = List Operation

abbrev pub key : Operation → String
key op = op.id

-- INSERT INTO operations
unfoldable pub create : Outcome → Operation → Act Operations Unit
create (refused e) op rows = (err e, rows)
create served op rows = elim (select key op.id rows) [
  | none ↦ (ok tt, rows ++ op ∷ [])
  | some _ ↦ (err duplicate_key, rows)
]
create (lost e) op rows = elim (select key op.id rows) [
  | none ↦ (err e, rows ++ op ∷ [])
  | some _ ↦ (err e, rows)
]

unfoldable pub get : Outcome → String → Act Operations Operation
get o id = do
  row ← call o (λ rows. (select key id rows, rows))
  elim row [ none ↦ raise no_rows | some op ↦ pure op ]

unfoldable pub status_rank : Status → Option ℕ
status_rank pending = some 0
status_rank dispatched = some 1
status_rank running = some 2
status_rank transferred = some 3
status_rank backup_created = some 4
status_rank applying = some 5
status_rank health_checking = some 6
status_rank succeeded = some 7
status_rank failed = some 7
status_rank rolling_back = some 8
status_rank rollback_health_checking = some 9
status_rank rolled_back = some 10
status_rank rollback_failed = some 11
status_rank (other _) = none

-- The first CASE of the statement in `AdvanceStatus`.
unfoldable pub case_rank : Status → ℤ
case_rank pending = pos 0
case_rank dispatched = pos 1
case_rank running = pos 2
case_rank transferred = pos 3
case_rank backup_created = pos 4
case_rank applying = pos 5
case_rank health_checking = pos 6
case_rank succeeded = pos 7
case_rank failed = pos 7
case_rank rolling_back = pos 8
case_rank rollback_health_checking = pos 9
case_rank rolled_back = pos 10
case_rank rollback_failed = pos 11
case_rank (other _) = negsuc 0

-- The second CASE, compared with 7.
unfoldable pub case_final : Status → Bool
case_final succeeded = true
case_final failed = true
case_final _ = false

-- The WHERE clause of `AdvanceStatus`, without the test on `id`.
unfoldable pub may_advance : Status → ℕ → Status → Bool
unfolding case_rank case_final
may_advance old rank next = ltb_ℤ (case_rank old) (pos rank) || case_final old && old == next

-- SET status = ?, updated_at = ?
unfoldable pub set_status : Status → Time → Operation → Operation
set_status next now op = record op { status = next; updated_at = now }

unfoldable pub same_row : Operation → Operation → Bool
same_row a b = a.status == b.status && a.updated_at == b.updated_at

-- UPDATE operations SET status = ?, updated_at = ? WHERE test
abbrev pub exec : (Operation → Bool) → Status → Time → Operations → ℕ × Operations
exec test next now rows =
    (affected test (set_status next now) same_row rows, update test (set_status next now) rows)

unfoldable pub advance_status : Outcome → Time → String → Status → Act Operations Bool
unfolding status_rank may_advance set_status same_row
advance_status o now id next = elim (status_rank next) [
  | none ↦ raise (text ("invalid operation status: \"" <> status_text next <> "\""))
  | some rank ↦ do
    rows ← call o (exec (λ op. op.id == id && may_advance op.status rank next) next now)
    pure (ltb 0 rows)
]

-- The UPDATE of `ClaimForExecution`.
unfoldable pub claim : Outcome → Time → String → Act Operations ℕ
unfolding set_status same_row
claim o now id = call o (exec (λ op. op.id == id && op.status == dispatched) running now)

unfoldable pub claim_for_execution :
    Outcome → Outcome → Time → String → Act Operations (Bool × Operation)
claim_for_execution claiming reading now id = do
  rows ← claim claiming now id
  op ← get reading id
  pure (rows == 1, op)

-- ORDER BY created_at ASC
unfoldable pub insert_by_age : Operation → Operations → Operations
insert_by_age op [] = op ∷ []
insert_by_age op (q ∷ rows) =
    let rest = insert_by_age op rows in
    if leb op.created_at q.created_at then op ∷ q ∷ rows else q ∷ rest

unfoldable pub order_by_age : Operations → Operations
unfolding insert_by_age
order_by_age [] = []
order_by_age (op ∷ rows) = insert_by_age op (order_by_age rows)

unfoldable pub list_all : Outcome → Act Operations Operations
unfolding order_by_age
list_all o = call o (λ rows. (order_by_age rows, rows))
