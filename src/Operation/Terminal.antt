-- ===== src/Operation/Terminal.antt =====
-- What becomes of an operation in a status that `IsTerminal` calls terminal.
use updater_service.Base.{
  ℕ, ◌≡◌, ◌≢◌, String, true, false, ◌&&◌, Option, none, some, List, ◌==◌, string_eq, nat_eq,
  if◌then◌else◌, served, ok, ◌>>=◌, select, IsKeyed, affected_keyed, select-IsAt, not, ◌⊎◌, ◌≤◌,
  Option-cases, inl, inr, arith,
}
use updater_service.Operation.{
  Time, Status, succeeded, failed, rollback_failed, status_eq, Operation, is_terminal,
}
use updater_service.Operation.Repository.{
  Operations, key, status_rank, may_advance, set_status, same_row, advance_status,
}
use updater_service.Operation.Progress.{stage_of, select-exec}
use updater_service.Operation.History.{Event, history, stage-history}

-- The answer and the row after a served `AdvanceStatus` to a status of rank `rank`.
answer_and_row :
    (now : Time) (id : String) (next : Status) (rank : ℕ) (rows : Operations) (op : Operation)
    → IsKeyed key rows
    → select key id rows ≡ some op
    → status_rank next ≡ some rank
    → ((advance_status served now id next rows).0
        ≡ ok (may_advance op.status rank next && not (same_row op (set_status next now op))))
      × (select key id (advance_status served now id next rows).1
          ≡ some (if may_advance op.status rank next then set_status next now op else op))
unfolding advance_status ◌>>=◌
answer_and_row now id next rank rows op keyed found e = ground (
  arith,
  select-IsAt key id rows,
  affected_keyed key (λ op. may_advance op.status rank next) (set_status next now) same_row id rows
      keyed,
  select-exec served (λ op. op.id == id && may_advance op.status rank next) next now id rows,
)

-- Once an operation is recorded as succeeded, a result that says that it failed is refused and
-- changes nothing; and the other way round.
pub verdict_stands :
    (now : Time) (id : String) (next : Status) (rows : Operations) (op : Operation)
    → IsKeyed key rows
    → select key id rows ≡ some op
    → ((op.status ≡ succeeded) × (next ≡ failed)) ⊎ ((op.status ≡ failed) × (next ≡ succeeded))
    → ((advance_status served now id next rows).0 ≡ ok false)
      × (select key id (advance_status served now id next rows).1 ≡ some op)
unfolding status_rank may_advance
verdict_stands now id next rows op keyed found h =
    ground (arith, answer_and_row now id next 7 rows op keyed found)

-- A status that `IsTerminal` calls terminal is not final: unless it is ROLLBACK_FAILED, the operation
-- can be moved on to ROLLBACK_FAILED, also when it succeeded or was rolled back.
pub terminal_moves_on :
    (now : Time) (id : String) (rows : Operations) (op : Operation)
    → IsKeyed key rows
    → select key id rows ≡ some op
    → is_terminal op.status ≡ true
    → op.status ≢ rollback_failed
    → ((advance_status served now id rollback_failed rows).0 ≡ ok true)
      × (select key id (advance_status served now id rollback_failed rows).1
          ≡ some (record op { status = rollback_failed; updated_at = now }))
unfolding status_rank may_advance same_row set_status is_terminal
terminal_moves_on now id rows op keyed found t h =
    ground (arith, answer_and_row now id rollback_failed 11 rows op keyed found)

status_of : Option Operation → Option Status
status_of none = none
status_of (some op) = some op.status

furthest_level : (row : Option Operation) → 13 ≤ stage_of row → status_of row ≡ some rollback_failed
unfolding status_of
furthest_level row h = ground arith

-- ROLLBACK_FAILED is final: no sequence of calls, failing or not, moves an operation on from it.
pub rollback_failed_final :
    (es : List Event) (id : String) (rows : Operations) (op : Operation)
    → select key id rows ≡ some op
    → op.status ≡ rollback_failed
    → (op' : Operation) × (select key id (history es rows) ≡ some op')
      × (op'.status ≡ rollback_failed)
unfolding status_of
rollback_failed_final es id rows op found last =
    elim (Option-cases (select key id (history es rows))) [
      | inl gone ↦ absurd (ground (arith, gone, stage-history es id rows))
      | inr (op', there) ↦ (
        op',
        there,
        ground (
          arith,
          there,
          furthest_level (select key id (history es rows)),
          stage-history es id rows,
        ),
      )
    ]
