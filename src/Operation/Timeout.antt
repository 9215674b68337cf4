-- ===== src/Operation/Timeout.antt =====
-- Which operations the reaper fails, and which it leaves alone for ever.
use updater_service.Base.{
  ℤ, ◌≤◌, ◌<◌, ◌≡◌, ◌⊎◌, String, true, false, some, List, [], ◌∷◌, served, select, arith,
}
use updater_service.Operation.{
  Time, Status, pending, backup_created, applying, rolling_back, rollback_health_checking, failed,
  Operation, is_terminal,
}
use updater_service.Operation.Repository.{Operations, key, set_status}
use updater_service.Operation.Monitor.{before, is_watched, is_overdue, check, Tick, run}
use updater_service.Operation.Progress.{select-exec}

-- After a check that the database serves, an operation that is dispatched, running, transferred or in
-- its health check was updated after the cutoff; and the row is as it was, or it is now failed and was
-- older than the cutoff.
pub check_expires :
    (timeout : ℤ) (started now : Time) (id : String) (rows : Operations) (op op' : Operation)
    → select key id rows ≡ some op
    → select key id (check timeout served started now rows) ≡ some op'
    → (is_watched op'.status ≡ true → before started timeout ≤ op'.updated_at)
      × ((op' ≡ op)
          ⊎ ((op' ≡ record op { status = failed; updated_at = now })
              × (op.updated_at < before started timeout)))
unfolding check is_overdue set_status is_watched
check_expires timeout started now id rows op op' found there =
    ground (arith, select-exec served (is_overdue (before started timeout)) failed now id rows)

check-spares :
    (timeout : ℤ) (t : Tick) (id : String) (rows : Operations) (op : Operation)
    → select key id rows ≡ some op
    → is_watched op.status ≡ false
    → select key id (check timeout t.outcome t.started t.now rows) ≡ some op
unfolding check is_overdue
check-spares timeout t id rows op found h =
    ground
      (arith, select-exec t.outcome (is_overdue (before t.started timeout)) failed t.now id rows)

abbrev pub IsStuck : Status → Type 0
IsStuck s =
    (s ≡ pending)
    ⊎ (s ≡ backup_created)
    ⊎ (s ≡ applying)
    ⊎ (s ≡ rolling_back)
    ⊎ (s ≡ rollback_health_checking)

-- The reaper never fails an operation that is pending, that was last seen at the backup, the apply or
-- in a rollback, however long it runs and however old the operation is; and none of these statuses is
-- terminal.
pub run_spares :
    (timeout : ℤ) (ticks : List Tick) (id : String) (rows : Operations) (op : Operation)
    → select key id rows ≡ some op
    → IsStuck op.status
    → (select key id (run timeout ticks rows) ≡ some op) × (is_terminal op.status ≡ false)
unfolding run is_watched is_terminal
run_spares timeout [] id rows op found s = ground arith
run_spares timeout (t ∷ ticks) id rows op found s =
    run_spares timeout ticks id (check timeout t.outcome t.started t.now rows) op
      (check-spares timeout t id rows op found (ground arith)) s
