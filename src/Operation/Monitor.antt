-- ===== src/Operation/Monitor.antt =====
-- internal/operation/timeout_monitor.go: the worker's reaper of operations that stopped moving.
use updater_service.Base.{
  ℤ, ◌+◌, ◌-◌, pos_part, neg_part, Bool, true, false, ◌&&◌, List, [], ◌∷◌, ltb, Outcome, call,
}
use updater_service.Operation.{
  Time, Status, dispatched, running, transferred, health_checking, failed, Operation,
}
use updater_service.Operation.Repository.{Operations, exec, set_status, same_row}

-- t.Add(-d). An instant before the epoch is the epoch: no row is older than either.
unfoldable pub before : Time → ℤ → Time
before t d = t + neg_part d - pos_part d

-- status IN (?, ?, ?, ?)
unfoldable pub is_watched : Status → Bool
is_watched dispatched = true
is_watched running = true
is_watched transferred = true
is_watched health_checking = true
is_watched _ = false

unfoldable pub is_overdue : Time → Operation → Bool
unfolding is_watched
is_overdue cutoff op = is_watched op.status && ltb op.updated_at cutoff

-- The two readings of the clock, for the cutoff and for the new `updated_at`. The result and the
-- error of the statement are dropped.
unfoldable pub check : ℤ → Outcome → Time → Time → Operations → Operations
unfolding before is_overdue set_status same_row
check timeout o started now rows =
    (call o (exec (is_overdue (before started timeout)) failed now) rows).1

pub record Tick : Type 0 where
  pub outcome : Outcome
  pub started : Time
  pub now : Time

-- `Run` checks at once, and then at each tick until the context is done.
unfoldable pub run : ℤ → List Tick → Operations → Operations
run timeout [] rows = rows
run timeout (t ∷ ticks) rows = run timeout ticks (check timeout t.outcome t.started t.now rows)
