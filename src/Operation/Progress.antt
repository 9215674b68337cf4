-- ===== src/Operation/Progress.antt =====
-- The progress of an operation through its life, and that no method of the repositories undoes it.
use updater_service.Base.{
  ℕ, ℤ, ◌≤◌, suc, ◌≡◌, refl, String, Bool, true, false, ◌&&◌, Option, none, some, ◌==◌, string_eq,
  if◌then◌else◌, Outcome, served, refused, lost, call, ◌>>=◌, select, updated, select-update,
  select-append, arith,
}
use updater_service.Operation.{
  Time, Status, pending, dispatched, transferred, running, backup_created, applying,
  health_checking, succeeded, failed, rolling_back, rollback_health_checking, rolled_back,
  rollback_failed, other, status_eq, Operation,
}
use updater_service.Operation.Repository.{
  Operations, key, create, get, status_rank, may_advance, set_status, exec, advance_status, claim,
  claim_for_execution,
}
use updater_service.Operation.Monitor.{is_overdue, before, check}

-- How far a status is along the life of an operation; a text that is no status is behind them all.
abbrev pub level : Status → ℕ
level (other _) = 0
level pending = 1
level dispatched = 2
level running = 3
level transferred = 4
level backup_created = 5
level applying = 6
level health_checking = 7
level succeeded = 8
level failed = 8
level rolling_back = 9
level rollback_health_checking = 10
level rolled_back = 11
level rollback_failed = 12

-- The progress of the operation under a key: 0 where there is none.
abbrev pub stage_of : Option Operation → ℕ
stage_of none = 0
stage_of (some op) = suc (level op.status)

abbrev pub stage : String → Operations → ℕ
stage k rows = stage_of (select key k rows)

abbrev pub takes_effect : Outcome → Bool
takes_effect served = true
takes_effect (refused _) = false
takes_effect (lost _) = true

pub select-exec :
    (o : Outcome) (test : Operation → Bool) (next : Status) (now : Time) (k : String)
    (rows : Operations)
    → select key k (call o (exec test next now) rows).1 ≡ (
        if takes_effect o
        then updated key test (set_status next now) (select key k rows)
        else select key k rows)
unfolding set_status
select-exec served test next now k rows =
    select-update key test (set_status next now) k rows (λ r. refl)
select-exec (refused e) test next now k rows = refl
select-exec (lost e) test next now k rows =
    select-update key test (set_status next now) k rows (λ r. refl)

-- The statement's two CASEs together compare levels, except between the two ranked 7.
pub may_advance-level :
    (old next : Status) (rank : ℕ)
    → status_rank next ≡ some rank
    → (may_advance old rank next ≡ true → level old ≤ level next)
      × (may_advance old rank next ≡ false → level next ≤ level old)
unfolding may_advance status_rank
may_advance-level old next rank h = ground arith

pub status_rank-level :
    (next : Status) (rank : ℕ) → status_rank next ≡ some rank → level next ≡ suc rank
unfolding status_rank
status_rank-level next rank h = ground arith

module _ (o : Outcome) (next : Status) (now : Time) (rows : Operations) where
  -- A statement that selects only rows behind `next` moves no operation back.
  stage-exec :
      (test : Operation → Bool) (k : String)
      → ((op : Operation) → test op ≡ true → level op.status ≤ level next)
      → stage k rows ≤ stage k (call o (exec test next now) rows).1
  unfolding set_status
  stage-exec test k ahead = rw select-exec (on_row (select key k rows))
    where
      on_row :
          (row : Option Operation)
          → stage_of row
            ≤ stage_of (if takes_effect o then updated key test (set_status next now) row else row)
      on_row none = ground arith
      on_row (some op) = ground (arith, ahead op)

  -- What `AdvanceStatus` leaves: the state of its one statement, if the new status has a rank.
  pub rows-advance_status :
      (id : String)
      → (advance_status o now id next rows).1 ≡ elim (status_rank next) [
        | none ↦ rows
        | some rank ↦
            (call o (exec (λ op. op.id == id && may_advance op.status rank next) next now) rows).1
      ]
  unfolding advance_status ◌>>=◌
  rows-advance_status id = ground arith

  pub stage-advance_status :
      (id k : String) → stage k rows ≤ stage k (advance_status o now id next rows).1
  stage-advance_status id k = rw rows-advance_status (by_rank (status_rank next) refl)
    where
      by_rank :
          (r : Option ℕ)
          → status_rank next ≡ r
          → stage k rows
            ≤ stage k (elim r [
              | none ↦ rows
              | some rank ↦
                  (call o
                    (exec (λ op. op.id == id && may_advance op.status rank next) next now)
                    rows).1
            ])
      by_rank none e = omega arith
      by_rank (some rank) e =
          stage-exec _ k λ op t. (may_advance-level op.status next rank e).0 (ground arith)

pub rows-get : (o : Outcome) (id : String) (rows : Operations) → (get o id rows).1 ≡ rows
unfolding get ◌>>=◌
rows-get o id rows = ground arith

pub rows-claim_for_execution :
    (o reading : Outcome) (now : Time) (id : String) (rows : Operations)
    → (claim_for_execution o reading now id rows).1 ≡ (claim o now id rows).1
unfolding claim_for_execution ◌>>=◌
rows-claim_for_execution o reading now id rows =
    ground (arith, rows-get reading id (claim o now id rows).1)

-- Neither does the UPDATE of a claim, nor the reaper's.
pub stage-claim :
    (o : Outcome) (now : Time) (id k : String) (rows : Operations)
    → stage k rows ≤ stage k (claim o now id rows).1
unfolding claim
stage-claim o now id k rows = stage-exec o running now rows _ k (λ op t. ground arith)

pub stage-claim_for_execution :
    (o reading : Outcome) (now : Time) (id k : String) (rows : Operations)
    → stage k rows ≤ stage k (claim_for_execution o reading now id rows).1
stage-claim_for_execution o reading now id k rows =
    rw rows-claim_for_execution (stage-claim o now id k rows)

pub stage-check :
    (timeout : ℤ) (o : Outcome) (started now : Time) (k : String) (rows : Operations)
    → stage k rows ≤ stage k (check timeout o started now rows)
unfolding check
stage-check timeout o started now k rows =
    stage-exec o failed now rows (is_overdue (before started timeout)) k (λ op t. ground arith)

pub stage-create :
    (o : Outcome) (op : Operation) (k : String) (rows : Operations)
    → stage k rows ≤ stage k (create o op rows).1
unfolding create
stage-create o op k rows = ground (arith, select-append key k rows op)
