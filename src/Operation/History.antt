-- ===== src/Operation/History.antt =====
-- The calls that the entry, the workers and the reaper make on the table of operations, in the order
-- in which the database serves them: any interleaving of any number of processes.
use updater_service.Base.{
  ℕ, ℤ, ◌+◌, ◌≤◌, ◌<◌, ◌≡◌, refl, String, Bool, true, false, ◌&&◌, Option, none, some, List, [],
  ◌∷◌, ◌==◌, string_eq, nat_eq, if◌then◌else◌, Outcome, Option-cases, inl, inr, Result, ok, err,
  call, ◌>>=◌, select, IsKeyed, affected_keyed, select-IsAt, update-IsKeyed, append-IsKeyed, leb,
  arith,
}
use updater_service.Operation.{Time, Status, dispatched, running, failed, status_eq, Operation}
use updater_service.Operation.Repository.{
  Operations, key, create, set_status, same_row, exec, advance_status, claim, claim_for_execution,
  status_rank, may_advance,
}
use updater_service.Operation.Monitor.{check}
use updater_service.Operation.Progress.{
  stage, select-exec, rows-advance_status, rows-claim_for_execution, stage-advance_status,
  stage-claim_for_execution, stage-check, stage-create,
}

pub data Event : Type 0 where
  creating : Outcome → Operation → Event
  advancing : Outcome → Time → String → Status → Event
  claiming : Outcome → Outcome → Time → String → Event
  expiring : ℤ → Outcome → Time → Time → Event

unfoldable pub step : Event → Operations → Operations
step (creating o op) rows = (create o op rows).1
step (advancing o now id next) rows = (advance_status o now id next rows).1
step (claiming o reading now id) rows = (claim_for_execution o reading now id rows).1
step (expiring timeout o started now) rows = check timeout o started now rows

unfoldable pub history : List Event → Operations → Operations
unfolding step
history [] rows = rows
history (e ∷ es) rows = history es (step e rows)

abbrev won : Result (Bool × Operation) → ℕ
won (ok (true, _)) = 1
won (ok (false, _)) = 0
won (err _) = 0

-- 1 if the event is a claim of `id` that tells its worker to execute the operation.
unfoldable pub wins : String → Event → Operations → ℕ
wins id (claiming o reading now k) rows =
    if k == id then won (claim_for_execution o reading now k rows).0 else 0
wins id _ rows = 0

-- How often workers are told to execute `id`.
unfoldable pub executions : String → List Event → Operations → ℕ
unfolding wins
executions id [] rows = 0
executions id (e ∷ es) rows = wins id e rows + executions id es (step e rows)

pub stage-step : (e : Event) (k : String) (rows : Operations) → stage k rows ≤ stage k (step e rows)
unfolding step
stage-step (creating o op) k rows = stage-create o op k rows
stage-step (advancing o now id next) k rows = stage-advance_status o next now rows id k
stage-step (claiming o reading now id) k rows = stage-claim_for_execution o reading now id k rows
stage-step (expiring timeout o started now) k rows = stage-check timeout o started now k rows

-- Whatever the processes do, and whichever of their calls fail or lose their reply, no operation
-- moves back to an earlier status.
pub stage-history :
    (es : List Event) (k : String) (rows : Operations) → stage k rows ≤ stage k (history es rows)
unfolding history
stage-history [] k rows = omega arith
stage-history (e ∷ es) k rows = omega (arith, stage-step e k rows, stage-history es k (step e rows))

exec-IsKeyed :
    (o : Outcome) (test : Operation → Bool) (next : Status) (now : Time) (rows : Operations)
    → IsKeyed key rows
    → IsKeyed key (call o (exec test next now) rows).1
unfolding set_status
exec-IsKeyed o test next now rows h =
    elim o as (λ o. IsKeyed key (call o (exec test next now) rows).1) [
      | Outcome.served ↦ update-IsKeyed key test (set_status next now) rows (λ r. refl) h
      | Outcome.refused e ↦ h
      | Outcome.lost e ↦ update-IsKeyed key test (set_status next now) rows (λ r. refl) h
    ]

create-IsKeyed :
    (o : Outcome) (op : Operation) (rows : Operations)
    → IsKeyed key rows
    → IsKeyed key (create o op rows).1
unfolding create
create-IsKeyed (Outcome.refused e) op rows h = h
create-IsKeyed Outcome.served op rows h = elim (Option-cases (select key op.id rows)) [
  | inl fresh ↦ rw (fresh, create) (append-IsKeyed key rows op fresh h)
  | inr (q, taken) ↦ rw (taken, create) h
]
create-IsKeyed (Outcome.lost e) op rows h = elim (Option-cases (select key op.id rows)) [
  | inl fresh ↦ rw (fresh, create) (append-IsKeyed key rows op fresh h)
  | inr (q, taken) ↦ rw (taken, create) h
]

advance-IsKeyed :
    (o : Outcome) (now : Time) (id : String) (next : Status) (r : Option ℕ) (rows : Operations)
    → IsKeyed key rows
    → IsKeyed key (elim r [
      | none ↦ rows
      | some rank ↦
          (call o (exec (λ op. op.id == id && may_advance op.status rank next) next now) rows).1
    ])
advance-IsKeyed o now id next none rows h = h
advance-IsKeyed o now id next (some rank) rows h = exec-IsKeyed o _ next now rows h

-- The primary key stays one.
pub step-IsKeyed : (e : Event) (rows : Operations) → IsKeyed key rows → IsKeyed key (step e rows)
unfolding step claim check create
step-IsKeyed (creating o op) rows h = create-IsKeyed o op rows h
step-IsKeyed (advancing o now id next) rows h =
    rw rows-advance_status (advance-IsKeyed o now id next (status_rank next) rows h)
step-IsKeyed (claiming o reading now id) rows h =
    rw rows-claim_for_execution (exec-IsKeyed o _ running now rows h)
step-IsKeyed (expiring timeout o started now) rows h = exec-IsKeyed o _ failed now rows h

pub history-IsKeyed :
    (es : List Event) (rows : Operations) → IsKeyed key rows → IsKeyed key (history es rows)
unfolding history
history-IsKeyed [] rows h = h
history-IsKeyed (e ∷ es) rows h = history-IsKeyed es (step e rows) (step-IsKeyed e rows h)

won_found :
    (o reading : Outcome) (now : Time) (id : String) (rows : Operations)
    → IsKeyed key rows
    → 0 < won (claim_for_execution o reading now id rows).0
    → (stage id rows ≡ 3) × (stage id (claim o now id rows).1 ≡ 4)
unfolding claim_for_execution claim ◌>>=◌
won_found (Outcome.refused e) reading now id rows h p = absurd (omega arith)
won_found (Outcome.lost e) reading now id rows h p = absurd (omega arith)
won_found Outcome.served reading now id rows h p = ground (
  arith,
  affected_keyed key (λ op. op.status == dispatched) (set_status running now) same_row id rows h,
  select-exec Outcome.served (λ op. op.id == id && op.status == dispatched) running now id rows,
  select-IsAt key id rows,
)

-- A claim that wins found the operation dispatched, and leaves it running.
wins_found :
    (id : String) (e : Event) (rows : Operations)
    → IsKeyed key rows
    → (wins id e rows ≤ 1)
      × (0 < wins id e rows → (stage id rows ≡ 3) × (stage id (step e rows) ≡ 4))
unfolding wins step
wins_found id (claiming o reading now k) rows h =
    ground (arith, won_found o reading now k rows h, rows-claim_for_execution o reading now k rows)
wins_found id _ rows h = (omega arith, λ p. absurd (omega arith))

executions_bound :
    (id : String) (es : List Event) (rows : Operations)
    → IsKeyed key rows
    → executions id es rows ≤ (if leb 4 (stage id rows) then 0 else 1)
unfolding executions
executions_bound id [] rows h = ground arith
executions_bound id (e ∷ es) rows h = ground (
  arith,
  executions_bound id es (step e rows) (step-IsKeyed e rows h),
  wins_found id e rows h,
  stage-step e id rows,
)

-- From a table with unique ids, no sequence of events makes workers execute one operation twice:
-- whatever other workers claim, the entry advances and the reaper expires, and whichever calls fail.
pub executed_once :
    (id : String) (es : List Event) (rows : Operations)
    → IsKeyed key rows
    → executions id es rows ≤ 1
executed_once id es rows h = ground (arith, executions_bound id es rows h)
