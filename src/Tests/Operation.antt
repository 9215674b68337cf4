-- ===== src/Tests/Operation.antt =====
-- internal/operation: one operation at several points of its life.

use updater_service.Base.{
  pos, suc, ◌≤◌, ◌≡◌, ◌≢◌, ◌⊎◌, inl, inr, refl, none, some, List, [], ◌∷◌, true, false, served,
  lost, ok, err, text, duplicate_key, foreign_key, select, IsKeyed, string_dec, update, affected,
  ℕ_discrete, ◌>>=◌, if◌then◌else◌, ◌==◌, string_eq,
}
use updater_service.Operation.{
  Time, Status, pending, dispatched, running, transferred, backup_created, succeeded, failed,
  rolling_back, rolled_back, rollback_failed, Status-discrete, Operation, FileMetadata, is_terminal,
  status_text, parse_status,
}
use updater_service.Operation.Repository.{
  Operations, key, create, get, advance_status, claim_for_execution, status_rank,
}
use updater_service.Operation.Files
use updater_service.Operation.Files.{file_key}
use updater_service.Operation.Monitor.{before, is_watched, check, Tick, run}
use updater_service.Operation.Progress.{stage}
use updater_service.Operation.History.{
  Event, creating, advancing, claiming, expiring, history, executions, stage-history, executed_once,
}
use updater_service.Operation.Delivery.{deliver, furthest, stage-deliver}
use updater_service.Operation.Terminal.{verdict_stands, terminal_moves_on, rollback_failed_final}
use updater_service.Operation.Timeout.{check_expires, run_spares}
use updater_service.Operation.Lookup.{get-create, get-create_file}

abbrev op_in : Status → Operation
op_in s = record {
  id = "op-1";
  status = s;
  service = "hello-service";
  node_id = "node-1";
  created_at = 10;
  updated_at = 10;
}

abbrev rows_in : Status → Operations
rows_in s = op_in s ∷ []

found_in : (s : Status) → select key "op-1" (rows_in s) ≡ some (op_in s)
unfolding select string_dec
found_in s = refl

IsKeyed-in : (s : Status) → IsKeyed key (rows_in s)
unfolding select
IsKeyed-in s = (refl, tt)

-- Two workers race for an operation, and the first reply is lost; then a late result arrives.
abbrev race : List Event
race =
    claiming (lost (text "bad connection")) served 20 "op-1"
    ∷ claiming served served 21 "op-1"
    ∷ advancing served 22 "op-1" dispatched
    ∷ claiming served served 23 "op-1"
    ∷ expiring (pos 5) served 40 40
    ∷ []

abbrev clean_race : List Event
clean_race = claiming served served 21 "op-1" ∷ claiming served served 23 "op-1" ∷ []

clean_race_runs : executions "op-1" clean_race (rows_in dispatched) ≡ 1
unfolding executions history claim_for_execution updater_service.Operation.Repository.claim get
    select update affected string_dec Status-discrete ℕ_discrete ◌>>=◌
    updater_service.Operation.History.step
clean_race_runs = refl

executed_once_example : executions "op-1" race (rows_in dispatched) ≤ 1
executed_once_example = executed_once "op-1" race (rows_in dispatched) (IsKeyed-in dispatched)

stage-history_example :
    stage "op-1" (rows_in dispatched) ≤ stage "op-1" (history race (rows_in dispatched))
stage-history_example = stage-history race "op-1" (rows_in dispatched)

abbrev late : List (Time × Status)
late = (30, transferred) ∷ (31, succeeded) ∷ (32, running) ∷ []

abbrev late_again : List (Time × Status)
late_again = (31, succeeded) ∷ (30, transferred) ∷ (32, running) ∷ []

stage-deliver_example : stage "op-1" (deliver "op-1" late (rows_in running)) ≡ suc (furthest 3 late)
stage-deliver_example =
    stage-deliver "op-1" late (rows_in running) (op_in running) (found_in running)

verdict_stands_example :
    ((advance_status served 50 "op-1" failed (rows_in succeeded)).0 ≡ ok false)
    × (select key "op-1" (advance_status served 50 "op-1" failed (rows_in succeeded)).1
        ≡ some (op_in succeeded))
verdict_stands_example =
    verdict_stands 50 "op-1" failed (rows_in succeeded) (op_in succeeded) (IsKeyed-in succeeded)
      (found_in succeeded) (inl (refl, refl))

succeeded≢rollback_failed : succeeded ≢ rollback_failed
succeeded≢rollback_failed e = cc

succeeded_terminal : is_terminal succeeded ≡ true
unfolding is_terminal
succeeded_terminal = refl

terminal_moves_on_example :
    ((advance_status served 50 "op-1" rollback_failed (rows_in succeeded)).0 ≡ ok true)
    × (select key "op-1" (advance_status served 50 "op-1" rollback_failed (rows_in succeeded)).1
        ≡ some (record (op_in succeeded) { status = rollback_failed; updated_at = 50 }))
terminal_moves_on_example =
    terminal_moves_on 50 "op-1" (rows_in succeeded) (op_in succeeded) (IsKeyed-in succeeded)
      (found_in succeeded) succeeded_terminal succeeded≢rollback_failed

rollback_failed_final_example :
    (op' : Operation) × (select key "op-1" (history race (rows_in rollback_failed)) ≡ some op')
    × (op'.status ≡ rollback_failed)
rollback_failed_final_example =
    rollback_failed_final race "op-1" (rows_in rollback_failed) (op_in rollback_failed)
      (found_in rollback_failed) refl

expired :
    select key "op-1" (check (pos 5) served 40 41 (rows_in running))
    ≡ some (record (op_in running) { status = failed; updated_at = 41 })
unfolding check select update string_dec
expired = refl

check_expires_example :
    (is_watched failed ≡ true → before 40 (pos 5) ≤ 41)
    × ((record (op_in running) { status = failed; updated_at = 41 } ≡ op_in running)
        ⊎ ((record (op_in running) { status = failed; updated_at = 41 }
              ≡ record (op_in running) { status = failed; updated_at = 41 })
            × (suc 10 ≤ before 40 (pos 5))))
check_expires_example =
    check_expires (pos 5) 40 41 "op-1" (rows_in running) (op_in running)
      (record (op_in running) { status = failed; updated_at = 41 }) (found_in running) expired

abbrev ages : List Tick
ages = record { outcome = served; started = 1000000; now = 1000000 } ∷ []

run_spares_example :
    (select key "op-1" (run (pos 5) ages (rows_in backup_created)) ≡ some (op_in backup_created))
    × (is_terminal backup_created ≡ false)
run_spares_example =
    run_spares (pos 5) ages "op-1" (rows_in backup_created) (op_in backup_created)
      (found_in backup_created) (inr (inl refl))

get-create_example :
    (select key "op-1" [] ≡ none
      → ((create served (op_in pending) []).0 ≡ ok tt)
        × ((get served "op-2" (create served (op_in pending) []).1).0 ≡ (
            if (op_in pending).id == "op-2" then ok (op_in pending) else (get served "op-2" []).0)))
    × (select key "op-1" [] ≢ none → create served (op_in pending) [] ≡ (err duplicate_key, []))
get-create_example = get-create (op_in pending) "op-2" []

abbrev meta : FileMetadata
meta = record {
  operation_id = "op-1";
  file_name = "config.yaml";
  file_path = "/uploads/1";
  file_size = 12;
  sha256 = "ab";
  created_at = 11;
  status = "READY";
}

get-create_file_example :
    (select key "op-1" (rows_in pending) ≢ none
      → select file_key "op-1" [] ≡ none
      → ((Files.create (rows_in pending) served meta []).0 ≡ ok tt)
        × ((Files.get served "op-2" (Files.create (rows_in pending) served meta []).1).0
            ≡ (if meta.operation_id == "op-2" then ok meta else (Files.get served "op-2" []).0)))
    × (select key "op-1" (rows_in pending) ≡ none
        → select file_key "op-1" [] ≡ none
        → Files.create (rows_in pending) served meta [] ≡ (err foreign_key, []))
    × (select file_key "op-1" [] ≢ none
        → Files.create (rows_in pending) served meta [] ≡ (err duplicate_key, []))
get-create_file_example = get-create_file (rows_in pending) meta "op-2" []
