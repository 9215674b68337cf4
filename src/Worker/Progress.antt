-- ===== src/Worker/Progress.antt =====
-- A worker never moves an operation back.
use updater_service.Base.{ℕ, ◌≤◌, String, Result, Outcome, Act, Preserves, preserving, arith}
use updater_service.Operation.{Time, Status}
use updater_service.Operation.Repository
use updater_service.Operation.Repository.{Operations}
use updater_service.Operation.Progress.{stage, stage-advance_status, stage-claim, rows-get}
use updater_service.Operation.History.{history, stage-history}
use updater_service.Disk.{Disk}
use updater_service.Message.{UpdateCommand}
use updater_service.Worker.State.{
  World, Env, statement, on_disk, publish_result, restart, wait_until_healthy, advance_status,
  claim,
}
use updater_service.Worker.Parts.{IsStable, handle_command-keeps}
use updater_service.Worker.{download_file, handle_command}

module _ (env : Env) (n : ℕ) (k : String) where
  -- The operation `k` is at least as far along as `n`.
  abbrev AtLeast : World → Type 0
  AtLeast w = n ≤ stage k w.ops

  statement-AtLeast :
      {A : Type 0} (m : Outcome → Time → Act Operations A)
      → ((o : Outcome) (t : Time) (rows : Operations) → stage k rows ≤ stage k (m o t rows).1)
      → Preserves AtLeast (statement env m)
  unfolding statement
  statement-AtLeast m on = record {
    at = λ w h. omega (
      arith,
      stage-history (env.others w.calls) k w.ops,
      on (env.db w.calls) (env.clock w.calls) (history (env.others w.calls) w.ops),
    );
  }

  on_disk-AtLeast : {A : Type 0} (m : Act Disk A) → Preserves AtLeast (on_disk m)
  unfolding on_disk
  on_disk-AtLeast m = record { at = λ w h. h }

  publish_result-AtLeast :
      (id : String) (s : Status) (e : String) → Preserves AtLeast (publish_result env id s e)
  unfolding publish_result
  publish_result-AtLeast id s e = record { at = λ w h. ground arith }

  restart-AtLeast : (service : String) → Preserves AtLeast (restart env service)
  unfolding restart
  restart-AtLeast service = record { at = λ w h. ground arith }

  wait_until_healthy-AtLeast : (url : String) → Preserves AtLeast (wait_until_healthy env url)
  unfolding wait_until_healthy
  wait_until_healthy-AtLeast url = record { at = λ w h. h }

  get-AtLeast : (id : String) → Preserves AtLeast (statement env (λ o _. Repository.get o id))
  get-AtLeast id = statement-AtLeast _ (λ o t rows. rw rows-get (omega arith))

  advance_status-AtLeast : (id : String) (s : Status) → Preserves AtLeast (advance_status env id s)
  unfolding advance_status
  advance_status-AtLeast id s =
      let first =
        statement-AtLeast (λ o now. Repository.advance_status o now id s)
          (λ o t rows. stage-advance_status o s t rows id k) in
      search (preserving, get-AtLeast) depth 10

  claim-AtLeast : (id : String) → Preserves AtLeast (claim env id)
  unfolding claim
  claim-AtLeast id =
      let first =
        statement-AtLeast (λ o now. Repository.claim o now id)
          (λ o t rows. stage-claim o t id k rows) in
      search (preserving, get-AtLeast)

  AtLeast-IsStable : IsStable env AtLeast
  AtLeast-IsStable = record {
    calm = record {
      advancing = advance_status-AtLeast;
      restarting = restart-AtLeast;
      waiting = wait_until_healthy-AtLeast;
    };
    backing_up = λ t p. on_disk-AtLeast _;
    applying = λ t p. on_disk-AtLeast _;
    undoing = λ t p. on_disk-AtLeast _;
  }

  download_file-AtLeast : (c : UpdateCommand) → Preserves AtLeast (download_file env c)
  unfolding download_file on_disk
  download_file-AtLeast c = record { at = λ w h. h }

-- Handling a command never moves any operation back, whatever the other processes do meanwhile and
-- whichever calls fail.
stage-handle_command :
    (env : Env) (command : Result UpdateCommand) (k : String) (w : World)
    → stage k w.ops ≤ stage k (handle_command env command w).1.ops
stage-handle_command env command k w =
    let n = stage k w.ops in
    (handle_command-keeps env _ (AtLeast-IsStable env n k) (claim-AtLeast env n k)
        (download_file-AtLeast env n k) (λ s id e. publish_result-AtLeast env n k id s e)
        command).at
      w (omega arith)
