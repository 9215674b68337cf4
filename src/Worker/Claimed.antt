-- ===== src/Worker/Claimed.antt =====
-- internal/worker/handler.go: a command that the worker may not execute.
use updater_service.Base.{String, ◌≡◌, string_eq, nat_eq}
use updater_service.Operation.{Operation, status_eq}
use updater_service.Operation.Repository
use updater_service.Operation.Repository.{Operations}
use updater_service.Operation.History.{history}
use updater_service.Worker.State.{World, Env}

-- The disk, what was published and what was restarted are as before.
abbrev pub IsUntouched : World → World → Type 0
IsUntouched before after =
    (after.disk ≡ before.disk) × (after.outbox ≡ before.outbox) × (after.restarts ≡ before.restarts)

module _ (env : Env) (id : String) (w : World) where
  abbrev found : Operations
  found = history (env.others w.calls) w.ops
