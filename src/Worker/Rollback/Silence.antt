-- ===== src/Worker/Rollback/Silence.antt =====
-- internal/worker/handler.go: what is published, and what it says of the configuration file.
use updater_service.Base.{
  String, ◌≡◌, ◌≢◌, refl, true, false, Option, some, List, ◌∷◌, Error, ok, Outcome, served, refused,
  lost, Act, Preserves, Ensures, Ensures-keeps, Ensures-weaken, arith, ◌==◌, string_eq, string_dec,
  ne_of_beq,
}
use updater_service.Operation.{
  Status, failed, rolling_back, rollback_health_checking, rolled_back, rollback_failed, succeeded,
  status_text, transferred, running,
}
use updater_service.Disk.{Disk}
use updater_service.Message.{UpdateCommand, UpdateResult}
use updater_service.Services.{ServiceDefinition}
use updater_service.Worker.State.{World, Env, FileDeployer, publish_result}
use updater_service.Worker.Parts.{
  IsCalm, fail_operation-keeps, mark_rollback_failed-keeps, verify_rollback-keeps,
}
use updater_service.Worker.Said.{newest, NotSaid, Holds, About-IsCalm}
use updater_service.Worker.{mark_rollback_failed, fail_operation, verify_rollback, staging_path}

-- What the worker relies on in a deployer, for one target and one staged file: a backup and a
-- rollback that succeed copy the file, and applying an update leaves the backup's path alone.
pub record IsFaithful (deployer : FileDeployer) (staged target path : String) : Type 0 where
  pub saves :
      (d : Disk)
      → (deployer.backup target path d).0 ≡ ok true
      → (deployer.backup target path d).1.files path ≡ d.files target
  pub spares_backup : (d : Disk) → (deployer.apply staged target d).1.files path ≡ d.files path
  pub restores :
      (d : Disk)
      → (deployer.rollback path target d).0 ≡ ok tt
      → (deployer.rollback path target d).1.files target ≡ d.files path

module _ (env : Env) (command : UpdateCommand) (service : ServiceDefinition)
    (c : Option String) where
  abbrev target : String
  target = service.config_path

  -- ROLLED_BACK was not the last to be published.
  abbrev pub Silent : World → Type 0
  Silent w = NotSaid rolled_back w

  abbrev pub Restored : World → Type 0
  Restored w = Holds target c w

  abbrev pub Original : World → Type 0
  Original w = Silent w × Restored w

  abbrev staged : String
  staged = staging_path env command

  -- If there is a backup at `path`, it is one of the original file.
  abbrev pub Ready : String → World → Type 0
  Ready path w =
      Silent w × (path ≢ "" → Holds path c w × IsFaithful env.deployer staged target path)

  abbrev pub Honest : World → Type 0
  Honest w = newest w.outbox ≡ some (status_text rolled_back) → Restored w

  pub publish-About :
      (Q : Disk → List UpdateResult → Type 0) (id e : String) (s : Status)
      → ((d : Disk) (l : List UpdateResult)
          → Q d l
          → Q d (record { operation_id = id; status = status_text s; error = e } ∷ l))
      → Preserves (λ w. Q w.disk w.outbox) (publish_result env id s e)
  unfolding publish_result
  publish-About Q id e s more = record { at = λ w h. by_outcome w (env.nats w.calls) refl h }
    where
      by_outcome :
          (w : World) (o : Outcome)
          → env.nats w.calls ≡ o
          → Q w.disk w.outbox
          → Q (publish_result env id s e w).1.disk (publish_result env id s e w).1.outbox
      by_outcome w served q h = rw (q, publish_result) (more w.disk w.outbox h)
      by_outcome w (refused x) q h = rw (q, publish_result) h
      by_outcome w (lost x) q h = rw (q, publish_result) (more w.disk w.outbox h)

  pub calm : (Q : Disk → List UpdateResult → Type 0) → IsCalm env (λ w. Q w.disk w.outbox)
  calm Q = About-IsCalm env Q

  -- A result with another status keeps the silence.
  pub publish-Silent :
      (s : Status)
      → some (status_text s) ≢ some (status_text rolled_back)
      → (id e : String) → Preserves Silent (publish_result env id s e)
  publish-Silent s other id e =
      publish-About (λ d l. newest l ≢ some (status_text rolled_back)) id e s (λ d l h. other)

  pub publish-Ready :
      (s : Status)
      → some (status_text s) ≢ some (status_text rolled_back)
      → (path id e : String) → Preserves (Ready path) (publish_result env id s e)
  publish-Ready s other path id e =
      publish-About
        (λ d l.
          (newest l ≢ some (status_text rolled_back))
          × (path ≢ "" → (d.files path ≡ c) × IsFaithful env.deployer staged target path))
        id e s (λ d l h. (other, h.1))

  pub publish-Restored :
      (s : Status) (id e : String) → Preserves Restored (publish_result env id s e)
  publish-Restored s id e = publish-About (λ d l. d.files target ≡ c) id e s (λ d l h. h)

  some_differs : (a b : String) → (a == b) ≡ false → some a ≢ some b
  some_differs a b h q = let differs = ne_of_beq a b h in ground (arith, differs, q)

  -- The other results.
  pub not_failed : some (status_text failed) ≢ some (status_text rolled_back)
  unfolding status_text string_dec
  not_failed = some_differs _ _ refl

  pub not_rolling : some (status_text rolling_back) ≢ some (status_text rolled_back)
  unfolding status_text string_dec
  not_rolling = some_differs _ _ refl

  pub not_rollback_failed : some (status_text rollback_failed) ≢ some (status_text rolled_back)
  unfolding status_text string_dec
  not_rollback_failed = some_differs _ _ refl

  pub not_succeeded : some (status_text succeeded) ≢ some (status_text rolled_back)
  unfolding status_text string_dec
  not_succeeded = some_differs _ _ refl

  pub not_running : some (status_text running) ≢ some (status_text rolled_back)
  unfolding status_text string_dec
  not_running = some_differs _ _ refl

  pub not_transferred : some (status_text transferred) ≢ some (status_text rolled_back)
  unfolding status_text string_dec
  not_transferred = some_differs _ _ refl

  pub Silent-Honest : (w : World) → Silent w → Honest w
  Silent-Honest w h e = absurd (h e)

  pub Restored-Honest : (w : World) → Restored w → Honest w
  Restored-Honest w h e = h

  pub Silent-IsCalm : IsCalm env Silent
  Silent-IsCalm = calm (λ d l. newest l ≢ some (status_text rolled_back))

  pub Ready-IsCalm : (path : String) → IsCalm env (Ready path)
  Ready-IsCalm path = calm (λ d l.
      (newest l ≢ some (status_text rolled_back))
      × (path ≢ "" → (d.files path ≡ c) × IsFaithful env.deployer staged target path))

  pub Restored-IsCalm : IsCalm env Restored
  Restored-IsCalm = calm (λ d l. d.files target ≡ c)

  pub marking : (id e : String) → Preserves Silent (mark_rollback_failed env id e)
  marking =
      mark_rollback_failed-keeps env Silent Silent-IsCalm
        (publish-Silent rollback_failed not_rollback_failed)

  pub marking-Restored : (id e : String) → Preserves Restored (mark_rollback_failed env id e)
  marking-Restored =
      mark_rollback_failed-keeps env Restored Restored-IsCalm (publish-Restored rollback_failed)

  pub failing : (id : String) (e : Error) → Preserves Silent (fail_operation env id e)
  failing = fail_operation-keeps env Silent Silent-IsCalm (publish-Silent failed not_failed)

  pub verifying : (d : ServiceDefinition) → Preserves Restored (verify_rollback env command d)
  verifying =
      verify_rollback-keeps env Restored Restored-IsCalm (publish-Restored rollback_health_checking)
        (publish-Restored rolled_back) (publish-Restored rollback_failed) command

  -- An action that keeps a stronger predicate is honest.
  pub quiet :
      {A : Type 0} {m : Act World A} → Preserves Silent m → Ensures Silent m (λ _. Honest) Honest
  quiet k = Ensures-weaken (Ensures-keeps k) (λ w h. h) (λ a. Silent-Honest) Silent-Honest

  pub settled :
      {A : Type 0} {m : Act World A}
      → Preserves Restored m
      → Ensures Restored m (λ _. Honest) Honest
  settled k = Ensures-weaken (Ensures-keeps k) (λ w h. h) (λ a. Restored-Honest) Restored-Honest
