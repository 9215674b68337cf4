-- ===== src/Worker/Rollback.antt =====
-- A worker publishes ROLLED_BACK only when the configuration file is what it was.
pub mod Silence
pub mod Restoring
pub mod Saving
use updater_service.Base.{
  ℕ, String, ◌≡◌, ◌≢◌, refl, ◌∙◌, Bool, true, false, Option, some, [], ◌∷◌, Result, ok, err, Act,
  Preserves, ◌>>◌, Preserves-attempt, pure, Ensures, Ensures-keeps, Ensures-weaken, Ensures-bind,
  arith, ◌>>=◌, ◌==◌, string_eq, if◌then◌else◌, on_result, on_equal,
}
use updater_service.Operation.{
  Time, Status, failed, rolled_back, succeeded, status_text, transferred, running,
}
use updater_service.Disk.{Disk}
use updater_service.Message.{UpdateCommand}
use updater_service.Services.{ServiceDefinition}
use updater_service.Worker.State.{World, Env, on_disk, publish_result, claim}
use updater_service.Worker.Said.{newest, claim-About}
use updater_service.Worker.{
  backup_path, rollback_operation, deploy, fail_operation, is_stale, staging_path, download_file,
  execute, handle_command,
}
use updater_service.Worker.Rollback.Silence.{
  IsFaithful, Original, Ready, Honest, publish-About, publish-Silent, not_succeeded, not_running,
  not_transferred, Silent-Honest, failing, quiet,
}
use updater_service.Worker.Rollback.Restoring.{Ready-quiet, rolling}
use updater_service.Worker.Rollback.Saving.{updating}

module _ (env : Env) (command : UpdateCommand) (service : ServiceDefinition)
    (c : Option String) where
  module _
      (laws : (t : Time)
        → IsFaithful env.deployer
            (staging_path env command)
            service.config_path
            (backup_path env command service t)) where
    deploying :
        env.service command.service ≡ some service
        → Ensures
            (Original env command service c)
            (deploy env command (staging_path env command))
            (λ _. (Honest env command service c))
            (Honest env command service c)
    unfolding deploy
    deploying known =
        Ensures-bind (updating env command service c laws known)
          (λ update. by_update update.0 update.1)
      where
        by_update :
            (path : String) (r : Result (Unit {0}))
            → Ensures {A = Unit {0}}
                (Ready env command service c path)
                (on_result r
                  (λ e.
                    if path == ""
                    then fail_operation env command.operation_id e
                    else rollback_operation env command path e)
                  (λ _. publish_result env command.operation_id succeeded ""))
                (λ _. (Honest env command service c))
                (Honest env command service c)
        by_update path (ok tt) = (Ready-quiet env command service c) path (
            (publish-Silent env command service c) succeeded (not_succeeded env command service c)
              command.operation_id "")
        by_update path (err e) =
            on_equal
              (λ (m : Act World Unit).
                Ensures (Ready env command service c path) m (λ _. (Honest env command service c))
                  (Honest env command service c))
              path "" _ _
              (λ _.
                (Ready-quiet env command service c) path
                  (failing env command service c command.operation_id e))
              (λ some_. (rolling env command service c) path e some_ known)

    publish-Original :
        (s : Status)
        → some (status_text s) ≢ some (status_text rolled_back)
        → (id e : String) → Preserves (Original env command service c) (publish_result env id s e)
    publish-Original s other id e =
        (publish-About env command service c)
          (λ d l. (newest l ≢ some (status_text rolled_back)) × (d.files service.config_path ≡ c))
          id e s (λ d l h. (other, h.1))

    -- First an action that keeps `Original`.
    first-Original :
        {A B : Type 0} {m : Act World A} {f : A → Act World B}
        → Preserves (Original env command service c) m
        → ((a : A)
            → Ensures
                (Original env command service c)
                (f a)
                (λ _. (Honest env command service c))
                (Honest env command service c))
        → Ensures
            (Original env command service c)
            (m >>= f)
            (λ _. (Honest env command service c))
            (Honest env command service c)
    first-Original k u =
        Ensures-bind
          (Ensures-weaken {E = (Honest env command service c)} (Ensures-keeps k) (λ w h. h)
            (λ a w h. h) (λ w h. (Silent-Honest env command service c) w h.0))
          u

    module _ (known : env.service command.service ≡ some service)
        (downloading : (n : ℕ) (url sha256 : String) (size : ℕ) (d : Disk)
          → (env.download n url (staging_path env command) size sha256 d).1.files
              service.config_path
            ≡ d.files service.config_path) where
      fetching : Preserves (Original env command service c) (download_file env command)
      unfolding download_file on_disk
      fetching = record { at = λ w h. (h.0, downloading w.calls _ _ _ w.disk ∙ h.1) }

      executing :
          Ensures
            (Original env command service c)
            (execute env command)
            (λ _. (Honest env command service c))
            (Honest env command service c)
      unfolding execute
      executing =
          first-Original
            (publish-Original running (not_running env command service c) command.operation_id "")
            (λ _. first-Original (Preserves-attempt _ fetching) by_result)
        where
          by_result :
              (r : Result (Unit {0}))
              → Ensures {A = Unit {0}}
                  (Original env command service c)
                  (on_result r
                    (λ e. fail_operation env command.operation_id e)
                    (λ _. do
                      publish_result env command.operation_id transferred ""
                      deploy env command (staging_path env command)))
                  (λ _. (Honest env command service c))
                  (Honest env command service c)
          by_result (ok tt) =
              first-Original
                (publish-Original transferred (not_transferred env command service c)
                  command.operation_id "")
                (λ _. deploying known)
          by_result (err e) =
              Ensures-weaken
                (quiet env command service c (failing env command service c command.operation_id e))
                (λ w h. h.0) (λ a w h. h) (λ w h. h)

      doing_nothing :
          Ensures
            (Original env command service c)
            (pure tt)
            (λ _. (Honest env command service c))
            (Honest env command service c)
      unfolding pure
      doing_nothing = record { at = λ w h. (Silent-Honest env command service c) w h.0 }

      handling :
          Ensures
            (Original env command service c)
            (handle_command env (ok command))
            (λ _. (Honest env command service c))
            (Honest env command service c)
      unfolding handle_command
      handling = by_stale (is_stale env command)
        where
          by_claim :
              (b : Bool)
              → Ensures
                  (Original env command service c)
                  (if b then execute env command else pure tt)
                  (λ _. (Honest env command service c))
                  (Honest env command service c)
          by_claim true = executing
          by_claim false = doing_nothing

          by_stale :
              (b : Bool)
              → Ensures {A = Unit {0}}
                  (Original env command service c)
                  (if b then pure tt else do
                    claimed ← claim env command.operation_id
                    if claimed then execute env command else pure tt)
                  (λ _. (Honest env command service c))
                  (Honest env command service c)
          by_stale true = doing_nothing
          by_stale false =
              first-Original
                (claim-About env
                  (λ d l.
                    (newest l ≢ some (status_text rolled_back)) × (d.files service.config_path ≡ c))
                  command.operation_id)
                by_claim

-- When a worker that had published nothing handles a command for a service that it knows, with a
-- deployer that keeps its laws and a download that leaves the configuration file alone, and the
-- last result that it published is ROLLED_BACK, then the configuration file holds what it held
-- before the command, whichever calls failed and whatever other processes did meanwhile.
pub rolled_back-restored :
    (env : Env) (command : UpdateCommand) (service : ServiceDefinition) (w : World)
    → ((t : Time)
        → IsFaithful env.deployer
            (staging_path env command)
            service.config_path
            (backup_path env command service t))
    → env.service command.service ≡ some service
    → ((n : ℕ) (url sha256 : String) (size : ℕ) (d : Disk)
        → (env.download n url (staging_path env command) size sha256 d).1.files service.config_path
          ≡ d.files service.config_path)
    → w.outbox ≡ []
    → newest (handle_command env (ok command) w).1.outbox ≡ some "ROLLED_BACK"
    → (handle_command env (ok command) w).1.disk.files service.config_path
      ≡ w.disk.files service.config_path
unfolding status_text
rolled_back-restored env command service w laws known downloading fresh said =
    by_result (handle_command env (ok command) w).0
      ((handling env command service (w.disk.files service.config_path) laws known downloading).at w
        (λ h. ground (arith, h, fresh), refl))
      said
  where
    by_result : {T : Type 0} (r : Result (Unit {0})) → on_result r (λ _. T) (λ _. T) → T
    by_result (ok a) t = t
    by_result (err e) t = t
