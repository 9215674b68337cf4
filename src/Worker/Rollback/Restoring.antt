-- ===== src/Worker/Rollback/Restoring.antt =====
-- internal/worker/handler.go: `rollbackOperation` gives the target back what the backup holds.
use updater_service.Base.{
  String, ◌≡◌, ◌≢◌, refl, ◌∙◌, Bool, true, false, Option, some, Error, Result, ok, err, Act,
  Preserves, ◌>>◌, preserving, Preserves-ignore, Preserves-pure, pure, ignore, Ensures, Post,
  Ensures-keeps, Ensures-weaken, Ensures-attempt, Ensures-bind, ◌>>=◌, string_eq, if◌then◌else◌,
  on_result, attempt, error_text,
}
use updater_service.Operation.{failed, rolling_back}
use updater_service.Message.{UpdateCommand}
use updater_service.Services.{ServiceDefinition}
use updater_service.Worker.State.{World, Env, on_disk, publish_result, restart}
use updater_service.Worker.{
  restore_backup, rollback_operation, mark_rollback_failed, verify_rollback,
}
use updater_service.Worker.Rollback.Silence.{
  Silent, Restored, Ready, Honest, publish-Ready, not_failed, not_rolling, Silent-Honest,
  Ready-IsCalm, Restored-IsCalm, marking, marking-Restored, verifying, quiet, settled,
}

module _ (env : Env) (command : UpdateCommand) (service : ServiceDefinition)
    (c : Option String) where
  pub undoing :
      (path : String)
      → path ≢ ""
      → Ensures
          (Ready env command service c path)
          (on_disk (env.deployer.rollback path service.config_path))
          (λ _. (Restored env command service c))
          (Silent env command service c)
  unfolding on_disk
  undoing path some_ = record {
    at = λ w h. by_result w h (env.deployer.rollback path service.config_path w.disk).0 refl;
  }
    where
      by_result :
          (w : World)
          → Ready env command service c path w
          → (r : Result (Unit {0})) → (env.deployer.rollback path service.config_path w.disk).0 ≡ r
          → Post
              (λ _. (Restored env command service c))
              (Silent env command service c)
              (on_disk (env.deployer.rollback path service.config_path) w)
      by_result w h (ok tt) e = rw e (((h.1 some_).1).restores w.disk e ∙ (h.1 some_).0)
      by_result w h (err x) e = rw e h.0

  -- `restore_backup` with a backup.
  pub restoring :
      (path : String)
      → path ≢ ""
      → env.service command.service ≡ some service
      → Ensures
          (Ready env command service c path)
          (restore_backup env command path)
          (λ _. (Honest env command service c))
          (Honest env command service c)
  unfolding restore_backup
  restoring path some_ known = rw known (
      Ensures-bind
        (Ensures-weaken {E = (Honest env command service c)}
          (Ensures-attempt {F = (Honest env command service c)} (undoing path some_)) (λ w h. h)
          (λ r w h. h) (λ w h. h))
        by_result)
    where
      rest : Act World Unit
      rest = do
        restarted ← attempt (restart env command.service)
        on_result restarted (λ e. mark_rollback_failed env command.operation_id (error_text e))
            (λ _. verify_rollback env command service)

      by_result :
          (r : Result (Unit {0}))
          → Ensures
              (λ w.
                Post (λ _. (Restored env command service c)) (Silent env command service c) (r, w))
              (on_result r
                (λ e. mark_rollback_failed env command.operation_id (error_text e))
                (λ _. rest))
              (λ _. (Honest env command service c))
              (Honest env command service c)
      by_result (ok tt) = (settled env command service c) (
          search
            (
              preserving,
              (marking-Restored env command service c),
              (verifying env command service c),
              (Restored-IsCalm env command service c).restarting,
            )
            depth 10)
      by_result (err e) =
          (quiet env command service c)
            (marking env command service c command.operation_id (error_text e))

  -- First an action that keeps `Ready path`.
  pub first :
      {A B : Type 0} {m : Act World A} {f : A → Act World B} (path : String)
      → Preserves (Ready env command service c path) m
      → ((a : A)
          → Ensures
              (Ready env command service c path)
              (f a)
              (λ _. (Honest env command service c))
              (Honest env command service c))
      → Ensures
          (Ready env command service c path)
          (m >>= f)
          (λ _. (Honest env command service c))
          (Honest env command service c)
  first path k u =
      Ensures-bind
        (Ensures-weaken {E = (Honest env command service c)} (Ensures-keeps k) (λ w h. h)
          (λ a w h. h) (λ w h. (Silent-Honest env command service c) w h.0))
        u

  pub Ready-quiet :
      {A : Type 0} {m : Act World A} (path : String)
      → Preserves (Silent env command service c) m
      → Ensures
          (Ready env command service c path)
          m
          (λ _. (Honest env command service c))
          (Honest env command service c)
  Ready-quiet path k =
      Ensures-weaken (quiet env command service c k) (λ w h. h.0) (λ a w h. h) (λ w h. h)

  pub rolling :
      (path : String) (e : Error)
      → path ≢ ""
      → env.service command.service ≡ some service
      → Ensures
          (Ready env command service c path)
          (rollback_operation env command path e)
          (λ _. (Honest env command service c))
          (Honest env command service c)
  unfolding rollback_operation
  rolling path e some_ known =
      let id = command.operation_id in
      first path ((Ready-IsCalm env command service c path).advancing id failed) (λ _.
        first path
          (Preserves-ignore _ (
            (publish-Ready env command service c) failed (not_failed env command service c) path id
              (error_text e)))
          (λ _.
            first path ((Ready-IsCalm env command service c path).advancing id rolling_back)
              by_answer))
    where
      by_answer :
          (b : Bool)
          → Ensures
              (Ready env command service c path)
              (if b
                then (do
                  ignore (publish_result env command.operation_id rolling_back "")
                  restore_backup env command path)
                else pure tt)
              (λ _. (Honest env command service c))
              (Honest env command service c)
      by_answer true =
          first path
            (Preserves-ignore _ (
              (publish-Ready env command service c) rolling_back (not_rolling env command service c)
                path command.operation_id ""))
            (λ _. restoring path some_ known)
      by_answer false = Ready-quiet path (Preserves-pure tt)
