-- ===== src/Worker/Rollback/Saving.antt =====
-- internal/worker/handler.go: `executeUpdate` leaves a backup of the original file.
use updater_service.Base.{
  String, ◌≡◌, ◌≢◌, refl, ◌∙◌, Bool, true, false, Option, some, Result, ok, err, Preserves,
  Preserves-attempt, pure, wrapped, Ensures, Post, Ensures-keeps, Ensures-weaken, Ensures-attempt,
  Ensures-bind, ◌>>=◌, string_eq, if◌then◌else◌, on_result, attempt,
}
use updater_service.Operation.{Time, rolled_back, status_text}
use updater_service.Message.{UpdateCommand}
use updater_service.Services.{ServiceDefinition}
use updater_service.Worker.State.{World, Env, on_disk}
use updater_service.Worker.Parts.{IsCalm, require-keeps, install_update-keeps}
use updater_service.Worker.Said.{newest}
use updater_service.Worker.{
  backup_path, backup_path_of, make_backup, install_update, execute_update, staging_path,
}
use updater_service.Worker.Rollback.Silence.{
  IsFaithful, Silent, Original, Ready, Honest, calm, Silent-Honest, Ready-IsCalm,
}

module _ (env : Env) (command : UpdateCommand) (service : ServiceDefinition)
    (c : Option String) where
  -- What `executeUpdate` returns.
  abbrev pub Updated : (String × Result (Unit {0})) → World → Type 0
  Updated update w = (Ready env command service c) update.0 w

  empty_path : (w : World) → Silent env command service c w → Ready env command service c "" w
  empty_path w h = (h, λ n. absurd (n refl))

  apply_Ready :
      (path : String)
      → Preserves
          (Ready env command service c path)
          (on_disk (env.deployer.apply (staging_path env command) service.config_path))
  unfolding on_disk
  apply_Ready path = record {
    at = λ w h. (h.0, λ n. let b = h.1 n in (b.1.spares_backup w.disk ∙ b.0, b.1));
  }

  installing :
      (path : String)
      → Preserves
          (Ready env command service c path)
          (install_update env command service (staging_path env command))
  installing path =
      install_update-keeps env (Ready env command service c path)
        (Ready-IsCalm env command service c path) command service (staging_path env command)
        (apply_Ready path)

  -- The target is what it was, and the deployer keeps its laws for a backup at `path`.
  abbrev Found : String → World → Type 0
  Found path w =
      (Original env command service c) w
      × IsFaithful env.deployer (staging_path env command) service.config_path path

  Found-IsCalm : (path : String) → IsCalm env (Found path)
  Found-IsCalm path = (calm env command service c) (λ d l.
      ((newest l ≢ some (status_text rolled_back)) × (d.files service.config_path ≡ c))
      × IsFaithful env.deployer (staging_path env command) service.config_path path)

  saving :
      (path : String)
      → Ensures
          (Found path)
          (wrapped "backup failed" (on_disk (env.deployer.backup service.config_path path)))
          (λ created. (Ready env command service c) (if created then path else ""))
          (Silent env command service c)
  unfolding on_disk
  saving path = record {
    at = λ w h. by_result w h (env.deployer.backup service.config_path path w.disk).0 refl;
  }
    where
      by_result :
          (w : World)
          → Found path w
          → (r : Result Bool) → (env.deployer.backup service.config_path path w.disk).0 ≡ r
          → Post
              (λ created. (Ready env command service c) (if created then path else ""))
              (Silent env command service c)
              (wrapped "backup failed" (on_disk (env.deployer.backup service.config_path path)) w)
      by_result w h (ok true) e = rw e (h.0.0, λ n. (h.1.saves w.disk e ∙ h.0.1, h.1))
      by_result w h (ok false) e = rw e (h.0.0, λ n. absurd (n refl))
      by_result w h (err x) e = rw e h.0.0

  module _
      (laws : (t : Time)
        → IsFaithful env.deployer
            (staging_path env command)
            service.config_path
            (backup_path env command service t)) where
    making :
        Ensures
          (Original env command service c)
          (make_backup env command service)
          (Ready env command service c)
          (Silent env command service c)
    unfolding make_backup backup_path_of pure
    making =
        Ensures-bind {R = Found} (record { at = λ w h. (h, laws (env.clock w.calls)) })
          (λ path.
            Ensures-bind
              (Ensures-weaken
                (Ensures-keeps (require-keeps env (Found path) (Found-IsCalm path) _ _ _))
                (λ w h. h) (λ a w h. h) (λ w h. h.0.0))
              (λ _. Ensures-bind (saving path) (λ created. record { at = λ w h. h })))

    pub updating :
        env.service command.service ≡ some service
        → Ensures
            (Original env command service c)
            (execute_update env command (staging_path env command))
            Updated
            (Honest env command service c)
    unfolding execute_update pure
    updating known = rw known (
        Ensures-bind
          (Ensures-weaken {E = (Honest env command service c)}
            (Ensures-attempt {F = (Honest env command service c)} making) (λ w h. h) (λ r w h. h)
            (λ w h. h))
          by_backup)
      where
        by_backup :
            (r : Result String)
            → Ensures
                (λ w. Post (Ready env command service c) (Silent env command service c) (r, w))
                (on_result r
                  (λ e. pure ("", err e))
                  (λ path. do
                    result ← attempt (install_update env command service (staging_path env command))
                    pure (path, result)))
                Updated
                (Honest env command service c)
        by_backup (err e) = record { at = empty_path }
        by_backup (ok path) =
            Ensures-bind
              (Ensures-weaken {E = (Honest env command service c)}
                (Ensures-keeps (Preserves-attempt _ (installing path))) (λ w h. h) (λ r w h. h)
                (λ w h. (Silent-Honest env command service c) w h.0))
              (λ result. record { at = λ w h. h })
