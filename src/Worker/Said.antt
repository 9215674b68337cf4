-- ===== src/Worker/Said.antt =====
-- What the worker has published, and what it leaves on the disk, are kept by calls of other kinds.
use updater_service.Base.{
  String, ◌≡◌, ◌≢◌, Option, none, some, List, [], ◌∷◌, Outcome, Act, Preserves, preserving,
  Option-cases, inl, inr,
}
use updater_service.Operation.{Time, Status, status_text}
use updater_service.Operation.Repository.{Operations}
use updater_service.Disk.{Disk}
use updater_service.Message.{UpdateResult}
use updater_service.Worker.State.{
  World, Env, statement, restart, wait_until_healthy, advance_status, claim,
}
use updater_service.Worker.Parts.{IsCalm}

abbrev pub newest : List UpdateResult → Option String
newest [] = none
newest (r ∷ _) = some r.status

-- The last result that was published has another status than `s`.
abbrev pub NotSaid : Status → World → Type 0
NotSaid s w = newest w.outbox ≢ some (status_text s)

-- The file at `path` holds `contents`.
abbrev pub Holds : String → Option String → World → Type 0
Holds path contents w = w.disk.files path ≡ contents

-- Calls that leave the disk and the outbox alone keep what is said of these two.
module _ (env : Env) (Q : Disk → List UpdateResult → Type 0) where
  abbrev pub About : World → Type 0
  About w = Q w.disk w.outbox

  statement-About :
      {A : Type 0} (m : Outcome → Time → Act Operations A) → Preserves About (statement env m)
  unfolding statement
  statement-About m = record { at = λ w h. h }

  restart-About : (service : String) → Preserves About (restart env service)
  unfolding restart
  restart-About service = record {
    at = λ w h. elim (Option-cases (env.restart w.calls service)) [
      | inl none_ ↦ rw (none_, restart) h
      | inr (e, failed) ↦ rw (failed, restart) h
    ];
  }

  pub About-IsCalm : IsCalm env About
  unfolding advance_status wait_until_healthy
  About-IsCalm = record {
    advancing = λ id s. search (preserving, statement-About) depth 10;
    restarting = restart-About;
    waiting = λ url. record { at = λ w h. h };
  }

  pub claim-About : (id : String) → Preserves About (claim env id)
  unfolding claim
  claim-About id = search (preserving, statement-About) depth 10
