-- ===== src/Healthcheck.antt =====
-- internal/healthcheck/checker.go: an HTTP GET until the answer is 200, with delays between attempts.
-- The network is a parameter: what each attempt gets, and whether the context ends in the wait after it.
pub mod Attempts
use updater_service.Base.{
  ℕ, zero, suc, ◌+◌, ℤ, pos, negsuc, Bool, List, [], ◌∷◌, Error, text, wrap, Result, ok, err, ◌==◌,
  nat_eq, if◌then◌else◌,
}
use updater_service.Retry.{Backoff, delay}

pub record Config : Type 0 where
  pub max_retries : ℤ
  pub backoff : Backoff

pub record Network : Type 0 where
  pub answer : ℕ → Result ℕ  -- the status code, or the error of `client.Do`
  pub expires : ℕ → Bool

-- The error returned, the delays that were waited for, and the number of requests.
abbrev pub Waited : Type 0
Waited = Result (Unit {0}) × List ℤ × ℕ

unfoldable pub check : Result ℕ → Result (Unit {0})
check (err e) = err e
check (ok status) = if status == 200 then ok tt else err (text "health endpoint returned status")

abbrev pub after : ℤ → Waited → Waited
after d (r, delays, requests) = (r, d ∷ delays, suc requests)

module _ (config : Config) (net : Network) where
  -- The loop, with the retries that are left.
  unfoldable pub attempts : ℕ → ℕ → Waited
  unfolding check
  attempts zero attempt = elim (check (net.answer attempt)) [
    | ok _ ↦ (ok tt, [], 1)
    | err e ↦ (err (wrap "health check failed after retries" e), [], 1)
  ]
  attempts (suc left) attempt =
      let rest = attempts left (attempt + 1) in
      let d = delay config.backoff (pos attempt) in
      elim (check (net.answer attempt)) [
        | ok _ ↦ (ok tt, [], 1)
        | err e ↦
            if net.expires attempt
            then (err (wrap "health check timeout" e), d ∷ [], 1)
            else after d rest
      ]

  unfoldable pub wait_until_healthy : Waited
  unfolding attempts
  wait_until_healthy = elim config.max_retries [
    | negsuc _ ↦ (err (text "health check failed"), [], 0)
    | pos n ↦ attempts n 0
  ]
