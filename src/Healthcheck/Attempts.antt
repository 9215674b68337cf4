-- ===== src/Healthcheck/Attempts.antt =====
-- When the health check passes, and how long it takes to give up.
use updater_service.Base.{
  ℕ, zero, suc, ◌+◌, ◌≤◌, pos, negsuc, ◌≡◌, ◌≢◌, ◌↔◌, false, length, ok, Result, ◌==◌, nat_eq,
  arith, Bool-cases, Result-cases, inl, inr,
}
use updater_service.Retry.{Backoff}
use updater_service.Healthcheck.{Config, Network, check, attempts, wait_until_healthy}

-- Attempt `n` after the one numbered `from` is made, and is the first to find the service healthy.
abbrev pub HealthyAt : Network → ℕ → ℕ → Type 0
HealthyAt net from zero = net.answer from ≡ ok 200
HealthyAt net from (suc n) =
    (net.answer from ≢ ok 200) × (net.expires from ≡ false) × HealthyAt net (from + 1) n

module _ (config : Config) (net : Network) where
  check_iff : (r : Result ℕ) → (check r ≡ ok tt) ↔ (r ≡ ok 200)
  unfolding check
  check_iff r = ground arith

  attempts_ok :
      (left from : ℕ)
      → (attempts config net left from).0 ≡ ok tt
      → (n : ℕ) × (n ≤ left) × HealthyAt net from n
  unfolding attempts
  attempts_ok zero from h = (0, omega arith, ground arith)
  attempts_ok (suc left) from h = elim (Result-cases (net.answer from)) [
    | inl (status, e) ↦ elim (Bool-cases (status == 200)) [
      | inl fine ↦ (0, omega arith, ground (arith, e, fine))
      | inr bad ↦
          let (n, le, at) = attempts_ok left (from + 1) (ground (arith, e, bad)) in
          (suc n, omega arith, (ground (arith, e, bad), ground (arith, e, bad), at))
    ]
    | inr (x, e) ↦
        let (n, le, at) = attempts_ok left (from + 1) (ground (arith, e)) in
        (suc n, omega arith, (ground (arith, e), ground (arith, e), at))
  ]

  attempts_healthy :
      (left from n : ℕ)
      → n ≤ left
      → HealthyAt net from n
      → (attempts config net left from).0 ≡ ok tt
  unfolding attempts
  attempts_healthy zero from zero h at = ground arith
  attempts_healthy zero from (suc n) h at = absurd (omega arith)
  attempts_healthy (suc left) from zero h at = ground arith
  attempts_healthy (suc left) from (suc n) h at =
      ground (arith, at.0, at.1, attempts_healthy left (from + 1) n (omega arith) at.2)

  attempts_delays :
      (left from : ℕ)
      → (length (attempts config net left from).1 ≤ left)
        × ((attempts config net left from).2 ≤ suc left)
  unfolding attempts
  attempts_delays zero from = ground arith
  attempts_delays (suc left) from = ground (arith, attempts_delays left (from + 1))

  -- The attempt that finds the service healthy is the last.
  attempts_requests :
      (left from n : ℕ)
      → n ≤ left
      → HealthyAt net from n
      → (attempts config net left from).2 ≡ suc n
  unfolding attempts
  attempts_requests zero from zero h at = ground arith
  attempts_requests zero from (suc n) h at = absurd (omega arith)
  attempts_requests (suc left) from zero h at = ground arith
  attempts_requests (suc left) from (suc n) h at =
      ground (arith, at.0, at.1, attempts_requests left (from + 1) n (omega arith) at.2)

-- With `m` retries, the wait succeeds exactly if one of the first `m + 1` attempts gets a 200, no
-- earlier one does, and the context does not end in the waits between them; that attempt is then the
-- last. It waits `m` times and makes `m + 1` requests at most. With a negative number of retries it
-- fails, and makes no request.
pub wait_until_healthy_iff :
    (b : Backoff) (net : Network) (m : ℕ)
    → ((wait_until_healthy (record { max_retries = pos m; backoff = b }) net).0 ≡ ok tt
        ↔ ((n : ℕ) × (n ≤ m) × HealthyAt net 0 n))
      × ((n : ℕ)
          → n ≤ m
          → HealthyAt net 0 n
          → (wait_until_healthy (record { max_retries = pos m; backoff = b }) net).2 ≡ suc n)
      × (length (wait_until_healthy (record { max_retries = pos m; backoff = b }) net).1 ≤ m)
      × ((wait_until_healthy (record { max_retries = pos m; backoff = b }) net).2 ≤ suc m)
      × ((wait_until_healthy (record { max_retries = negsuc m; backoff = b }) net).0 ≢ ok tt)
      × ((wait_until_healthy (record { max_retries = negsuc m; backoff = b }) net).2 ≡ 0)
unfolding wait_until_healthy
wait_until_healthy_iff b net m =
    let config : Config = record { max_retries = pos m; backoff = b } in
    (
      (λ h. attempts_ok config net m 0 h, λ (n, le, at). attempts_healthy config net m 0 n le at),
      attempts_requests config net m 0,
      (attempts_delays config net m 0).0,
      (attempts_delays config net m 0).1,
      ground arith,
      ground arith,
    )
