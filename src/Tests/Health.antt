-- ===== src/Tests/Health.antt =====
-- internal/retry and internal/healthcheck.
use updater_service.Base.{
  ℕ, zero, ◌-◌, suc, ◌*◌, ◌^◌, ◌≤◌, ◌≡◌, ◌≢◌, ◌↔◌, refl, min, pos, negsuc, false, length, text, ok,
  err, arith,
}
use updater_service.Retry.{Backoff, delay}
use updater_service.Retry.Bounds.{delay_capped, delay_uncapped}
use updater_service.Healthcheck.{Config, Network, wait_until_healthy}
use updater_service.Healthcheck.Attempts.{HealthyAt, wait_until_healthy_iff}

abbrev second : ℕ
second = 1_000_000_000

abbrev backoff : Backoff
backoff = record { initial = pos second; max = pos (4 * second) }

delay_capped_example :
    (delay backoff (pos 3) ≡ pos (min (second * 2 ^ 3) (4 * second)))
    × (delay backoff (negsuc 3) ≡ pos second)
delay_capped_example = delay_capped second (4 * second) 3 (omega arith) (omega arith)

delay_uncapped_example :
    (delay (record { initial = pos (4 * second); max = pos second }) (pos 0) ≡ pos (4 * second))
    × (delay (record { initial = pos (4 * second); max = pos second }) (pos 1) ≡ pos second)
delay_uncapped_example = delay_uncapped (4 * second) second 0 (omega arith) (omega arith)

-- The doubling of an int64 wraps around.
wraps :
    delay (record { initial = pos (2 ^ 62); max = pos (2 ^ 63 - 1) }) (pos 1) ≡ negsuc (2 ^ 63 - 1)
unfolding delay
wraps = refl

-- The third attempt gets a 200.
abbrev restarting : Network
restarting = record {
  answer = elim [ zero ↦ err (text "refused") | suc n ↦ elim n [ zero ↦ ok 503 | suc _ ↦ ok 200 ] ];
  expires = λ n. false;
}

abbrev three : Config
three = record { max_retries = pos 3; backoff = backoff }

abbrev negative : Config
negative = record { max_retries = negsuc 3; backoff = backoff }

wait_until_healthy_iff_example :
    ((wait_until_healthy three restarting).0 ≡ ok tt
      ↔ ((n : ℕ) × (n ≤ 3) × HealthyAt restarting 0 n))
    × ((n : ℕ) → n ≤ 3 → HealthyAt restarting 0 n → (wait_until_healthy three restarting).2 ≡ suc n)
    × (length (wait_until_healthy three restarting).1 ≤ 3)
    × ((wait_until_healthy three restarting).2 ≤ 4)
    × ((wait_until_healthy negative restarting).0 ≢ ok tt)
    × ((wait_until_healthy negative restarting).2 ≡ 0)
wait_until_healthy_iff_example = wait_until_healthy_iff backoff restarting 3
