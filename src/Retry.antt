-- ===== src/Retry.antt =====
-- internal/retry/backoff.go: the delay before a retry, doubled each time up to a maximum.
pub mod Bounds
use updater_service.Base.{
  ℕ, zero, suc, ◌+◌, ◌-◌, ◌*◌, ◌%◌, ◌^◌, ℤ, pos, negsuc, ltb, leb_ℤ, if◌then◌else◌,
}

-- The bit pattern of an int64, and the int64 of a bit pattern.
unfoldable pub pattern64 : ℤ → ℕ
pattern64 (pos n) = n % 2 ^ 64
pattern64 (negsuc n) = 2 ^ 64 - 1 - n % 2 ^ 64

unfoldable pub signed64 : ℕ → ℤ
signed64 p = if ltb p (2 ^ 63) then pos p else negsuc (2 ^ 64 - 1 - p)

-- delay *= 2
unfoldable pub double64 : ℤ → ℤ
unfolding pattern64 signed64
double64 a = signed64 (2 * pattern64 a % 2 ^ 64)

pub record Backoff : Type 0 where
  pub initial : ℤ
  pub max : ℤ

-- The loop of `Delay`, over the rounds that are left.
unfoldable pub delay_loop : ℤ → ℕ → ℤ → ℤ
delay_loop max zero delay = delay
delay_loop max (suc rounds) delay =
    let doubled = double64 delay in
    let rest = delay_loop max rounds doubled in if leb_ℤ max doubled then max else rest

-- `retryNumber` is an int: none of its rounds runs if it is not positive.
unfoldable pub delay : Backoff → ℤ → ℤ
unfolding delay_loop double64
delay b (negsuc _) = b.initial
delay b (pos n) = delay_loop b.max n b.initial
