-- ===== src/Retry/Bounds.antt =====
-- The delay is the initial one doubled, capped, and never wraps around.
use updater_service.Base.{
  ℕ, zero, suc, ◌*◌, ◌^◌, ◌≤◌, ◌<◌, pos, negsuc, ◌≡◌, refl, min, leb, Bool-cases, inl, inr, arith,
  ap,
}
use native.Mathlib.Nat.{pow-suc}
use updater_service.Retry.{delay, delay_loop, double64}

double64_small : (d : ℕ) → d < 2 ^ 62 → double64 (pos d) ≡ pos (2 * d)
unfolding double64
double64_small d h = ground arith

pow_pos : (n : ℕ) → 1 ≤ 2 ^ n
pow_pos zero = omega arith
pow_pos (suc n) = rw pow-suc (omega (arith, pow_pos n))

le_mul_pow : (d n : ℕ) → d ≤ d * 2 ^ n
le_mul_pow d n = let p = pow_pos n in grind arith

mul_pow_suc : (d n : ℕ) → d * 2 ^ suc n ≡ 2 * d * 2 ^ n
mul_pow_suc d n = rw pow-suc (omega arith)

delay_loop_capped :
    (m rounds d : ℕ)
    → m < 2 ^ 62
    → d ≤ m
    → delay_loop (pos m) rounds (pos d) ≡ pos (min (d * 2 ^ rounds) m)
unfolding delay_loop
delay_loop_capped m zero d hm h = ap pos (omega arith)
delay_loop_capped m (suc rounds) d hm h =
    rw (double64_small d (omega arith), mul_pow_suc d rounds)
      (elim (Bool-cases (leb m (2 * d))) [
        | inl over ↦ ground (arith, over, le_mul_pow (2 * d) rounds)
        | inr under ↦ ground (arith, under, delay_loop_capped m rounds (2 * d) hm (ground arith))
      ])

-- With a maximum below 2^62 ns and an initial delay up to it, the delay before the retry `n`
-- is the initial one times 2^n, or the maximum where that is less; before a negative one it is the
-- initial delay.
pub delay_capped :
    (initial m n : ℕ)
    → m < 2 ^ 62
    → initial ≤ m
    → (delay (record { initial = pos initial; max = pos m }) (pos n)
        ≡ pos (min (initial * 2 ^ n) m))
      × (delay (record { initial = pos initial; max = pos m }) (negsuc n) ≡ pos initial)
unfolding delay
delay_capped initial m n hm h = (delay_loop_capped m n initial hm h, refl)

-- An initial delay above the maximum is not capped before the first retry, and is before every other.
pub delay_uncapped :
    (initial m n : ℕ)
    → initial < 2 ^ 62
    → m < initial
    → (delay (record { initial = pos initial; max = pos m }) (pos 0) ≡ pos initial)
      × (delay (record { initial = pos initial; max = pos m }) (pos (suc n)) ≡ pos m)
unfolding delay delay_loop
delay_uncapped initial m n hi h = (refl, rw (double64_small initial hi) (ground arith))
