-- ===== src/Startup/Waiting.antt =====
-- How long the start of a command takes, and when it succeeds.
use mathlib.Core.Path.{subst}
use updater_service.Base.{
  String, ◌-◌, dec_lt, ℕ, zero, suc, ◌+◌, ◌*◌, ◌≤◌, ◌<◌, ◌≡◌, ◌≢◌, none, some, Error, Result, ok,
  err, Act, on_result, wrapping, arith, refl,
}
use updater_service.Startup.{
  Clock, sleep, call_next, try_for, migrate, wait_for_migrations, wait_for_elasticsearch,
}
use updater_service.Search.{ensure_index}

-- An action that succeeds if one of the next `most` calls does, and makes no more calls than it needs
-- to; it sleeps for `time` at most.
pub record Ends (outside : ℕ → Result (Unit {0})) (most time : ℕ) (clock : Clock)
    (out : Result (Unit {0}) × Clock) : Type 0 where
  pub succeeded : out.0 ≡ ok tt → (n : ℕ) × (n < most) × (outside (clock.calls + n) ≡ ok tt)
  pub succeeds : (n : ℕ) → n < most → outside (clock.calls + n) ≡ ok tt → out.0 ≡ ok tt
  pub calls : (clock.calls ≤ out.1.calls) × (out.1.calls ≤ clock.calls + most)
  pub gave_up : out.0 ≢ ok tt → out.1.calls ≡ clock.calls + most
  pub slept : out.1.slept ≤ clock.slept + time

call_next-Ends :
    (outside : ℕ → Result (Unit {0})) (clock : Clock)
    → Ends outside 1 0 clock (call_next outside clock)
call_next-Ends outside clock = record {
  succeeded = λ h. (0, omega arith, ground (arith, h));
  succeeds = λ n low h. ground (arith, low, h);
  calls = (omega arith, omega arith);
  gave_up = λ h. refl;
  slept = omega arith;
}

module _ (outside : ℕ → Result (Unit {0})) where
  -- An action, and what follows it when it fails.
  step-Ends :
      (most time pause more longer : ℕ) (clock : Clock) (first : Result (Unit {0}) × Clock)
      (rest : Error → Result (Unit {0}) × Clock)
      → Ends outside most time clock first
      → ((e : Error) → Ends outside more longer (sleep pause first.1) (rest e))
      → Ends outside
          (most + more)
          (time + pause + longer)
          clock
          (on_result first.0 rest (λ _. (ok tt, first.1)))
  step-Ends most time pause more longer clock (ok tt, clock') rest a b = record {
    succeeded = λ h. let (n, low, good) = a.succeeded refl in (n, omega (arith, low), good);
    succeeds = λ n low h. refl;
    calls = (a.calls.0, omega (arith, a.calls.1));
    gave_up = λ h. absurd (h refl);
    slept = omega (arith, a.slept);
  }
  step-Ends most time pause more longer clock (err e, clock') rest a b =
      let tried = a.gave_up (ground arith) in
      let shift : (n : ℕ) → clock'.calls + n ≡ clock.calls + (most + n) =
        λ n. omega (arith, tried) in
      record {
        succeeded = λ h.
            let (n, low, good) = (b e).succeeded h in
            (most + n, omega (arith, low), subst (λ k. outside k ≡ ok tt) (shift n) good);
        succeeds = λ n low h. elim (dec_lt n most) [
          | yes early ↦ absurd (ground (arith, a.succeeds n early h))
          | no late ↦
              let same : clock.calls + n ≡ clock'.calls + (n - most) = omega (arith, late, tried) in
              (b e).succeeds (n - most) (omega (arith, late, low))
                (subst (λ k. outside k ≡ ok tt) same h)
        ];
        calls = (omega (arith, tried, (b e).calls.0), omega (arith, tried, (b e).calls.1));
        gave_up = λ h. omega (arith, tried, (b e).gave_up h);
        slept = omega (arith, a.slept, (b e).slept);
      }

  module _ (action : Act Clock (Unit {0})) (pause : ℕ → ℕ) (most time : ℕ)
      (each : (clock : Clock) → Ends outside most time clock (action clock)) where
    -- The time that the rounds from an attempt on may take.
    abbrev pub longest : ℕ → ℕ → ℕ
    longest zero attempt = 0
    longest (suc left) attempt = time + pause attempt + longest left (attempt + 1)

    abbrev pub calls_of : ℕ → ℕ
    calls_of zero = 0
    calls_of (suc left) = most + calls_of left

    try_for-Ends :
        (left attempt : ℕ) (e : Error) (clock : Clock)
        → Ends outside
            (calls_of left)
            (longest left attempt)
            clock
            (try_for action pause left attempt (some e) clock)
    unfolding try_for
    try_for-Ends zero attempt e clock = record {
      succeeded = λ h. absurd (ground (arith, h));
      succeeds = λ n low h. absurd (omega (arith, low));
      calls = (omega arith, omega arith);
      gave_up = λ h. omega arith;
      slept = omega arith;
    }
    try_for-Ends (suc left) attempt e clock =
        step-Ends most time (pause attempt) (calls_of left) (longest left (attempt + 1)) clock
          (action clock)
          (λ x.
            try_for action pause left (attempt + 1) (some x)
              (sleep (pause attempt) (action clock).1))
          (each clock)
          (λ x. try_for-Ends left (attempt + 1) x (sleep (pause attempt) (action clock).1))

    try_for_first-Ends :
        (left attempt : ℕ) (clock : Clock)
        → Ends outside
            (calls_of (suc left))
            (longest (suc left) attempt)
            clock
            (try_for action pause (suc left) attempt none clock)
    unfolding try_for
    try_for_first-Ends left attempt clock =
        step-Ends most time (pause attempt) (calls_of left) (longest left (attempt + 1)) clock
          (action clock)
          (λ x.
            try_for action pause left (attempt + 1) (some x)
              (sleep (pause attempt) (action clock).1))
          (each clock)
          (λ x. try_for-Ends left (attempt + 1) x (sleep (pause attempt) (action clock).1))

wrapped-Ends :
    (outside : ℕ → Result (Unit {0})) (most time : ℕ) (clock : Clock) (message : String)
    (out : Result (Unit {0}) × Clock)
    → Ends outside most time clock out
    → Ends outside most time clock (wrapping message out.0, out.1)
wrapped-Ends outside most time clock message (ok tt, clock') a = a
wrapped-Ends outside most time clock message (err e, clock') a = record {
  succeeded = λ h. absurd (ground (arith, h));
  succeeds = λ n low h. absurd (ground (arith, a.succeeds n low h));
  calls = a.calls;
  gave_up = λ h. a.gave_up (ground arith);
  slept = a.slept;
}

pub migrate-Ends :
    (goose : ℕ → Result (Unit {0})) (clock : Clock) → Ends goose 5 7500 clock (migrate goose clock)
unfolding migrate
migrate-Ends goose clock =
    wrapped-Ends goose 5 7500 clock "failed to run migrations"
      (try_for (call_next goose) (λ attempt. attempt * 500) 5 1 none clock)
      (try_for_first-Ends goose (call_next goose) (λ attempt. attempt * 500) 1 0
        (call_next-Ends goose) 4 1 clock)

pub wait_for_migrations-Ends :
    (goose : ℕ → Result (Unit {0})) (clock : Clock)
    → Ends goose 60 114000 clock (wait_for_migrations goose clock)
unfolding wait_for_migrations
wait_for_migrations-Ends goose clock =
    try_for_first-Ends goose (migrate goose) (λ attempt. 2000) 5 7500 (migrate-Ends goose) 11 1
      clock

pub wait_for_elasticsearch-Ends :
    (create : ℕ → Result ℕ) (clock : Clock)
    → Ends (λ n. ensure_index (create n)) 15 30000 clock (wait_for_elasticsearch create clock)
unfolding wait_for_elasticsearch
wait_for_elasticsearch-Ends create clock =
    let answer = λ (n : ℕ). ensure_index (create n) in
    try_for_first-Ends answer (call_next answer) (λ attempt. 2000) 1 0 (call_next-Ends answer) 14 1
      clock
