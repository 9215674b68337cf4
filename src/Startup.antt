-- ===== src/Startup.antt =====
-- The start of the two commands, cmd/entry/main.go and cmd/worker/main.go, with Migrate of
-- internal/db/mariadb/mariadb.go. The calls of other programs are numbered, and what each returns is a
-- parameter; times are in milliseconds.
pub mod Waiting
pub mod Commands
pub mod Ending
use updater_service.Base.{
  ℕ, zero, suc, ◌+◌, ◌*◌, Option, none, some, Error, wrap, Result, ok, err, Act, on_option,
  on_result, wrapped,
}
use updater_service.Search.{ensure_index}

-- How many of the calls that are tried again were made, and how long the process slept.
pub record Clock : Type 0 where
  pub calls : ℕ
  pub slept : ℕ

abbrev pub sleep : ℕ → Clock → Clock
sleep time clock = record { calls = clock.calls; slept = clock.slept + time }

-- One call of goose.RunContext or of the client of Elasticsearch.
abbrev pub call_next : (ℕ → Result (Unit {0})) → Act Clock (Unit {0})
call_next outside clock =
    (outside clock.calls, record { calls = clock.calls + 1; slept = clock.slept })

-- The loops have one form: run, return on success, sleep, and return the last error at the end.
unfoldable pub try_for :
    Act Clock (Unit {0}) → (ℕ → ℕ) → ℕ → ℕ → Option Error → Act Clock (Unit {0})
try_for action pause zero attempt last clock = (on_option last (ok tt) err, clock)
try_for action pause (suc left) attempt last clock =
    let (r, clock') = action clock in
    on_result r
      (λ e. try_for action pause left (attempt + 1) (some e) (sleep (pause attempt) clock'))
      (λ _. (ok tt, clock'))

unfoldable pub migrate : (ℕ → Result (Unit {0})) → Act Clock (Unit {0})
migrate goose =
    wrapped "failed to run migrations"
      (try_for (call_next goose) (λ attempt. attempt * 500) 5 1 none)

unfoldable pub wait_for_migrations : (ℕ → Result (Unit {0})) → Act Clock (Unit {0})
wait_for_migrations goose = try_for (migrate goose) (λ attempt. 2000) 12 1 none

unfoldable pub wait_for_elasticsearch : (ℕ → Result ℕ) → Act Clock (Unit {0})
wait_for_elasticsearch create =
    try_for (call_next (λ n. ensure_index (create n))) (λ attempt. 2000) 15 1 none
