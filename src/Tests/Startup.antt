-- ===== src/Tests/Startup.antt =====
-- cmd: commands whose database takes three runs of goose.
use updater_service.Base.{
  ℕ, zero, suc, ◌<>◌, ◌≤◌, ◌<◌, ◌≡◌, true, none, List, [], ◌∷◌, served, lost, canceled, ok, err,
  text, refl,
}
use updater_service.Message.{
  command_prefix, result_subject, register_subject, heartbeat_subject, goodbye_subject,
}
use updater_service.Entry.Server.{listener}
use updater_service.Heartbeat.{Published, run}
use updater_service.Search.{ensure_index}
use updater_service.Startup.{migrate, try_for}
use updater_service.Startup.Commands.{
  Outside, entry_main, worker_main, start, IsReady, cnf, entry_served, worker_served,
  worker_heartbeat,
}
use updater_service.Startup.Ending.{commands_end}

abbrev outside : Outside
outside = record {
  env = record {
    lookup = λ key. none;
    parse_duration = λ s. err (text "no duration");
    random_hex = "00";
  };
  site = record {
    trim_slashes = λ s. s;
    temp_uploads = "/tmp/update-entry-uploads";
    mkdir_all = λ path. ok tt;
    new_handler = λ upload. ok tt;
    connection = record { connect = ok tt; subscribe = λ subject. ok tt };
    ending = listener none;
  };
  driver = record { connect = λ dsn. ok tt; ping = ok tt };
  goose = λ n. elim n [
    | zero ↦ err (text "connection refused")
    | suc m ↦ elim m [ zero ↦ err (text "connection refused") | suc k ↦ ok tt ]
  ];
  client = ok tt;
  create = λ n. ok 200;
  ping = ok tt;
  now = "2026-09-22T00:00:00Z";
  registering = lost canceled;
  leaving = served;
  ticks = (served, lost canceled) ∷ [];
}

-- It slept after two runs.
slow_migration : migrate outside.goose start ≡ (ok tt, record { calls = 3; slept = 1500 })
unfolding migrate try_for
slow_migration = refl

abbrev published : List Published
published =
    run (worker_heartbeat (cnf outside) outside.now) outside.registering outside.ticks
      outside.leaving

commands_end_example :
    ((entry_main outside start).1.slept ≤ 37500)
    × ((worker_main outside start).1.slept ≤ 114000)
    × ((entry_main outside start).0 ≡ ok tt
        → IsReady outside 5
          × ((entry_served outside).1
              ≡ goodbye_subject ∷ heartbeat_subject ∷ register_subject ∷ result_subject ∷ [])
          × ((cnf outside).elastic.enabled ≡ true
              → (n : ℕ) × (n < 20) × (ensure_index (outside.create n) ≡ ok tt)))
    × ((worker_main outside start).0 ≡ ok published
        → IsReady outside 60
          × ((worker_served outside).1 ≡ (command_prefix <> (cnf outside).node.id) ∷ []))
commands_end_example = commands_end outside published
