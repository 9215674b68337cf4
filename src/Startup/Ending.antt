-- ===== src/Startup/Ending.antt =====
-- When the commands end without an error, and how long they wait.
use updater_service.Base.{
  ◌<>◌, ℕ, ◌+◌, ◌≤◌, ◌<◌, ◌≡◌, true, List, [], ◌∷◌, ok, pure, lift, ◌>>=◌, arith,
}
use updater_service.Config.Loading.{validate}
use updater_service.Config.Valid.{load_config-IsValid}
use updater_service.Database.{new_database}
use updater_service.Entry.Server.{run_server_lem}
use updater_service.Heartbeat.{Published}
use updater_service.Message.{
  command_prefix, result_subject, register_subject, heartbeat_subject, goodbye_subject,
}
use updater_service.Search.{ensure_index}
use updater_service.Startup.{migrate, wait_for_migrations, wait_for_elasticsearch}
use updater_service.Startup.Waiting.{
  migrate-Ends, wait_for_migrations-Ends, wait_for_elasticsearch-Ends,
}
use updater_service.Worker.Running.{run_worker_lem}
use updater_service.Startup.Commands.{
  Outside, entry_config, worker_heartbeat, cnf, entry_served, worker_served, entry_main,
  worker_main, IsReady, start,
}

entry_parts :
    (outside : Outside)
    → (entry_main outside start).0 ≡ ok tt
    → (validate (cnf outside) ≡ ok tt)
      × (outside.driver.ping ≡ ok tt)
      × ((migrate outside.goose start).0 ≡ ok tt)
      × ((entry_served outside).0 ≡ ok tt)
      × ((cnf outside).elastic.enabled ≡ true
          → (wait_for_elasticsearch outside.create (migrate outside.goose start).1).0 ≡ ok tt)
unfolding entry_main ◌>>=◌ pure lift new_database
entry_parts outside h = ground (arith, h)

entry_sleeps :
    (outside : Outside)
    → (migrate outside.goose start).1.slept ≤ 7500
    → (wait_for_elasticsearch outside.create (migrate outside.goose start).1).1.slept
      ≤ (migrate outside.goose start).1.slept + 30000
    → (entry_main outside start).1.slept ≤ 37500
unfolding entry_main ◌>>=◌ pure lift
entry_sleeps outside first second = ground (arith, first, second)

worker_parts :
    (outside : Outside) (published : List Published)
    → (worker_main outside start).0 ≡ ok published
    → (validate (cnf outside) ≡ ok tt)
      × (outside.driver.ping ≡ ok tt)
      × ((wait_for_migrations outside.goose start).0 ≡ ok tt)
      × ((worker_served outside).0 ≡ ok published)
unfolding worker_main ◌>>=◌ pure lift new_database
worker_parts outside published h = ground (arith, h)

worker_sleeps :
    (outside : Outside)
    → (wait_for_migrations outside.goose start).1.slept ≤ 114000
    → (worker_main outside start).1.slept ≤ 114000
unfolding worker_main ◌>>=◌ pure lift
worker_sleeps outside first = ground (arith, first)

-- Both commands end what they do before their server: the entry sleeps for 37.5 seconds at most, and a
-- worker for 114.
commands_sleep :
    (outside : Outside)
    → ((entry_main outside start).1.slept ≤ 37500) × ((worker_main outside start).1.slept ≤ 114000)
commands_sleep outside =
    let migrating = migrate-Ends outside.goose start in
    let clock = (migrate outside.goose start).1 in
    let waiting = wait_for_elasticsearch-Ends outside.create clock in
    let worker_waiting = wait_for_migrations-Ends outside.goose start in
    (entry_sleeps outside migrating.slept waiting.slept, worker_sleeps outside worker_waiting.slept)

entry_main_lem :
    (outside : Outside)
    → (entry_main outside start).0 ≡ ok tt
    → IsReady outside 5
      × ((entry_served outside).1
          ≡ goodbye_subject ∷ heartbeat_subject ∷ register_subject ∷ result_subject ∷ [])
      × ((cnf outside).elastic.enabled ≡ true
          → (n : ℕ) × (n < 20) × (ensure_index (outside.create n) ≡ ok tt))
entry_main_lem outside h =
    let migrating = migrate-Ends outside.goose start in
    let clock = (migrate outside.goose start).1 in
    let waiting = wait_for_elasticsearch-Ends outside.create clock in
    let (valid, database, migrated, ended, indexed) = entry_parts outside h in
    let (n, low, ran) = migrating.succeeded migrated in
    (
      (
        (load_config-IsValid outside.env).0 valid,
        database,
        (start.calls + n, omega (arith, low), ran),
      ),
      run_server_lem outside.site (entry_config (cnf outside)) [] ended,
      λ enabled.
          let (k, few, made) = waiting.succeeded (indexed enabled) in
          (clock.calls + k, omega (arith, few, migrating.calls.1), made),
    )

worker_main_lem :
    (outside : Outside) (published : List Published)
    → (worker_main outside start).0 ≡ ok published
    → IsReady outside 60
      × ((worker_served outside).1 ≡ (command_prefix <> (cnf outside).node.id) ∷ [])
worker_main_lem outside published h =
    let waiting = wait_for_migrations-Ends outside.goose start in
    let (valid, database, migrated, done) = worker_parts outside published h in
    let (n, low, ran) = waiting.succeeded migrated in
    let subscribed =
      run_worker_lem outside.site.connection (cnf outside).node.id
        (worker_heartbeat (cnf outside) outside.now) outside.registering outside.ticks
        outside.leaving [] published done in
    (
      (
        (load_config-IsValid outside.env).0 valid,
        database,
        (start.calls + n, omega (arith, low), ran),
      ),
      subscribed,
    )

-- Both commands end what they do before their server: the entry sleeps for 37.5 seconds at most, and a
-- worker for 114. They end with code 0 only if the environment gives valid settings, the database
-- answers, and goose succeeded, for the entry in one of its first 5 runs and for a worker in one of its
-- first 60. The entry has then subscribed to all that workers publish, and, if Elasticsearch is
-- enabled, has found or made the index in one of the first 20 calls of goose and Elasticsearch. The
-- worker has subscribed to the commands of its node.
pub commands_end :
    (outside : Outside) (published : List Published)
    → ((entry_main outside start).1.slept ≤ 37500)
      × ((worker_main outside start).1.slept ≤ 114000)
      × ((entry_main outside start).0 ≡ ok tt
          → IsReady outside 5
            × ((entry_served outside).1
                ≡ goodbye_subject ∷ heartbeat_subject ∷ register_subject ∷ result_subject ∷ [])
            × ((cnf outside).elastic.enabled ≡ true
                → (n : ℕ) × (n < 20) × (ensure_index (outside.create n) ≡ ok tt)))
      × ((worker_main outside start).0 ≡ ok published
          → IsReady outside 60
            × ((worker_served outside).1 ≡ (command_prefix <> (cnf outside).node.id) ∷ []))
commands_end outside published =
    let (entry_time, worker_time) = commands_sleep outside in
    (entry_time, worker_time, entry_main_lem outside, worker_main_lem outside published)
