-- ===== src/Startup/Commands.antt =====
-- cmd/entry/main.go and cmd/worker/main.go: `main`, up to the end of the server. An exit with code 1 is
-- an error.
use updater_service.Base.{
  String, ℕ, ◌<◌, ◌≡◌, true, List, [], Outcome, Result, ok, Act, pure, lift, ◌>>◌, if◌then◌else◌,
}
use updater_service.Config.Environment.{Environment}
use updater_service.Config.Settings.{ApplicationConfig}
use updater_service.Config.Size.{codes, parse_size}
use updater_service.Config.Loading.{load_config, validate}
use updater_service.Config.Valid.{IsUsable}
use updater_service.Database.{Driver, new_database}
use updater_service.Entry.Server.{Site, ServerConfig, run_server}
use updater_service.Heartbeat.{HeartbeatManager, Published, new_heartbeat_manager}
use updater_service.Nats.{Subscriptions, new_client}
use updater_service.Startup.{Clock, migrate, wait_for_migrations, wait_for_elasticsearch}
use updater_service.Worker.Running.{run_worker}

-- What the process starts from, and how the calls that it makes end.
pub record Outside : Type 0 where
  pub env : Environment
  pub site : Site  -- of the entry, with its connection to NATS
  pub driver : Driver
  pub goose : ℕ → Result (Unit {0})
  pub client : Result (Unit {0})  -- search.NewClient
  pub create : ℕ → Result ℕ
  pub ping : Result (Unit {0})
  pub now : String
  pub registering : Outcome  -- the first registration of the heartbeat
  pub leaving : Outcome  -- its goodbye
  pub ticks : List (Outcome × Outcome)  -- of the heartbeat, until the context ends

-- entry.Config, as `main` fills it in
unfoldable pub entry_config : ApplicationConfig → ServerConfig
entry_config cnf = record {
  has_nats = true;
  has_node_repo = true;
  tusd_base_path = cnf.file.tusd_base_path;
  tusd_upload_dir = cnf.file.tusd_upload_dir;
  tusd_max_size = parse_size (codes cnf.file.tusd_max_size);
}

unfoldable pub worker_heartbeat : ApplicationConfig → String → HeartbeatManager
worker_heartbeat cnf now =
    new_heartbeat_manager cnf.node.id cnf.node.incarnation_id cnf.node.address cnf.node.version []
      now cnf.node.heartbeat_interval cnf.node.heartbeat_timeout

module _ (outside : Outside) where
  abbrev pub cnf : ApplicationConfig
  cnf = load_config outside.env

  -- How the servers end, and what they subscribed to.
  abbrev pub entry_served : Result (Unit {0}) × Subscriptions
  entry_served = run_server outside.site (entry_config cnf) []

  abbrev pub worker_served : Result (List Published) × Subscriptions
  worker_served =
      run_worker outside.site.connection cnf.node.id (worker_heartbeat cnf outside.now)
        outside.registering outside.ticks outside.leaving []

  unfoldable pub entry_main : Act Clock (Unit {0})
  entry_main = do
    lift (validate cnf)
    lift (new_client outside.site.connection)
    lift (new_database outside.driver cnf.db)
    migrate outside.goose
    if cnf.elastic.enabled
        then (do lift outside.client; wait_for_elasticsearch outside.create)
        else pure tt
    lift outside.ping
    lift entry_served.0

  unfoldable pub worker_main : Act Clock (List Published)
  worker_main = do
    lift (validate cnf)
    lift (new_client outside.site.connection)
    lift (new_database outside.driver cnf.db)
    wait_for_migrations outside.goose
    if cnf.elastic.enabled then lift outside.client else pure tt
    lift worker_served.0

-- A server that ran had a usable environment and a database whose migrations were run.
abbrev pub IsReady : Outside → ℕ → Type 0
IsReady outside runs =
    IsUsable outside.env
    × (outside.driver.ping ≡ ok tt)
    × ((n : ℕ) × (n < runs) × (outside.goose n ≡ ok tt))

abbrev pub start : Clock
start = record { calls = 0; slept = 0 }
