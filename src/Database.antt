-- ===== src/Database.antt =====
-- internal/db/mariadb/mariadb.go: `New` and `buildDSN`. The driver of the database is a parameter: what
-- sql.Open and the first ping return.
use updater_service.Base.{
  ◌*◌, String, ◌<>◌, ℤ, pos, leb_ℤ, ltb_ℤ, ◌<ℤ◌, ◌≤ℤ◌, ◌||◌, Bool, true, Result, ok, err, wrapping,
  on_result, if◌then◌else◌, ◌==◌, string_eq, arith,
}
use updater_service.Config.Settings.{DbConfig}
use updater_service.Config.Environment.{second}

-- mysql.Config
pub record Dsn : Type 0 where
  pub user : String
  pub passwd : String
  pub net : String
  pub addr : String
  pub db_name : String
  pub parse_time : Bool
  pub multi_statements : Bool
  pub dial_timeout : ℤ

unfoldable pub build_dsn : DbConfig → Dsn
build_dsn cfg = record {
  user = cfg.username;
  passwd = cfg.password;
  net = "tcp";
  addr = (if cfg.host == "localhost" then "127.0.0.1" else cfg.host) <> ":" <> cfg.port;
  db_name = cfg.name;
  parse_time = true;
  multi_statements = true;
  dial_timeout =
      if leb_ℤ cfg.connect_timeout (pos 0) then pos (5 * second) else cfg.connect_timeout;
}

-- What the pool of connections is set to.
pub record Pool : Type 0 where
  pub max_open_conns : ℤ
  pub max_idle_conns : ℤ
  pub conn_max_lifetime : ℤ
  pub conn_max_idle_time : ℤ

unfoldable pub pool_of : DbConfig → Pool
pool_of cfg =
    let idle = cfg.conn_max_idle_time in
    record {
      max_open_conns = cfg.max_open_conns;
      max_idle_conns = cfg.max_idle_conns;
      conn_max_lifetime = cfg.conn_max_lifetime;
      conn_max_idle_time =
          if leb_ℤ idle (pos 0) || ltb_ℤ (pos (30 * second)) idle then pos (30 * second) else idle;
    }

-- What sql.Open and PingContext return.
pub record Driver : Type 0 where
  pub connect : Dsn → Result (Unit {0})
  pub ping : Result (Unit {0})

unfoldable pub new_database : Driver → DbConfig → Result Pool
new_database driver cfg =
    on_result (wrapping "failed to open database" (driver.connect (build_dsn cfg))) err (λ _.
      on_result (wrapping "failed to connect to database" driver.ping) err (λ _. ok (pool_of cfg)))

-- Idle connections are closed after thirty seconds at most, and after some time.
pub pool_of_lem :
    (cfg : DbConfig)
    → (pos 0 <ℤ (pool_of cfg).conn_max_idle_time)
      × ((pool_of cfg).conn_max_idle_time ≤ℤ pos (30 * second))
unfolding pool_of
pool_of_lem cfg = ground arith
