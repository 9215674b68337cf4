-- ===== src/Config/Settings.antt =====
-- internal/config/config.go: the types. A duration is a number of nanoseconds.
use updater_service.Base.{String, ℤ, Bool}

pub record AppConfig : Type 0 where
  pub app_name : String
  pub app_env : String
  pub gin_mode : String

pub record HttpConfig : Type 0 where
  pub host : String
  pub port : String
  pub read_timeout : ℤ
  pub idle_timeout : ℤ
  pub shutdown_timeout : ℤ
  pub cors_origin : String

pub record DbConfig : Type 0 where
  pub host : String
  pub port : String
  pub name : String
  pub username : String
  pub password : String
  pub max_open_conns : ℤ
  pub max_idle_conns : ℤ
  pub conn_max_lifetime : ℤ
  pub conn_max_idle_time : ℤ
  pub connect_timeout : ℤ

pub record NatsConfig : Type 0 where
  pub url : String
  pub connect_timeout : ℤ
  pub reconnect_period : ℤ
  pub max_reconnect : ℤ
  pub drain_timeout : ℤ
  pub stream_name : String

pub record NodeConfig : Type 0 where
  pub id : String
  pub role : String
  pub address : String
  pub version : String
  pub incarnation_id : String
  pub heartbeat_interval : ℤ
  pub heartbeat_timeout : ℤ

pub record FileConfig : Type 0 where
  pub path : String
  pub chunk_size : String
  pub max_size : String
  pub transfer_timeout : ℤ
  pub chunk_ack_timeout : ℤ
  pub tusd_upload_dir : String
  pub tusd_max_size : String
  pub tusd_base_path : String
  pub tusd_notify_timeout : ℤ
  pub download_concurrency : ℤ
  pub download_chunk_size : String
  pub download_max_retries : ℤ

pub record OperationConfig : Type 0 where
  pub operation_timeout : ℤ
  pub command_action_timeout : ℤ
  pub processing_timeout : ℤ
  pub docker_restart_timeout : ℤ
  pub health_check_timeout : ℤ
  pub health_request_timeout : ℤ
  pub retry_initial_delay : ℤ
  pub retry_max_delay : ℤ
  pub max_health_retries : ℤ

pub record ElasticConfig : Type 0 where
  pub enabled : Bool
  pub url : String
  pub username : String
  pub password : String
  pub index : String
  pub workers : ℤ
  pub channel_cap : ℤ
  pub flush_bytes : ℤ
  pub flush_interval : ℤ
  pub max_retries : ℤ
  pub dlq_path : String

pub record ServicesConfig : Type 0 where
  pub services_root : String

pub record ApplicationConfig : Type 0 where
  pub app : AppConfig
  pub http : HttpConfig
  pub db : DbConfig
  pub nats : NatsConfig
  pub node : NodeConfig
  pub file : FileConfig
  pub operation : OperationConfig
  pub elastic : ElasticConfig
  pub services : ServicesConfig
