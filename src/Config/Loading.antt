-- ===== src/Config/Loading.antt =====
-- internal/config/config.go: `LoadConfig`, which returns no error, and `Validate`.
use updater_service.Base.{
  ◌*◌, ◌^◌, pos, negsuc, false, text, Result, ok, err, leb_ℤ, ◌==◌, string_eq, if◌then◌else◌,
}
use updater_service.Config.Settings.{
  AppConfig, HttpConfig, DbConfig, NatsConfig, NodeConfig, FileConfig, OperationConfig,
  ElasticConfig, ServicesConfig, ApplicationConfig,
}
use updater_service.Config.Environment.{
  Environment, second, minute, get_string, get_duration, get_int, get_bool, generate_incarnation_id,
}

module _ (env : Environment) where
  abbrev pub load_app : AppConfig
  load_app = record {
    app_name = get_string env "APP_NAME" "node-service";
    app_env = get_string env "APP_ENV" "development";
    gin_mode = get_string env "GIN_MODE" "debug";
  }

  abbrev pub load_http : HttpConfig
  load_http = record {
    host = get_string env "HTTP_HOST" "0.0.0.0";
    port = get_string env "HTTP_PORT" "8080";
    read_timeout = get_duration env "HTTP_READ_HEADER_TIMEOUT" (pos (5 * second));
    idle_timeout = get_duration env "HTTP_IDLE_TIMEOUT" (pos (60 * second));
    shutdown_timeout = get_duration env "HTTP_SHUTDOWN_TIMEOUT" (pos (10 * second));
    cors_origin = get_string env "CORS_ALLOWED_ORIGINS" "http://localhost:3000";
  }

  abbrev pub load_db : DbConfig
  load_db = record {
    host = get_string env "DB_HOST" "127.0.0.1";
    port = get_string env "DB_PORT" "3306";
    name = get_string env "DB_NAME" "file_service";
    username = get_string env "DB_USER" "app";
    password = get_string env "DB_PASSWORD" "secret";
    max_open_conns = get_int env "DB_MAX_OPEN_CONNS" (pos 20);
    max_idle_conns = get_int env "DB_MAX_IDLE_CONNS" (pos 10);
    conn_max_lifetime = get_duration env "DB_CONN_MAX_LIFETIME" (pos (30 * minute));
    conn_max_idle_time = get_duration env "DB_CONN_MAX_IDLE_TIME" (pos (5 * minute));
    connect_timeout = get_duration env "DB_CONNECT_TIMEOUT" (pos (5 * second));
  }

  abbrev pub load_nats : NatsConfig
  load_nats = record {
    url = get_string env "NATS_URL" "nats://localhost:4222";
    connect_timeout = get_duration env "NATS_CONNECT_TIMEOUT" (pos (5 * second));
    reconnect_period = get_duration env "NATS_RECONNECT_WAIT" (pos (2 * second));
    max_reconnect = get_int env "NATS_MAX_RECONNECTS" (negsuc 0);
    drain_timeout = get_duration env "NATS_DRAIN_TIMEOUT" (pos (10 * second));
    stream_name = get_string env "NATS_STREAM_NAME" "FILE_SERVICE";
  }

  abbrev pub load_node : NodeConfig
  load_node = record {
    id = get_string env "NODE_ID" "node-1";
    role = get_string env "NODE_ROLE" "entry";
    address = get_string env "NODE_ADDRESS" "";
    version = get_string env "NODE_VERSION" "dev";
    incarnation_id = get_string env "NODE_INCARNATION_ID" (generate_incarnation_id env);
    heartbeat_interval = get_duration env "NODE_HEARTBEAT_INTERVAL" (pos (5 * second));
    heartbeat_timeout = get_duration env "NODE_HEARTBEAT_TIMEOUT" (pos (15 * second));
  }

  abbrev pub load_file : FileConfig
  load_file = record {
    path = get_string env "FILE_STAGING_DIR" "/tmp/transfers";
    chunk_size = get_string env "FILE_CHUNK_SIZE" "1MiB";
    max_size = get_string env "FILE_MAX_SIZE" "1GiB";
    transfer_timeout = get_duration env "FILE_TRANSFER_TIMEOUT" (pos (30 * minute));
    chunk_ack_timeout = get_duration env "FILE_CHUNK_ACK_TIMEOUT" (pos (10 * second));
    tusd_upload_dir = get_string env "FILE_TUSD_UPLOAD_DIR" "/var/lib/update-entry/uploads";
    tusd_max_size = get_string env "FILE_TUSD_MAX_SIZE" "20GiB";
    tusd_base_path = get_string env "FILE_TUSD_BASE_PATH" "/uploads";
    tusd_notify_timeout = get_duration env "FILE_TUSD_NOTIFY_TIMEOUT" (pos (10 * second));
    download_concurrency = get_int env "FILE_DOWNLOAD_CONCURRENCY" (pos 4);
    download_chunk_size = get_string env "FILE_DOWNLOAD_CHUNK_SIZE" "64MiB";
    download_max_retries = get_int env "FILE_DOWNLOAD_MAX_RETRIES" (pos 3);
  }

  abbrev pub load_operation : OperationConfig
  load_operation = record {
    operation_timeout = get_duration env "OPERATION_TIMEOUT" (pos (30 * minute));
    command_action_timeout = get_duration env "COMMAND_ACK_TIMEOUT" (pos (10 * second));
    processing_timeout = get_duration env "PROCESSING_TIMEOUT" (pos (10 * minute));
    docker_restart_timeout = get_duration env "DOCKER_RESTART_TIMEOUT" (pos (15 * second));
    health_check_timeout = get_duration env "HEALTH_CHECK_TIMEOUT" (pos (15 * second));
    health_request_timeout = get_duration env "HEALTH_REQUEST_TIMEOUT" (pos (2 * second));
    retry_initial_delay = get_duration env "RETRY_INITIAL_DELAY" (pos (1 * second));
    retry_max_delay = get_duration env "RETRY_MAX_DELAY" (pos (4 * second));
    max_health_retries = get_int env "MAX_HEALTH_RETRIES" (pos 3);
  }

  abbrev pub load_elastic : ElasticConfig
  load_elastic = record {
    enabled = get_bool env "ELASTIC_ENABLED" false;
    url = get_string env "ELASTIC_URL" "http://localhost:9200";
    username = get_string env "ELASTIC_USER" "elastic";
    password = get_string env "ELASTIC_PASSWORD" "changeme";
    index = get_string env "ELASTIC_INDEX_PREFIX" "file-service-operation-completed";
    workers = get_int env "ELASTIC_WORKERS" (pos 2);
    channel_cap = get_int env "ELASTIC_CHANNEL_CAP" (pos 1000);
    flush_bytes = get_int env "ELASTIC_FLUSH_BYTES" (pos (5 * 2 ^ 20));
    flush_interval = get_duration env "ELASTIC_FLUSH_INTERVAL" (pos (5 * second));
    max_retries = get_int env "ELASTIC_MAX_RETRIES" (pos 5);
    dlq_path = get_string env "ELASTIC_DLQ_PATH" "/tmp/update/es-dead-letter";
  }

  abbrev pub load_services : ServicesConfig
  load_services = record { services_root = get_string env "SERVICES_ROOT" "./" }

  unfoldable pub load_config : ApplicationConfig
  load_config = record {
    app = load_app;
    http = load_http;
    db = load_db;
    nats = load_nats;
    node = load_node;
    file = load_file;
    operation = load_operation;
    elastic = load_elastic;
    services = load_services;
  }

unfoldable pub validate : ApplicationConfig → Result (Unit {0})
validate c =
    if c.node.id == ""
    then err (text "NODE_ID is required")
    else if c.node.role == ""
    then err (text "NODE_ROLE is required")
    else if leb_ℤ c.node.heartbeat_interval (pos 0)
    then err (text "NODE_HEARTBEAT_INTERVAL must be positive")
    else if leb_ℤ c.node.heartbeat_timeout c.node.heartbeat_interval
    then err (text "NODE_HEARTBEAT_TIMEOUT must be greater than NODE_HEARTBEAT_INTERVAL")
    else if c.nats.url == ""
    then err (text "NATS_URL is required")
    else if c.db.host == ""
    then err (text "DB_HOST is required")
    else if c.db.name == ""
    then err (text "DB_NAME is required")
    else if c.db.username == ""
    then err (text "DB_USER is required")
    else ok tt
