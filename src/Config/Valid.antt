-- ===== src/Config/Valid.antt =====
-- Which environments give valid settings.
use updater_service.Base.{
  ◌<◌, ap, String, ℤ, pos, some, ok, ◌≡◌, ◌≢◌, ◌↔◌, ◌<ℤ◌, arith, ◌*◌, string_eq,
}
use Prim.Native.String.{len}
use updater_service.Config.Settings.{ApplicationConfig}
use updater_service.Config.Environment.{Environment, get_string, get_duration, second}
use updater_service.Config.Loading.{load_config, validate}

longer_ne : (s : String) → 0 < len s → s ≢ ""
longer_ne s h e = absurd (omega (arith, h, ap len e))

abbrev pub IsGiven : Environment → String → Type 0
IsGiven env key = env.lookup key ≢ some ""

get_string-IsGiven :
    (env : Environment) (key fallback : String)
    → fallback ≢ ""
    → (get_string env key fallback ≢ "") ↔ IsGiven env key
unfolding get_string
get_string-IsGiven env key fallback set = ground (arith, set)

abbrev pub interval : Environment → ℤ
interval env = get_duration env "NODE_HEARTBEAT_INTERVAL" (pos (5 * second))

abbrev pub timeout : Environment → ℤ
timeout env = get_duration env "NODE_HEARTBEAT_TIMEOUT" (pos (15 * second))

validate_iff :
    (c : ApplicationConfig)
    → (validate c ≡ ok tt) ↔ (
        (c.node.id ≢ "")
        × (c.node.role ≢ "")
        × (pos 0 <ℤ c.node.heartbeat_interval)
        × (c.node.heartbeat_interval <ℤ c.node.heartbeat_timeout)
        × (c.nats.url ≢ "")
        × (c.db.host ≢ "")
        × (c.db.name ≢ "")
        × (c.db.username ≢ ""))
unfolding validate
validate_iff c = ground arith

-- What an environment must say, where a duration that is missing or cannot be read is five seconds for
-- the interval and fifteen for the timeout.
abbrev pub IsUsable : Environment → Type 0
IsUsable env =
    IsGiven env "NODE_ID"
    × IsGiven env "NODE_ROLE"
    × (pos 0 <ℤ interval env)
    × (interval env <ℤ timeout env)
    × IsGiven env "NATS_URL"
    × IsGiven env "DB_HOST"
    × IsGiven env "DB_NAME"
    × IsGiven env "DB_USER"

-- The settings that are read from an environment are valid exactly if it sets none of the texts that
-- are required to the empty text, its heartbeat interval is positive and its timeout is longer, where
-- a duration that is missing or cannot be read is five and fifteen seconds.
pub load_config-IsValid : (env : Environment) → (validate (load_config env) ≡ ok tt) ↔ IsUsable env
unfolding load_config
load_config-IsValid env =
    let id = get_string-IsGiven env "NODE_ID" "node-1" (longer_ne "node-1" (omega arith)) in
    let role = get_string-IsGiven env "NODE_ROLE" "entry" (longer_ne "entry" (omega arith)) in
    let url =
      get_string-IsGiven env "NATS_URL" "nats://localhost:4222"
        (longer_ne "nats://localhost:4222" (omega arith)) in
    let host = get_string-IsGiven env "DB_HOST" "127.0.0.1" (longer_ne "127.0.0.1" (omega arith)) in
    let name =
      get_string-IsGiven env "DB_NAME" "file_service" (longer_ne "file_service" (omega arith)) in
    let username = get_string-IsGiven env "DB_USER" "app" (longer_ne "app" (omega arith)) in
    let whole = validate_iff (load_config env) in
    (
      λ h.
          let (a, b, c, d, e, f, g, i) = whole.0 h in
          (id.0 a, role.0 b, c, d, url.0 e, host.0 f, name.0 g, username.0 i),
      λ (a, b, c, d, e, f, g, i).
          whole.1 (id.1 a, role.1 b, c, d, url.1 e, host.1 f, name.1 g, username.1 i),
    )
