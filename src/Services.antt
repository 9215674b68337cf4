-- ===== src/Services.antt =====
-- internal/services/services.go and internal/docker/runner.go: the catalogue of managed services, and
-- the replacement of a configuration file that keeps the old one.
pub mod Catalogue
pub mod Replacing
use updater_service.Base.{
  not, ◌++◌, ℕ, ◌-◌, String, ◌<>◌, Bool, ◌&&◌, Option, none, some, List, [], ◌∷◌, Error, text, wrap,
  Result, ok, err, Act, pure, attempt, raise, lift, ◌>>=◌, ◌>>◌, on_result, on_option, leb, ◌==◌,
  string_eq, nat_eq, if◌then◌else◌,
}
use updater_service.Config.Size.{Codes, codes}
use updater_service.Disk.{Disk, Faults, stat, create_file, copy_buffer, flush, rename}

pub record ServiceDefinition : Type 0 where
  pub container : String
  pub config_path : String
  pub health_url : String

-- filepath.Join, os.Getenv, and the end of `docker restart` for a container.
pub record Machine : Type 0 where
  pub join : List String → String
  pub getenv : Codes → String
  pub docker_restart : String → Result (Unit {0})

-- strings.ToUpper of an ASCII letter, after the replacement of `-`.
abbrev pub env_letter : ℕ → ℕ
env_letter c = if c == 45 then 95 else if leb 97 c && leb c 122 then c - 32 else c

abbrev pub env_letters : Codes → Codes
env_letters [] = []
env_letters (c ∷ s) = env_letter c ∷ env_letters s

unfoldable pub health_url_env_key : String → Codes
health_url_env_key service = codes "HEALTH_URL_" ++ env_letters (codes service)

-- The map literal of `NewServiceDefinition`.
unfoldable pub catalogue : Machine → String → String → Option ServiceDefinition
catalogue m root service =
    if service == "hello-service"
    then some (record {
      container = "hello-service";
      config_path = m.join (root ∷ "hello-service" ∷ "config.yaml" ∷ []);
      health_url = "http://localhost:18080/health";
    })
    else if service == "config-service"
    then some (record {
      container = "config-service";
      config_path = m.join (root ∷ "config-service" ∷ "config" ∷ "config.yaml" ∷ []);
      health_url = "";
    })
    else if service == "test-service"
    then some (record {
      container = "test-service";
      config_path = m.join (root ∷ "test-service" ∷ "config" ∷ "config.yaml" ∷ []);
      health_url = "";
    })
    else if service == "data-service"
    then some (record {
      container = "data-service";
      config_path = m.join (root ∷ "data-service" ∷ "config" ∷ "config.yaml" ∷ []);
      health_url = "http://data-service:8081/health";
    })
    else none

unfoldable pub new_service_definition : Machine → String → String → Option ServiceDefinition
new_service_definition m root service = on_option (catalogue m root service) none (λ def.
    let override = m.getenv (health_url_env_key service) in
    some (if not (override == "") then record def { health_url = override } else def))

-- `Runner.services`
abbrev pub Runner : Type 0
Runner = List (String × ServiceDefinition)

unfoldable pub service_of : Runner → String → Option ServiceDefinition
service_of [] service = none
service_of ((name, def) ∷ runner) service =
    let rest = service_of runner service in if name == service then some def else rest

-- The loop of `NewRunner` over the names that are left. No name comes twice.
unfoldable pub add_services : Machine → String → List String → Runner
add_services m root [] = []
add_services m root (name ∷ names) =
    let rest = add_services m root names in
    on_option (new_service_definition m root name) rest (λ def. (name, def) ∷ rest)

unfoldable pub new_runner : Machine → String → Runner
new_runner m root =
    add_services m root ("hello-service" ∷ "config-service" ∷ "test-service" ∷ "data-service" ∷ [])

unfoldable pub restart : Machine → Runner → String → Result (Unit {0})
restart m runner service =
    on_option (service_of runner service) (err (text "unknown service")) (λ def.
      on_result (m.docker_restart def.container) (λ e. err (wrap "docker restart failed" e)) ok)

-- `HealthURL`
unfoldable pub health_url_of : Runner → String → Option String
health_url_of runner service =
    on_option (service_of runner service) none (λ def. some def.health_url)

module _ (os : Faults) where
  unfoldable pub copy_file : String → String → Act Disk Unit
  copy_file src dst = do stat os src; create_file os dst; copy_buffer os src dst; flush os

  unfoldable pub backup_file : String → String → Act Disk Unit
  backup_file source backup = do
    stat os source
    create_file os backup
    copy_buffer os source backup
    flush os

  unfoldable pub sync_file : String → Act Disk Unit
  sync_file path = do stat os path; flush os

  unfoldable pub replace_config : String → String → String → Act Disk Unit
  replace_config staged target backup = do
    copy_file staged (target <> ".new")
    sync_file (target <> ".new")
    present ← attempt (stat os target)
    on_result present (λ e. pure tt) (λ _. rename os target backup)
    rename os (target <> ".new") target
