-- ===== src/Config/Environment.antt =====
-- internal/config/config.go: how a setting is read from the environment. How the standard library reads
-- a duration is a parameter.
use updater_service.Base.{
  ℕ, ◌*◌, String, ◌<>◌, ℤ, Bool, true, false, Option, none, some, Result, ◌==◌, string_eq,
  if◌then◌else◌, on_option, on_result, ◌||◌,
}
use updater_service.Config.Size.{codes, parse_int}

-- The process's environment, time.ParseDuration, and the text of the bytes that rand.Read gives.
pub record Environment : Type 0 where
  pub lookup : String → Option String
  pub parse_duration : String → Result ℤ
  pub random_hex : String

abbrev pub second : ℕ
second = 1000000000

abbrev pub minute : ℕ
minute = 60 * second

-- strconv.ParseBool
unfoldable pub parse_bool : String → Option Bool
parse_bool s =
    if s == "1" || s == "t" || s == "T" || s == "true" || s == "TRUE" || s == "True"
    then some true
    else if s == "0" || s == "f" || s == "F" || s == "false" || s == "FALSE" || s == "False"
    then some false
    else none

module _ (env : Environment) where
  unfoldable pub get_string : String → String → String
  get_string key fallback = on_option (env.lookup key) fallback (λ val. val)

  unfoldable pub get_duration : String → ℤ → ℤ
  get_duration key fallback =
      on_option (env.lookup key) fallback
        (λ val. on_result (env.parse_duration val) (λ e. fallback) (λ parsed. parsed))

  unfoldable pub get_int : String → ℤ → ℤ
  get_int key fallback =
      on_option (env.lookup key) fallback
        (λ val. let (n, e) = parse_int (codes val) in on_option e n (λ _. fallback))

  unfoldable pub get_bool : String → Bool → Bool
  get_bool key fallback =
      on_option (env.lookup key) fallback (λ val. on_option (parse_bool val) fallback (λ b. b))

  unfoldable pub generate_incarnation_id : String
  generate_incarnation_id = "inc-" <> env.random_hex
