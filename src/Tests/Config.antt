-- ===== src/Tests/Config.antt =====
-- The configuration and the logger at concrete inputs.
use agreements_generator_api.Prelude.{
  ◌≡◌, ◌↔◌, refl, String, ◌==◌, List, [], ◌∷◌, Option, none, some, false, if◌then◌else◌,
}
use agreements_generator_api.Prelude.Dict.{lookup, insert}
use agreements_generator_api.Effect.{ok}
use agreements_generator_api.Config.{Outside, secret_names, load_env_vars, with_secrets, load}
use agreements_generator_api.Config.Loaded.{IsLoaded, load_iff}
use agreements_generator_api.Logger as Logger
use agreements_generator_api.Logger.{Field, Level, error, Zap, zap_logger, text}
use agreements_generator_api.Logger.Calls.{Logs, load-Logs}
use agreements_generator_api.Tests.Fixtures.{cfg, file}

-- The environment of the tests.
abbrev pub variable : String → Option String
variable name =
    if name == "JWT_SECRET"
    then some "k"
    else if name == "DB_USER"
    then some "db"
    else if name == "DB_PASSWORD"
    then some "p"
    else if name == "REDIS_PASSWORD"
    then some "r"
    else if name == "RABBITMQ_PASSWORD"
    then some "password"
    else none

abbrev pub outside : Outside
outside = record {
  flag = "config.yaml";
  lookup_env = variable;
  is_not_exist = λ path. false;
  read_config = λ path. ok file;
  order = secret_names;
}

load_iff_example : (load outside ≡ ok cfg) ↔ IsLoaded outside cfg
load_iff_example = load_iff outside cfg λ name. refl

-- It is loaded.
pub loaded : load outside ≡ ok cfg
unfolding load load_env_vars with_secrets lookup insert
loaded = refl

-- A logger that keeps its messages.
abbrev keeping : Zap (List String)
keeping level msg fields s = msg ∷ s

made : Logger.load (ok keeping) (ok keeping) cfg ≡ ok (zap_logger keeping)
unfolding Logger.load
made = refl

load-Logs_example :
    (zap : Zap (List String)) × ((if cfg.log.level == "production" then ok keeping else ok keeping)
      ≡ ok zap)
    × Logs zap error "failed"
        (text "job" ∷ [])
        []
        (zap_logger keeping error "failed" (text "job" ∷ []) [])
load-Logs_example =
    load-Logs (ok keeping) (ok keeping) cfg (zap_logger keeping) error "failed" (text "job" ∷ []) []
      made
