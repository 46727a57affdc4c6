-- ===== src/Config.antt =====
-- internal/config/config.go: the configuration, and how it is loaded. Package flag, the environment,
-- the file system and the library cleanenv, which reads the file and puts in the defaults, are
-- parameters.
pub mod Loaded
pub mod Secrets
use agreements_generator_api.Prelude.{
  ℕ, Bool, false, String, ◌<>◌, ◌==◌, List, [], ◌∷◌, Option, none, some, if◌then◌else◌,
}
use agreements_generator_api.Prelude.Dict.{Dict, insert, lookup}
use agreements_generator_api.Effect.{Result, ok, fail, Proc}
use agreements_generator_api.Domain.Errors.{Err, foreign, wrapf}

-- A time.Duration is its number of nanoseconds.
pub record Log : Type 0 where
  pub kind : String
  pub level : String

pub record ServerConfig : Type 0 where
  pub port : String
  pub shutdown_duration : ℕ

pub record GrpcClientConfig : Type 0 where
  pub host : String
  pub port : String
  pub job_max_duration : ℕ

pub record StorageConfig : Type 0 where
  pub job_ttl : ℕ
  pub kind : String
  pub driver : String
  pub host : String
  pub port : String
  pub database : String

pub record RedisConfig : Type 0 where
  pub host : String
  pub port : String
  pub db : ℕ
  pub job_status_ttl : ℕ

pub record RabbitConfig : Type 0 where
  pub host : String
  pub port : ℕ
  pub username : String
  pub vhost : String
  pub queue : String

pub record Security : Type 0 where
  pub hash_cost : ℕ
  pub min_password_len : ℕ
  pub secret_key : String
  pub db_user : String
  pub db_password : String
  pub redis_password : String
  pub rabbit_password : String

pub record JwtConfig : Type 0 where
  pub signing_method : String
  pub token_ttl : ℕ
  pub prefix : String

pub record Config : Type 0 where
  pub env : String
  pub log : Log
  pub server : ServerConfig
  pub exec_mode : String
  pub grpc_client : GrpcClientConfig
  pub storage : StorageConfig
  pub redis : RedisConfig
  pub rabbit : RabbitConfig
  pub jwt : JwtConfig
  pub security : Security

-- `loadEnvVars`. `names` are the keys of its map in the order in which the loop meets them, and
-- the state holds the strings that the map's pointers point to; `lookup_env` is os.LookupEnv.
unfoldable pub load_env_vars :
    (String → Option String) → List String → Proc (Dict String) (Unit {0})
load_env_vars lookup_env [] cfg = (ok tt, cfg)
load_env_vars lookup_env (name ∷ names) cfg = elim (lookup_env name) [
  | none ↦ (fail (foreign (name <> " is denied")), cfg)
  | some value ↦
      let rest = load_env_vars lookup_env names (insert name value cfg) in
      if value == "" then (fail (foreign (name <> " is empty")), cfg) else rest
]

-- The names that `Load` asks for.
abbrev pub secret_names : List String
secret_names =
    "JWT_SECRET" ∷ "DB_USER" ∷ "DB_PASSWORD" ∷ "REDIS_PASSWORD" ∷ "RABBITMQ_PASSWORD" ∷ []

-- The strings that the pointers of the map of `Load` point to, before `loadEnvVars` and after it.
abbrev pub pointed : Security → Dict String
pointed security =
    ("JWT_SECRET", security.secret_key)
    ∷ ("DB_USER", security.db_user)
    ∷ ("DB_PASSWORD", security.db_password)
    ∷ ("REDIS_PASSWORD", security.redis_password)
    ∷ ("RABBITMQ_PASSWORD", security.rabbit_password)
    ∷ []

abbrev pub text_or_empty : Option String → String
text_or_empty none = ""
text_or_empty (some text) = text

unfoldable pub with_secrets : Dict String → Security → Security
with_secrets values security = record security {
  secret_key = text_or_empty (lookup "JWT_SECRET" values);
  db_user = text_or_empty (lookup "DB_USER" values);
  db_password = text_or_empty (lookup "DB_PASSWORD" values);
  redis_password = text_or_empty (lookup "REDIS_PASSWORD" values);
  rabbit_password = text_or_empty (lookup "RABBITMQ_PASSWORD" values);
}

-- What the process finds: the value of the flag `config`, the variables of the environment, the
-- files that do not exist, what cleanenv.ReadConfig makes of a file, and the order in which the
-- loop of `loadEnvVars` meets the keys of its map.
pub record Outside : Type 0 where
  pub flag : String
  pub lookup_env : String → Option String
  pub is_not_exist : String → Bool
  pub read_config : String → Result Config
  pub order : List String

-- `fetchConfigPath`; os.Getenv gives the empty text for a variable that is not set.
unfoldable pub fetch_config_path : Outside → String
fetch_config_path o = if o.flag == "" then text_or_empty (o.lookup_env "CONFIG_PATH") else o.flag

-- What `Load` returns after `loadEnvVars`.
abbrev pub after_env_vars : Config → Result (Unit {0}) → Dict String → Result Config
after_env_vars cfg (ok u) values = ok (record cfg { security = with_secrets values cfg.security })
after_env_vars cfg (fail e) values = fail e

unfoldable pub load_secrets : Outside → Config → Result Config
load_secrets o cfg =
    let (r, values) = load_env_vars o.lookup_env o.order (pointed cfg.security) in
    after_env_vars cfg r values

-- `Load`
unfoldable pub load : Outside → Result Config
unfolding fetch_config_path load_secrets
load o =
    let path = fetch_config_path o in
    if path == ""
    then fail (foreign "config path is empty")
    else if o.is_not_exist path
    then fail (foreign "config path does not exist")
    else elim (o.read_config path) [
      | fail e ↦ fail (wrapf "can't read config" e)
      | ok cfg ↦ load_secrets o cfg
    ]
