-- ===== src/Main/Start.antt =====
-- `main` as a whole, up to the routes: the configuration, the logger, the token manager, the hasher,
-- the storage, and then `setup`. Every error ends the program.
use agreements_generator_api.Prelude.{ℕ, String, List, Option, none, some}
use agreements_generator_api.Effect.{Result, ok, fail, on_first, on_second}
use agreements_generator_api.Domain.Errors.{Err}
use agreements_generator_api.Domain.Generator.{Bytes, FilesErrors}
use agreements_generator_api.Config as Config
use agreements_generator_api.Config.{Config, Outside}
use agreements_generator_api.Logger as Logger
use agreements_generator_api.Logger.{Logger, Zap}
use agreements_generator_api.Encoder.{Encoder}
use agreements_generator_api.Hasher.{bcrypt_hasher}
use agreements_generator_api.Cache.{Redis}
use agreements_generator_api.Publisher.{Amqp}
use agreements_generator_api.TokenManager.{Jwt, TokenManager, method_of, token_maker, tokens_beside}
use agreements_generator_api.Storage.{InputArchiveStorer}
use agreements_generator_api.Storage.Postgres.{Pool}
use agreements_generator_api.Storage.Choice.{Opened, new}
use agreements_generator_api.Storage.{storage_beside, users_beside}
use agreements_generator_api.Api.{Handler}
use agreements_generator_api.Main.{Drivers, Parts, Server, setup}

-- Drivers and a raw store, beside the storage's state or over it.
module _ {S X : Type 0} where
  abbrev redis_beside : Redis X → Redis (S × X)
  redis_beside r = record {
    set = λ key value ttl. on_second (r.set key value ttl);
    get = λ key. on_second (r.get key);
    del = λ key. on_second (r.del key);
    close = on_second r.close;
  }

  abbrev amqp_beside : Amqp X → Amqp (S × X)
  amqp_beside a = record {
    dial = λ address. on_second (a.dial address);
    channel = on_second a.channel;
    queue_declare = λ name durable unused exclusive no_wait.
        on_second (a.queue_declare name durable unused exclusive no_wait);
    publish = λ exchange key message. on_second (a.publish exchange key message);
    close = on_second a.close;
  }

  abbrev pub drivers_beside : Drivers X → Drivers (S × X)
  drivers_beside d = record {
    dial = λ address. on_second (d.dial address);
    generate = λ archive. on_second (d.generate archive);
    conn_close = on_second d.conn_close;
    redis = redis_beside d.redis;
    amqp = amqp_beside d.amqp;
    marshal_delivery = d.marshal_delivery;
    unix_milli = on_second d.unix_milli;
    new_uuid = on_second d.new_uuid;
    itoa = d.itoa;
  }

  abbrev storer_beside : Option (InputArchiveStorer S) → Option (InputArchiveStorer (S × X))
  storer_beside none = none
  storer_beside (some st) =
      some (record { save_raw_archive = λ id archive. on_first (st.save_raw_archive id archive) })

-- The libraries. `X` is the state of all that is outside of the storage.
pub record Libs (X D Tx : Type 0) : Type 1 where
  pub production : Result (Zap X)
  pub development : Result (Zap X)
  pub encoder : Encoder
  pub jwt : Jwt
  pub clock : X → ℕ × X
  pub generate_hash : String → ℕ → Result Bytes
  pub compare_hash : Bytes → String → Option Err
  pub open_pool : String → Result (Pool D Tx × D)
  pub unmarshal : Bytes → Result (List FilesErrors)
  pub drivers : Drivers X
  pub metrics_page : {W : Type 0} → Handler W

-- The program that serves: its storage, its routes, and the state it begins with.
pub record Started (X : Type 0) : Type 1 where
  pub opened : Opened
  pub server : Server (opened.State × X)
  pub state : opened.State × X

module _ {X D Tx : Type 0} (libs : Libs X D Tx) where
  abbrev pub token_mng : Config → TokenManager X
  token_mng cfg =
      token_maker libs.jwt libs.encoder libs.clock cfg.jwt.token_ttl
        (method_of cfg.jwt.signing_method) cfg.security.secret_key cfg.jwt.prefix

  abbrev pub parts : Config → (opened : Opened) → Parts (opened.State × X)
  parts cfg opened = record {
    storage = storage_beside opened.generator;
    users = users_beside opened.users;
    storer = storer_beside opened.storer;
    token_mng = tokens_beside (token_mng cfg);
    hasher = bcrypt_hasher libs.generate_hash libs.compare_hash cfg.security.hash_cost;
    encoder = libs.encoder;
    metrics_page = libs.metrics_page;
  }

  abbrev pub with_server :
      (opened : Opened) → Result (Server (opened.State × X)) → opened.State × X → Result (Started X)
  with_server opened (ok srv) s = ok (record { opened = opened; server = srv; state = s })
  with_server opened (fail e) s = fail e

  abbrev pub with_storage : Config → Result Opened → X → Result (Started X)
  with_storage cfg (fail e) x = fail e
  with_storage cfg (ok opened) x =
      let (r, s) =
        setup cfg (drivers_beside libs.drivers) (ok (parts cfg opened)) (opened.state, x) in
      with_server opened r s

  abbrev pub with_logger : Config → Result (Logger X) → ℕ → X → Result (Started X)
  with_logger cfg (fail e) now x = fail e
  with_logger cfg (ok logger) now x = with_storage cfg (new libs.open_pool libs.unmarshal cfg now) x

  abbrev pub with_config : Result Config → ℕ → X → Result (Started X)
  with_config (fail e) now x = fail e
  with_config (ok cfg) now x =
      with_logger cfg (Logger.load libs.production libs.development cfg) now x

  unfoldable pub start : Outside → ℕ → X → Result (Started X)
  start o now x = with_config (Config.load o) now x
