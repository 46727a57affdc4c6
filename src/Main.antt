-- ===== src/Main.antt =====
-- cmd/generator/main.go: what `main` makes of its parts, up to the server's handler. `config.Load`,
-- the logger and the serving of requests are left out; `logger.Fatal` ends the program, here with
-- the error.
pub mod Closed
pub mod Start
pub mod Guarded
pub mod Serve
pub mod Stop
pub mod Returns
use agreements_generator_api.Prelude.{ℕ, String, ◌<>◌, List, Option, none, some}
use agreements_generator_api.Effect.{
  Result, ok, fail, Proc, pure, lift, ignore, on_error, ◌>>=◌, ◌>>◌,
}
use agreements_generator_api.Config.{Config}
use agreements_generator_api.Domain.Generator.{Bytes}
use agreements_generator_api.Encoder.{Encoder}
use agreements_generator_api.Storage.{GeneratorStorage, UserStorage, InputArchiveStorer}
use agreements_generator_api.Cache.{Cacher, Redis, redis_cacher}
use agreements_generator_api.GenClient.{GenerateResponse, GeneratorClient, client}
use agreements_generator_api.Publisher.{Publisher, Amqp, DeliveryJob, new_publisher}
use agreements_generator_api.Hasher.{Hasher}
use agreements_generator_api.TokenManager.{TokenManager}
use agreements_generator_api.Service.{World, ProcessJobParams, call}
use agreements_generator_api.Service.Auth.{Auth, auth_service}
use agreements_generator_api.Service.Gen.{new_gen}
use agreements_generator_api.Service.Grpc.{process_job}
use agreements_generator_api.Api.{Handler}
use agreements_generator_api.Api.Routes.{Route, main_routes}

-- What the drivers do with the state `E` of the outside. `dial` is grpc.NewClient.
pub record Drivers (E : Type 0) : Type 0 where
  pub dial : String → Proc E (Unit {0})
  pub generate : Bytes → Proc E GenerateResponse
  pub conn_close : Proc E (Unit {0})
  pub redis : Redis E
  pub amqp : Amqp E
  pub marshal_delivery : DeliveryJob → Result Bytes
  pub unix_milli : Proc E ℕ
  pub new_uuid : Proc E String
  pub itoa : ℕ → String

-- The parts that are made before: the storage by `storage.New`, and those that hold no connection.
pub record Parts (E : Type 0) : Type 0 where
  pub storage : GeneratorStorage E
  pub users : UserStorage E
  pub storer : Option (InputArchiveStorer E)
  pub token_mng : TokenManager E
  pub hasher : Hasher
  pub encoder : Encoder
  pub metrics_page : Handler (World E)

-- The routes that are served, and the goroutine of a job.
pub record Server (E : Type 0) : Type 0 where
  pub routes : List (Route (World E))
  pub goroutine : ProcessJobParams → World E → Option (World E)

module _ {E : Type 0} where
  -- `domain.CloseObj`: the error of `Close` goes to the log only.
  abbrev pub close_obj : Proc E (Unit {0}) → Proc E (Unit {0})
  close_obj close = ignore close

  abbrev pub auth_in_world : Auth E → Auth (World E)
  auth_in_world auth = record {
    register = λ body. call (auth.register body);
    log_in = λ body. call (auth.log_in body);
  }

  abbrev pub tokens_in_world : TokenManager E → TokenManager (World E)
  tokens_in_world tm = record {
    create = λ user. call (tm.create user);
    validate = λ token. call (tm.validate token);
    parse = λ token. call (tm.parse token);
    get_prefix = tm.get_prefix;
  }

  abbrev pub grpc_client : Drivers E → GeneratorClient E
  grpc_client drivers = client drivers.generate drivers.conn_close

  abbrev pub cacher : Config → Drivers E → Cacher E
  cacher cfg drivers = redis_cacher drivers.redis cfg.redis.job_status_ttl

  abbrev pub publisher : Config → Drivers E → Proc E (Publisher E)
  publisher cfg drivers =
      new_publisher drivers.amqp drivers.marshal_delivery drivers.unix_milli drivers.itoa
        cfg.rabbit.host cfg.rabbit.port cfg.rabbit.username cfg.security.rabbit_password
        cfg.rabbit.vhost cfg.rabbit.queue

  -- `NewGen`, `NewAuth`, and the registration of the routes.
  abbrev pub server : Config → Drivers E → Parts E → Publisher E → Server E
  server cfg drivers parts publer =
      let gen =
        new_gen parts.storage parts.storer publer (cacher cfg drivers) drivers.new_uuid
          cfg.exec_mode in
      let auth =
        auth_service parts.users parts.token_mng parts.hasher cfg.security.min_password_len in
      record {
        routes =
            main_routes parts.encoder parts.metrics_page (tokens_in_world parts.token_mng) gen
              (auth_in_world auth);
        goroutine = process_job parts.storage (cacher cfg drivers) (grpc_client drivers);
      }

  -- `main`, from the result of `storage.New` to the routes.
  unfoldable pub setup : Config → Drivers E → Result (Parts E) → Proc E (Server E)
  setup cfg drivers opened = do
    parts ← lift opened
    drivers.dial (cfg.grpc_client.host <> (":" <> cfg.grpc_client.port))
    close_obj (grpc_client drivers).close
    close_obj (cacher cfg drivers).close
    publer ← publisher cfg drivers
    close_obj publer.close
    pure (server cfg drivers parts publer)
