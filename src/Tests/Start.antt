-- ===== src/Tests/Start.antt =====
-- `main` over libraries made up for the tests, whose state is a clock, and a request without a token.
use agreements_generator_api.Prelude.{ℕ, ◌≡◌, refl, ap, [], Option, none, some}
use agreements_generator_api.Effect.{ok, fail, Proc}
use agreements_generator_api.Domain.Errors.{foreign}
use agreements_generator_api.Config.{load, load_env_vars}
use agreements_generator_api.Config.Loaded.{IsLoaded}
use agreements_generator_api.Logger as Logger
use agreements_generator_api.Logger.{Zap}
use agreements_generator_api.Cache.{Redis}
use agreements_generator_api.Publisher.{Amqp, new_publisher}
use agreements_generator_api.Service.{World}
use agreements_generator_api.Api.{Handler, fresh_writer}
use agreements_generator_api.Api.Jobs.{handle_health_check}
use agreements_generator_api.Api.Token.{cut_prefix}
use agreements_generator_api.Api.Routes.{Route, find_route, IsRouter, serve}
use agreements_generator_api.Main.{Drivers, setup}
use agreements_generator_api.Storage.Choice.{new}
use agreements_generator_api.Main.Start.{Libs, Started, start}
use agreements_generator_api.Main.Guarded.{HasStorage, start-guarded}
use agreements_generator_api.Tests.Config.{outside, loaded}
use agreements_generator_api.Tests.Database.{Db}
use agreements_generator_api.Tests.Fixtures.{answer, cfg, request, world_of}
use agreements_generator_api.Tests.Users.{clock, encoder, jwt}

abbrev nothing : Proc ℕ (Unit {0})
nothing s = (ok tt, s)

abbrev zap : Zap ℕ
zap level msg fields s = s

abbrev redis : Redis ℕ
redis = record {
  set = λ key value ttl s. (ok "OK", s);
  get = λ key s. (fail (foreign "redis: nil"), s);
  del = λ key s. (ok 0, s);
  close = nothing;
}

abbrev amqp : Amqp ℕ
amqp = record {
  dial = λ address. nothing;
  channel = nothing;
  queue_declare = λ name durable unused exclusive no_wait. nothing;
  publish = λ exchange key message. nothing;
  close = nothing;
}

abbrev drivers : Drivers ℕ
drivers = record {
  dial = λ address. nothing;
  generate = λ archive s. (ok answer, s);
  conn_close = nothing;
  redis = redis;
  amqp = amqp;
  marshal_delivery = λ job. ok (some []);
  unix_milli = λ s. (ok 0, s);
  new_uuid = λ s. (ok "j1", s);
  itoa = λ n. "5672";
}

abbrev libs : Libs ℕ Db (Unit {0})
libs = record {
  production = ok zap;
  development = ok zap;
  encoder = encoder;
  jwt = jwt;
  clock = clock;
  generate_hash = λ plain cost. ok (some []);
  compare_hash = λ hashed plain. none;
  open_pool = λ address. fail (foreign "no server");
  unmarshal = λ bytes. ok [];
  drivers = drivers;
  metrics_page = handle_health_check encoder;
}

begins : (st : Started ℕ) × (start libs outside 5 10 ≡ ok st)
unfolding start load load_env_vars Logger.load new setup new_publisher
begins = (_, refl)

abbrev St : Type 0
St = World (begins.0.opened.State × ℕ)

-- A router that takes the first route that fits, and else answers nothing.
abbrev run : {W : Type 0} → Option (Route W) → Handler W
run none r w s = (w, s)
run (some route) r w s = route.handler r w s

abbrev router : Handler St
router r w s = run (find_route r begins.0.server.routes) r w s

router-IsRouter : IsRouter begins.0.server.routes router
router-IsRouter = record {
  runs = λ r w s route e. ap (λ found. run found r w s) e;
  refuses = λ r w s e. ap (λ found. (run found r w s).1) e;
}

start-guarded_example :
    let s = world_of begins.0.state in
    let s' = (serve (λ r. r.path) (λ n. "401") router (request "j1") (fresh_writer []) s).1 in
    IsLoaded outside cfg × HasStorage cfg × (s'.env ≡ s.env) × (s'.running ≡ s.running)
unfolding cut_prefix
start-guarded_example =
    start-guarded libs cfg outside 5 10 begins.0 router (request "j1") (fresh_writer [])
      (world_of begins.0.state) (λ r. r.path) (λ n. "401") (λ name. refl) loaded begins.1
      router-IsRouter refl refl
