-- ===== src/Tests/Main.antt =====
-- `main` over drivers that answer while the connection to the worker is open.
use agreements_generator_api.Prelude.{
  Option, ◌∷◌, inl, ◌≡◌, refl, Bool, true, false, [], none, some, arith,
}
use agreements_generator_api.Effect.{Result, ok, fail, Proc}
use agreements_generator_api.Domain.Errors.{Err, foreign}
use agreements_generator_api.Cache.{Redis, close}
use agreements_generator_api.Publisher.{Amqp, new_publisher}
use agreements_generator_api.GenClient as GenClient
use agreements_generator_api.GenClient.{GenerateResponse}
use agreements_generator_api.Hasher.{Hasher}
use agreements_generator_api.Storage.{storage_beside, users_beside}
use agreements_generator_api.Storage.Memory.{
  MemoryStorage, memory_generator_storage, memory_user_storage,
}
use agreements_generator_api.TokenManager.{TokenManager}
use agreements_generator_api.Api.Jobs.{handle_health_check}
use agreements_generator_api.Main.{Drivers, Parts, Server, setup}
use agreements_generator_api.Main.Serve.{
  server_done, awaiting, stopper_done, waiting, returned, Process, launched, starting_server,
  stopping_server, stopped_gracefully, cannot_start, cannot_stop, Reach, here, next, launch_server,
  launch_stopper, start, listen_returns, check, signal, receive, shutdown_returns, check_stop,
  return_main,
}
use agreements_generator_api.Main.Stop.{has_stop, returned-stopped}
use agreements_generator_api.Main.Returns.{signalled-returns, stop-misreported}
use agreements_generator_api.Main.Closed.{IsConn, FailsJob, setup-fails_jobs}
use agreements_generator_api.Tests.Fixtures.{cfg, answer, one_job, params, world_of}
use agreements_generator_api.Tests.Users.{encoder}

-- Whether the connection is closed, beside the storage.
abbrev Outside : Type 0
Outside = MemoryStorage × Bool

abbrev call : Bool → Result GenerateResponse
call true = fail (foreign "the client connection is closing")
call false = ok answer

abbrev nothing : Proc Outside (Unit {0})
nothing s = (ok tt, s)

abbrev redis : Redis Outside
redis = record {
  set = λ key value ttl s. (ok "OK", s);
  get = λ key s. (fail (foreign "redis: client is closed"), s);
  del = λ key s. (ok 0, s);
  close = nothing;
}

abbrev amqp : Amqp Outside
amqp = record {
  dial = λ address. nothing;
  channel = nothing;
  queue_declare = λ name durable unused exclusive no_wait. nothing;
  publish = λ exchange key message. nothing;
  close = nothing;
}

abbrev drivers : Drivers Outside
drivers = record {
  dial = λ address. nothing;
  generate = λ archive s. (call s.1, s);
  conn_close = λ s. (ok tt, (s.0, true));
  redis = redis;
  amqp = amqp;
  marshal_delivery = λ job. ok (some []);
  unix_milli = λ s. (ok 0, s);
  new_uuid = λ s. (ok "j1", s);
  itoa = λ n. "5672";
}

abbrev IsShut : Outside → Type 0
IsShut s = s.1 ≡ true

refused : (b : Bool) → b ≡ true → (e : Err) × (call b ≡ fail e)
refused true h = (foreign "the client connection is closing", refl)
refused false h = absurd (ground arith)

conn : IsConn drivers IsShut
conn = record {
  closes = λ s. refl;
  refuses = λ archive s h. refused s.1 h;
  redis_close = λ s h. h;
  amqp_dial = λ address s h. h;
  amqp_channel = λ s h. h;
  amqp_queue_declare = λ name s h. h;
  amqp_close = λ s h. h;
}

abbrev hasher : Hasher
hasher = record { hash = λ text. ok (some []); compare = λ hashed text. none }

abbrev tokens : TokenManager Outside
tokens = record {
  create = λ claims s. (ok "t", s);
  validate = λ token. nothing;
  parse = λ token s. (ok (record { id = 0; login = "ann" }), s);
  get_prefix = "Bearer";
}

abbrev parts : Parts Outside
parts = record {
  storage = storage_beside memory_generator_storage;
  users = users_beside memory_user_storage;
  storer = none;
  token_mng = tokens;
  hasher = hasher;
  encoder = encoder;
  metrics_page = handle_health_check encoder;
}

abbrev served : Result (Server Outside) × Outside
served = setup cfg drivers (ok parts) (one_job, false)

serves : (srv : Server Outside) × (served ≡ (ok srv, (one_job, true)))
unfolding setup new_publisher close GenClient.close
serves = (_, refl)

setup-fails_jobs_example :
    (p : Parts Outside) × (◌≡◌ {A = Result (Parts Outside)} (ok parts) (ok p))
    × IsShut (one_job, true)
    × FailsJob drivers IsShut conn cfg p serves.0 params (world_of (one_job, true))
setup-fails_jobs_example =
    setup-fails_jobs drivers IsShut conn cfg (ok parts) (one_job, false) (one_job, true) serves.0
      params (world_of (one_job, true)) serves.1 refl

-- ListenAndServe fails before a stop where the port is taken, and after one as it always does.
abbrev closed : Err
closed = foreign "http: Server closed"

abbrev Listens : Bool → Option Err → Type 0
Listens false r = r ≡ some (foreign "address in use")
Listens true r = r ≡ some closed

abbrev Shuts : Option Err → Type 0
Shuts r = r ≡ none

stop-misreported_example :
    (t : Process) × Reach Listens Shuts launched t
    × (t.main ≡ returned)
    × (t.messages
        ≡ cannot_start closed ∷ cannot_stop closed ∷ stopping_server ∷ starting_server ∷ [])
stop-misreported_example = stop-misreported Listens Shuts closed refl refl

-- The server cannot be started, and then comes a signal.
abbrev failed : Process
failed = record {
  server = server_done;
  stopper = awaiting;
  main = waiting;
  signals = 1;
  wg = 1;
  err = some (foreign "address in use");
  messages = cannot_start (foreign "address in use") ∷ starting_server ∷ [];
}

fails : Reach Listens Shuts launched failed
fails =
    next
      (next
        (next (next (next (next here (launch_server refl)) (launch_stopper refl)) (start refl))
          (listen_returns (some (foreign "address in use")) refl refl))
        (check refl))
      (signal refl)

signalled-returns_example : (t : Process) × Reach Listens Shuts failed t × (t.main ≡ returned)
signalled-returns_example =
    signalled-returns Listens Shuts failed fails (inl refl) (some closed, refl) (none, refl)

abbrev ended : Process
ended = record {
  server = server_done;
  stopper = stopper_done;
  main = returned;
  signals = 0;
  wg = 0;
  err = none;
  messages =
      stopped_gracefully
      ∷ stopping_server
      ∷ cannot_start (foreign "address in use")
      ∷ starting_server
      ∷ [];
}

ends : Reach Listens Shuts launched ended
ends =
    next
      (next (next (next fails (receive refl refl)) (shutdown_returns none refl refl))
        (check_stop refl))
      (return_main refl refl)

returned-stopped_example :
    (has_stop ended.messages ≡ true) × (ended.server ≡ server_done) × (ended.stopper ≡ stopper_done)
returned-stopped_example = returned-stopped Listens Shuts ended ends refl
