-- ===== src/Tests/Fixtures.antt =====
-- The data of the tests: a cache that is a map, a storage with one job, requests and an encoder.
use agreements_generator_api.Prelude.{◌≡◌, ap, String, eq_refl, [], ◌∷◌, Option, none, some, arith}
use agreements_generator_api.Prelude.Dict.{Dict, lookup, insert, lookup-insert}
use agreements_generator_api.Effect.{Result, ok, fail, Proc}
use agreements_generator_api.Config.{Config}
use agreements_generator_api.Domain.Errors.{foreign}
use agreements_generator_api.Domain.Generator.{Bytes, GenResponse, processing}
use agreements_generator_api.Storage.Memory.{JobData, MemoryStorage}
use agreements_generator_api.Cache.{Cacher, IsCache, cacher_beside}
use agreements_generator_api.GenClient.{GenerateResponse}
use agreements_generator_api.Metrics.{no_metrics}
use agreements_generator_api.Publisher.{Publisher}
use agreements_generator_api.Storage.{InputArchiveStorer}
use agreements_generator_api.Service.{World, Context, ProcessJobParams, string_value, int_value}
use agreements_generator_api.Api.{Request}

-- A miss of the cache is an error, as redis.Nil is.
abbrev read_back : Option String → Result String
read_back none = fail (foreign "redis: nil")
read_back (some text) = ok text

abbrev pub dict_cacher : Cacher (Dict String)
dict_cacher = record {
  set_job_status = λ id status d. (ok tt, insert id status d);
  get_job_status = λ id d. (read_back (lookup id d), d);
  delete_job_status = λ id d. (ok tt, d);
  close = λ d. (ok tt, d);
}

pub dict_get-set :
    (id text : String) (d : Dict String) → read_back (lookup id (insert id text d)) ≡ ok text
dict_get-set id text d = ground (arith, lookup-insert id id text d, eq_refl id)

abbrev pub Env : Type 0
Env = MemoryStorage × Dict String

pub beside-IsCache : IsCache {S = Env} (cacher_beside dict_cacher)
beside-IsCache = record {
  get-set = λ id text s h. ap (λ r. (r, (s.0, insert id text s.1))) (dict_get-set id text s.1);
  get-get = λ id text s h. ap (λ r. (r, s)) h;
}

abbrev pub waiting : JobData
waiting = record {
  status = processing;
  archive = none;
  errors = [];
  gen_count = 0;
  created_at = 3;
  fatal_error = none;
}

abbrev pub one_job : MemoryStorage
one_job = record {
  jobs = ("j1", waiting) ∷ [];
  users = [];
  user_id_increment = 0;
  job_ttl = 300;
  now = 5;
}

abbrev pub no_jobs : MemoryStorage
no_jobs = record { jobs = []; users = []; user_id_increment = 0; job_ttl = 300; now = 5 }

abbrev pub zip : GenResponse
zip = record { archive = some (80 ∷ 75 ∷ []); errors = []; gen_count = 2 }

abbrev pub answer : GenerateResponse
answer = record { zip_archive = some (80 ∷ 75 ∷ []); errors = []; generated_count = 2 }

-- The worker answers every archive alike.
abbrev pub generate : Bytes → Proc Env GenerateResponse
generate archive s = (ok answer, s)

abbrev pub close_conn : Proc Env (Unit {0})
close_conn s = (ok tt, s)

abbrev pub user_ctx : Context
user_ctx = record { login = string_value "ann"; user_id = int_value 7 }

abbrev pub params : ProcessJobParams
params = record {
  ctx = user_ctx;
  job = record { id = "j1"; status = processing };
  archive_bytes = some [];
}

abbrev pub world_of : {S : Type 0} → S → World S
world_of s = record { env = s; metrics = no_metrics; running = [] }

abbrev pub new_uuid : Proc Env String
new_uuid s = (ok "j1", s)

-- A queue that takes every message.
abbrev pub quiet_publisher : Publisher Env
quiet_publisher = record { send = λ id s. (ok tt, s); close = λ s. (ok tt, s) }

abbrev pub quiet_storer : InputArchiveStorer Env
quiet_storer = record { save_raw_archive = λ id archive s. (ok tt, s) }

abbrev pub request : String → Request
request id = record {
  method = "GET";
  path = "/get_archive";
  id = id;
  authorization = "";
  body = ok [];
  ctx = user_ctx;
}

-- Without the secrets, as the file gives it.
abbrev pub file : Config
file = record {
  env = "production";
  log = record { kind = "zap"; level = "production" };
  server = record { port = "8080"; shutdown_duration = 10000000000 };
  exec_mode = "grpc";
  grpc_client = record { host = "worker"; port = "50051"; job_max_duration = 60000000000 };
  storage = record {
    job_ttl = 300000000000;
    kind = "in_memory";
    driver = "postgres";
    host = "localhost";
    port = "5432";
    database = "docx_generator";
  };
  redis = record { host = "redis"; port = "6379"; db = 0; job_status_ttl = 600000000000 };
  rabbit = record { host = "rabbit"; port = 5672; username = "user"; vhost = ""; queue = "jobs" };
  jwt = record { signing_method = "HS256"; token_ttl = 3600000000000; prefix = "Bearer" };
  security = record {
    hash_cost = 10;
    min_password_len = 8;
    secret_key = "";
    db_user = "";
    db_password = "";
    redis_password = "";
    rabbit_password = "";
  };
}

abbrev pub cfg : Config
cfg = record file {
  security = record {
    hash_cost = 10;
    min_password_len = 8;
    secret_key = "k";
    db_user = "db";
    db_password = "p";
    redis_password = "r";
    rabbit_password = "password";
  };
}
