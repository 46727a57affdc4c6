-- ===== src/Tests/Requests.antt =====
-- Requests: the middleware and the handlers; submissions to the queue.
use agreements_generator_api.Prelude.{
  ℕ, ◌≡◌, refl, ◌⊎◌, ◌≢◌, String, eq_iff, List, [], ◌∷◌, none, some, arith,
}
use agreements_generator_api.Prelude.Dict.{lookup}
use agreements_generator_api.Effect.{ok, fail}
use agreements_generator_api.Domain.Errors.{Err, wrapf}
use agreements_generator_api.Encoder.{TokenUser}
use agreements_generator_api.Metrics.{no_metrics, submitted}
use agreements_generator_api.Storage.{GeneratorStorage, storage_beside}
use agreements_generator_api.Storage.Memory.{
  MemoryStorage, memory_generator_storage, store_job, job_not_found,
}
use agreements_generator_api.Storage.Memory as Memory
use agreements_generator_api.Storage.Memory.Jobs.{created}
use agreements_generator_api.Cache.{Cacher, cacher_beside}
use agreements_generator_api.Service.{World, Generator}
use agreements_generator_api.Service.Gen.{new_grpc_gen}
use agreements_generator_api.Service.Grpc as Grpc
use agreements_generator_api.Service.Queue
use agreements_generator_api.Service.Queue.{bulk_generate, submit}
use agreements_generator_api.Service.Queue.Laws.{
  bulk_generate_order, bulk_generate_memory, queries-eq-grpc, new_job, no_storer, stored_at,
  saved_at, sent_at,
}
use agreements_generator_api.Api.{Request, ResponseWriter, Handler, fresh_writer}
use agreements_generator_api.Api.Response.Laws.{error_status}
use agreements_generator_api.Api.Jobs.{handle_get_archive, handle_health_check}
use agreements_generator_api.Api.Jobs.Laws.{get_archive, serve, handler, handler-error_status}
use agreements_generator_api.Api.Jobs.Archive.{archive_code, handle_get_archive-code}
use agreements_generator_api.Api.Token.Laws.{IsAdmitted, IsRefused, mw_auth_cases}
use agreements_generator_api.Api.Measure.{mw_metrics, status_of}
use agreements_generator_api.Api.Measure.Laws.{served, tally, LeavesHttp, mw_metrics_counts}
use agreements_generator_api.Tests.Fixtures.{
  dict_cacher, Env, one_job, no_jobs, user_ctx, world_of, new_uuid, quiet_publisher, quiet_storer,
  request,
}
use agreements_generator_api.Tests.Users.{encoder, tm}

abbrev st : GeneratorStorage Env
st = storage_beside memory_generator_storage

abbrev ca : Cacher Env
ca = cacher_beside dict_cacher

abbrev service : Generator (World Env)
service = new_grpc_gen st none quiet_publisher ca new_uuid

abbrev w0 : ResponseWriter
w0 = fresh_writer []

not_empty : ◌≢◌ {A = String} "j1" ""
not_empty = ground (arith, eq_iff "j1" "")

handle_get_archive-code_example :
    let (w', s') = handle_get_archive encoder service (request "j1") w0 (world_of (one_job, [])) in
    (status_of w' ≡ archive_code (lookup "j1" one_job.jobs)) × (s' ≡ world_of (one_job, []))
handle_get_archive-code_example =
    handle_get_archive-code dict_cacher none quiet_publisher new_uuid encoder (request "j1") w0
      (world_of (one_job, [])) not_empty refl

-- The waiting job of the example is answered with 400.
waiting_code : archive_code (lookup "j1" one_job.jobs) ≡ 400
unfolding lookup Memory.fatal_text
waiting_code = refl

abbrev missing : Err
missing = wrapf "can't get archive from store" job_not_found

missing_archive :
    (serve service get_archive (request "j1") [] (world_of (no_jobs, []))).0 ≡ some missing
unfolding Grpc.get_archive Memory.get_archive lookup
missing_archive = refl

handler-error_status_example :
    let (w', s') = handler service encoder get_archive (request "j1") w0 (world_of (no_jobs, [])) in
    (w'.sent ≡ some (error_status missing, none))
    × (s' ≡ (serve service get_archive (request "j1") [] (world_of (no_jobs, []))).1)
handler-error_status_example =
    handler-error_status service encoder get_archive (request "j1") w0 (world_of (no_jobs, [])) []
      missing refl refl not_empty missing_archive

-- A handler over the clock of the tokens.
abbrev hello : Handler ℕ
hello = handle_health_check encoder

mw_auth_cases_example :
    IsAdmitted tm encoder hello (request "j1") w0 69
    ⊎ IsRefused tm encoder hello (request "j1") w0 69
mw_auth_cases_example = mw_auth_cases tm encoder hello (request "j1") w0 69

abbrev ann : TokenUser
ann = record { id = 0; login = "ann" }

abbrev pattern_of : Request → String
pattern_of r = r.path

abbrev itoa : ℕ → String
itoa n = "200"

abbrev health : Handler (World Env)
health = handle_health_check encoder

-- One request that is measured, and one that is not.
abbrev requests : List (Request × ResponseWriter)
requests = (request "j1", w0) ∷ (record (request "") { path = "/health" }, w0) ∷ []

health-LeavesHttp : LeavesHttp health
unfolding handle_health_check
health-LeavesHttp r w s m = (m, refl, refl, refl)

mw_metrics_counts_example :
    let s = world_of {S = Env} (no_jobs, []) in
    let (answers, last) = served (mw_metrics pattern_of itoa health) requests s in
    let (plain, bare) = served health requests s in
    (answers ≡ plain)
    × (last.env ≡ bare.env)
    × (last.running ≡ bare.running)
    × (last.metrics.http_requests_in_flight ≡ s.metrics.http_requests_in_flight)
    × (last.metrics.http_requests_total ≡ tally pattern_of itoa plain s.metrics.http_requests_total)
mw_metrics_counts_example =
    mw_metrics_counts pattern_of itoa health health-LeavesHttp requests (world_of (no_jobs, []))

queued :
    (bulk_generate st ca
      (some quiet_storer)
      quiet_publisher
      new_uuid
      user_ctx
      (some [])
      (world_of (no_jobs, []))).0
    ≡ ok "j1"
unfolding bulk_generate store_job lookup
queued = refl

bulk_generate_order_example :
    ((new_uuid (no_jobs, [])).0 ≡ ok "j1")
    × ((stored_at st ca quiet_storer quiet_publisher new_uuid "j1" user_ctx (no_jobs, [])).0
        ≡ ok tt)
    × ((saved_at st ca quiet_storer quiet_publisher new_uuid "j1" user_ctx
          (some [])
          (no_jobs, [])).0
        ≡ ok tt)
    × ((sent_at st ca quiet_storer quiet_publisher new_uuid "j1" user_ctx (some []) (no_jobs, [])).0
        ≡ ok tt)
    × ((bulk_generate st ca
          (some quiet_storer)
          quiet_publisher
          new_uuid
          user_ctx
          (some [])
          (world_of (no_jobs, []))).1
        ≡ record {
          env =
              (sent_at st ca quiet_storer quiet_publisher new_uuid "j1" user_ctx
                (some [])
                (no_jobs, [])).1;
          metrics = submitted "queue" "success" no_metrics;
          running = [];
        })
bulk_generate_order_example =
    bulk_generate_order st ca quiet_storer quiet_publisher new_uuid user_ctx (some [])
      (world_of (no_jobs, [])) "j1" queued

bulk_generate_memory_example :
    let (r, w') =
      bulk_generate st ca none quiet_publisher new_uuid user_ctx
        (some [])
        (world_of (no_jobs, [])) in
    (r ≡ fail no_storer) × (lookup "j1" w'.env.0.jobs ≡ some (created (new_job "j1") 5))
unfolding lookup
bulk_generate_memory_example =
    bulk_generate_memory dict_cacher quiet_publisher new_uuid user_ctx (some [])
      (world_of (no_jobs, [])) "j1" refl refl

queries-eq-grpc_example :
    (Queue.check_job_status st ca "j1" (one_job, [])
      ≡ Grpc.check_job_status st ca "j1" (one_job, []))
    × (Queue.get_archive st ca "j1" (one_job, []) ≡ Grpc.get_archive st ca "j1" (one_job, []))
    × (Queue.get_archive_info st ca "j1" (one_job, [])
        ≡ Grpc.get_archive_info st ca "j1" (one_job, []))
queries-eq-grpc_example = queries-eq-grpc st ca "j1" (one_job, [])
