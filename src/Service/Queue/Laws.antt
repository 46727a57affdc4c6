-- ===== src/Service/Queue/Laws.antt =====
-- The queue generator: a job is published after its input is stored, a submission that fails late
-- leaves the job behind, and the questions about jobs are those of the gRPC generator.
use agreements_generator_api.Prelude.{◌≡◌, refl, String, eq_refl, none, some, arith}
use agreements_generator_api.Prelude.Dict.{lookup, lookup-insert}
use agreements_generator_api.Effect.{Result, ok, fail, Proc}
use agreements_generator_api.Domain.Errors.{Err, app, wrapf, storage_bad_request}
use agreements_generator_api.Domain.Generator.{Bytes, Job, processing, status_text}
use agreements_generator_api.Storage.{GeneratorStorage, InputArchiveStorer, storage_beside}
use agreements_generator_api.Storage.Memory.{MemoryStorage, store_job, memory_generator_storage}
use agreements_generator_api.Storage.Memory.Jobs.{created}
use agreements_generator_api.Cache.{Cacher, cacher_beside}
use agreements_generator_api.Publisher.{Publisher}
use agreements_generator_api.Metrics.{submitted}
use agreements_generator_api.Service.{World, Context, int_of}
use agreements_generator_api.Service.Grpc
use agreements_generator_api.Service.Queue.{
  archive_of, info_of, check_job_status, get_archive, get_archive_info, bulk_generate,
  save_raw_archive,
}

abbrev pub new_job : String → Job
new_job id = record { id = id; status = processing }

module _ {S : Type 0} (storage : GeneratorStorage S) (cacher : Cacher S) (st : InputArchiveStorer S)
    (publisher : Publisher S) (new_uuid : Proc S String) where
  -- The states of a submission: the job stored, its status cached, the input stored, the message
  -- sent.
  abbrev pub stored_at : String → Context → S → Result (Unit {0}) × S
  stored_at id ctx s = storage.store_job (new_job id) (int_of ctx.user_id) (new_uuid s).1

  abbrev pub cached_at : String → Context → S → S
  cached_at id ctx s = (cacher.set_job_status id (status_text processing) (stored_at id ctx s).1).1

  abbrev pub saved_at : String → Context → Bytes → S → Result (Unit {0}) × S
  saved_at id ctx archive s = st.save_raw_archive id archive (cached_at id ctx s)

  abbrev pub sent_at : String → Context → Bytes → S → Result (Unit {0}) × S
  sent_at id ctx archive s = publisher.send id (saved_at id ctx archive s).1

  -- A submission that succeeds with an id has stored the job, then its input archive, then sent the
  -- id to the queue, each without an error and in this order; it has started no goroutine and
  -- counted one success.
  pub bulk_generate_order :
      (ctx : Context) (archive : Bytes) (w : World S) (id : String)
      → (bulk_generate storage cacher (some st) publisher new_uuid ctx archive w).0 ≡ ok id
      → ((new_uuid w.env).0 ≡ ok id)
        × ((stored_at id ctx w.env).0 ≡ ok tt)
        × ((saved_at id ctx archive w.env).0 ≡ ok tt)
        × ((sent_at id ctx archive w.env).0 ≡ ok tt)
        × ((bulk_generate storage cacher (some st) publisher new_uuid ctx archive w).1 ≡ record {
          env = (sent_at id ctx archive w.env).1;
          metrics = submitted "queue" "success" w.metrics;
          running = w.running;
        })
  unfolding bulk_generate
  bulk_generate_order ctx archive w id h = ground arith

module _ {S : Type 0} (storage : GeneratorStorage S) (cacher : Cacher S) where
  -- Both generators answer alike about jobs: same result, same state.
  pub queries-eq-grpc :
      (id : String) (s : S)
      → (check_job_status storage cacher id s ≡ Grpc.check_job_status storage cacher id s)
        × (get_archive storage cacher id s ≡ Grpc.get_archive storage cacher id s)
        × (get_archive_info storage cacher id s ≡ Grpc.get_archive_info storage cacher id s)
  unfolding check_job_status Grpc.check_job_status get_archive Grpc.get_archive get_archive_info
      Grpc.get_archive_info archive_of info_of Grpc.archive_of Grpc.info_of
  queries-eq-grpc id s = (refl, refl, refl)

abbrev pub no_storer : Err
no_storer =
    wrapf "can't store raw archive in storage; storage doesn't implement InputArchiveStorer"
      (app storage_bad_request)

-- Over the in-memory storage, which stores no input archives, a submission to the queue with a new
-- id fails, and leaves its job stored as processing all the same.
pub bulk_generate_memory :
    {C : Type 0} (cacher : Cacher C) (publisher : Publisher (MemoryStorage × C))
    (new_uuid : Proc (MemoryStorage × C) String) (ctx : Context) (archive : Bytes)
    (w : World (MemoryStorage × C)) (id : String)
    → (new_uuid w.env).0 ≡ ok id
    → lookup id (new_uuid w.env).1.0.jobs ≡ none
    → let (r, w') =
        bulk_generate
          (storage_beside memory_generator_storage)
          (cacher_beside cacher)
          none
          publisher
          new_uuid
          ctx
          archive
          w in
      (r ≡ fail no_storer)
      × (lookup id w'.env.0.jobs ≡ some (created (new_job id) (new_uuid w.env).1.0.now))
unfolding bulk_generate store_job save_raw_archive
bulk_generate_memory cacher publisher new_uuid ctx archive w id made fresh = ground (
  arith,
  eq_refl id,
  lookup-insert id id (created (new_job id) (new_uuid w.env).1.0.now) (new_uuid w.env).1.0.jobs,
)
