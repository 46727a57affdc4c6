-- ===== src/Service/Grpc/Submit.antt =====
-- `BulkGenerate` of the gRPC generator.
use agreements_generator_api.Prelude.{◌≡◌, String, ◌∷◌, arith}
use agreements_generator_api.Effect.{Result, ok, fail, Proc}
use agreements_generator_api.Domain.Errors.{Err}
use agreements_generator_api.Domain.Generator.{Bytes, Job, processing, status_text}
use agreements_generator_api.Storage.{GeneratorStorage}
use agreements_generator_api.Cache.{Cacher}
use agreements_generator_api.Metrics.{submitted}
use agreements_generator_api.Service.{World, Context, int_of}
use agreements_generator_api.Service.Grpc.{bulk_generate}

abbrev pub new_job : String → Job
new_job id = record { id = id; status = processing }

module _ {S : Type 0} (storage : GeneratorStorage S) (cacher : Cacher S)
    (new_uuid : Proc S String) where
  -- The state after a submission: the id is made, the job stored, its status cached.
  abbrev pub stored_at : String → Context → S → Result (Unit {0}) × S
  stored_at id ctx s = storage.store_job (new_job id) (int_of ctx.user_id) (new_uuid s).1

  -- A submission that succeeds with an id got that id, stored the job as processing for the user,
  -- set the status in the cache whether or not the cache took it, started one goroutine for that
  -- job and the given archive, and counted one success.
  pub bulk_generate_starts :
      (ctx : Context) (archive : Bytes) (w : World S) (id : String)
      → (bulk_generate storage cacher new_uuid ctx archive w).0 ≡ ok id
      → ((new_uuid w.env).0 ≡ ok id)
        × ((stored_at id ctx w.env).0 ≡ ok tt)
        × ((bulk_generate storage cacher new_uuid ctx archive w).1 ≡ record {
          env = (cacher.set_job_status id (status_text processing) (stored_at id ctx w.env).1).1;
          metrics = submitted "grpc" "success" w.metrics;
          running = record { ctx = ctx; job = new_job id; archive_bytes = archive } ∷ w.running;
        })
  unfolding bulk_generate
  bulk_generate_starts ctx archive w id h = ground arith

  -- A submission that fails has started no goroutine, and counted one error.
  pub bulk_generate_fails :
      (ctx : Context) (archive : Bytes) (w : World S) (e : Err)
      → (bulk_generate storage cacher new_uuid ctx archive w).0 ≡ fail e
      → let w' = (bulk_generate storage cacher new_uuid ctx archive w).1 in
        (w'.running ≡ w.running) × (w'.metrics ≡ submitted "grpc" "error" w.metrics)
  unfolding bulk_generate
  bulk_generate_fails ctx archive w e h = ground arith
