-- ===== src/Service/Grpc/Process.antt =====
-- `ProcessJob`: it ends with the client of internal/gen_client, and what it leaves behind.
use agreements_generator_api.Prelude.{
  ◌≡◌, refl, String, ◌==◌, eq_iff, eq_refl, ◌∷◌, Option, none, some, if◌then◌else◌, arith,
}
use agreements_generator_api.Prelude.Int.{dec-inc}
use agreements_generator_api.Prelude.Dict.{lookup, insert, lookup-insert}
use agreements_generator_api.Effect.{Result, ok, fail, Proc}
use agreements_generator_api.Domain.Errors.{Err}
use agreements_generator_api.Domain.Generator.{
  Bytes, JobStatus, GenResponse, completed, failed, status_text,
}
use agreements_generator_api.Storage.{GeneratorStorage, storage_beside}
use agreements_generator_api.Storage.Memory.{
  JobData, MemoryStorage, save_response, update_job, memory_generator_storage,
}
use agreements_generator_api.Cache.{Cacher, cacher_beside}
use agreements_generator_api.GenClient.{GenerateResponse, sends, client, bulk_generate}
use agreements_generator_api.GenClient.Handover.{outcome_error, outcome_response}
use agreements_generator_api.Metrics.{job_started, job_ended}
use agreements_generator_api.Storage.Memory.Jobs.{saved}
use agreements_generator_api.Service.{World, ProcessJobParams}
use agreements_generator_api.Service.Grpc.{await, finalize, process_job}

pub await-sends :
    (r : Result GenerateResponse) → await (sends r) ≡ some (outcome_error r, outcome_response r)
unfolding await sends
await-sends (ok a) = refl
await-sends (fail e) = refl

-- The label of the metrics, and the status of the job at the end.
abbrev pub label : Option Err → String
label none = "success"
label (some e) = "error"

abbrev pub final_status : Option Err → JobStatus
final_status none = completed
final_status (some e) = failed

abbrev pub finished : Option Err → GenResponse → JobData → JobData
finished err response d = record {
  status = final_status err;
  archive = response.archive;
  errors = response.errors;
  gen_count = response.gen_count;
  created_at = d.created_at;
  fatal_error = err;
}

module _ {S : Type 0} (storage : GeneratorStorage S) (cacher : Cacher S)
    (generate : Bytes → Proc S GenerateResponse) (conn_close : Proc S (Unit {0})) where
  -- A job's goroutine ends, whatever the worker answers: it finalizes with the outcome of the call,
  -- leaves the gauge of jobs in progress as it was, starts nothing, and observes one duration.
  pub process_job_ends :
      (params : ProcessJobParams) (w : World S)
      → let (r, s) = generate params.archive_bytes w.env in
        let (result, s') =
          finalize storage cacher params.job.id (outcome_error r) (outcome_response r) s in
        (w' : World S) × (process_job storage cacher (client generate conn_close) params w
          ≡ some w')
        × (w'.env ≡ s')
        × (w'.metrics.jobs_in_progress ≡ w.metrics.jobs_in_progress)
        × (w'.metrics.job_processing_duration
            ≡ ("grpc", result) ∷ w.metrics.job_processing_duration)
        × (w'.running ≡ w.running)
  unfolding process_job bulk_generate
  process_job_ends params w =
      let (r, s) = generate params.archive_bytes w.env in
      let (result, s') =
        finalize storage cacher params.job.id (outcome_error r) (outcome_response r) s in
      (
        record w { env = s'; metrics = job_ended result (job_started w.metrics) },
        ground (arith, await-sends r),
        refl,
        dec-inc w.metrics.jobs_in_progress,
        refl,
        refl,
      )

-- Over the in-memory storage a job that is stored when the outcome arrives ends as completed or
-- failed with the outcome saved, the other jobs stay, and the cache gets the same status.
pub finalize_stored :
    {C : Type 0} (cacher : Cacher C) (id : String) (err : Option Err) (response : GenResponse)
    (m : MemoryStorage) (c : C) (d : JobData) (j : String)
    → lookup id m.jobs ≡ some d
    → let (result, (m', c')) =
        finalize
          (storage_beside memory_generator_storage)
          (cacher_beside cacher)
          id
          err
          response
          (m, c) in
      (result ≡ label err)
      × (lookup j m'.jobs ≡ (if id == j then some (finished err response d) else lookup j m.jobs))
      × (c' ≡ (cacher.set_job_status id (status_text (final_status err)) c).1)
unfolding finalize save_response update_job
finalize_stored cacher id none response m c d j e = ground (
  arith,
  eq_iff id j,
  eq_refl id,
  lookup-insert id id (saved response none d) m.jobs,
  lookup-insert id j (saved response none d) m.jobs,
  lookup-insert id j (finished none response d) (insert id (saved response none d) m.jobs),
)
finalize_stored cacher id (some x) response m c d j e = ground (
  arith,
  eq_iff id j,
  eq_refl id,
  lookup-insert id id (saved response (some x) d) m.jobs,
  lookup-insert id j (saved response (some x) d) m.jobs,
  lookup-insert id j (finished (some x) response d) (insert id (saved response (some x) d) m.jobs),
)

-- A job that is no longer stored when the outcome arrives ends as an error, whatever the outcome:
-- the storage stays as it is, and the cache gets the status failed.
pub finalize_missing :
    {C : Type 0} (cacher : Cacher C) (id : String) (err : Option Err) (response : GenResponse)
    (m : MemoryStorage) (c : C)
    → lookup id m.jobs ≡ none
    → finalize
        (storage_beside memory_generator_storage)
        (cacher_beside cacher)
        id
        err
        response
        (m, c)
      ≡ ("error", (m, (cacher.set_job_status id (status_text failed) c).1))
unfolding finalize save_response update_job
finalize_missing cacher id none response m c e = ground arith
finalize_missing cacher id (some x) response m c e = ground arith
