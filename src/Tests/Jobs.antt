-- ===== src/Tests/Jobs.antt =====
-- Jobs: submission, processing, and the questions about them.
use agreements_generator_api.Prelude.{
  ◌≡◌, refl, String, ◌==◌, List, [], ◌∷◌, Option, none, some, if◌then◌else◌, ◌⊎◌, ◌↔◌,
}
use agreements_generator_api.Prelude.Dict.{lookup, insert}
use agreements_generator_api.Effect.{ok, fail}
use agreements_generator_api.Domain.Errors.{Err, app, wrapf, conflict}
use agreements_generator_api.Domain.Generator.{
  processing, completed, failed, status_text, job_status_from_string,
}
use agreements_generator_api.Domain.StatusText.{job_status_from_string_iff}
use agreements_generator_api.Storage.{GeneratorStorage, storage_beside}
use agreements_generator_api.Storage.Memory.{
  JobData, MemoryStorage, memory_generator_storage, store_job, save_response, update_job,
}
use agreements_generator_api.Storage.Memory.Jobs.{
  Op, store, update, check, clean, wait, perform, specify, run, view, run-perform,
}
use agreements_generator_api.Cache.{Cacher, cacher_beside}
use agreements_generator_api.Metrics.{no_metrics}
use agreements_generator_api.GenClient
use agreements_generator_api.GenClient.{client}
use agreements_generator_api.Storage.Memory as Memory
use mathlib.Core.Option as Option
use agreements_generator_api.GenClient.Handover.{
  Channels, Step, here, IsDone, initial, outcome_response, handover_progress,
}
use agreements_generator_api.Service.{World}
use agreements_generator_api.Service.Grpc.{
  await, finalize, process_job, check_job_status, get_archive, get_archive_info, bulk_generate,
}
use agreements_generator_api.Service.Grpc.Process.{process_job_ends, finalize_stored, finished}
use agreements_generator_api.Service.Grpc.Results.{results_of_finalize, archive_answer, info_answer}
use agreements_generator_api.Service.Grpc.Submit.{new_job}
use agreements_generator_api.Tests.Fixtures.{
  dict_cacher, Env, waiting, one_job, no_jobs, zip, answer, generate, close_conn, user_ctx, params,
  world_of, new_uuid,
}

abbrev st : GeneratorStorage Env
st = storage_beside memory_generator_storage

abbrev ca : Cacher Env
ca = cacher_beside dict_cacher

-- A successful call of the worker, through all of `ProcessJob`.
job_succeeds :
    Option.map {B = Option JobData × Option String}
      (λ (w : World Env). (lookup "j1" w.env.0.jobs, lookup "j1" w.env.1))
      (process_job st ca (client generate close_conn) params (world_of (one_job, [])))
    ≡ some (some (finished none zip waiting), some "completed")
unfolding process_job GenClient.bulk_generate GenClient.sends GenClient.convert
    GenClient.int_of_int32 await finalize save_response update_job lookup insert status_text
job_succeeds = refl

process_job_ends_example :
    (w' : World Env) × (process_job st ca
        (client generate close_conn)
        params
        (world_of (one_job, []))
      ≡ some w')
    × (w'.env ≡ (finalize st ca "j1" none (outcome_response (ok answer)) (one_job, [])).1)
    × (w'.metrics.jobs_in_progress ≡ no_metrics.jobs_in_progress)
    × (w'.metrics.job_processing_duration
        ≡ ("grpc", (finalize st ca "j1" none (outcome_response (ok answer)) (one_job, [])).0) ∷ [])
    × (w'.running ≡ [])
process_job_ends_example =
    process_job_ends st ca generate close_conn params (world_of (one_job, []))

finalize_stored_example :
    let (result, (m', c')) = finalize st ca "j1" none zip (one_job, []) in
    (result ≡ "success")
    × (lookup "j1" m'.jobs
        ≡ (if "j1" == "j1" then some (finished none zip waiting) else lookup "j1" one_job.jobs))
    × (c' ≡ (dict_cacher.set_job_status "j1" (status_text completed) []).1)
unfolding lookup
finalize_stored_example = finalize_stored dict_cacher "j1" none zip one_job [] waiting "j1" refl

results_of_finalize_example :
    let s = (finalize st ca "j1" none zip (one_job, [])).1 in
    (get_archive st ca "j1" s ≡ (archive_answer none zip, s))
    × (get_archive_info st ca "j1" s ≡ (info_answer none zip, s))
unfolding lookup
results_of_finalize_example = results_of_finalize dict_cacher "j1" none zip one_job [] waiting refl

handover_progress_example :
    IsDone (ok answer) (initial (ok answer)) ⊎ ((d : Channels) × Step (initial (ok answer)) d)
handover_progress_example = handover_progress (ok answer) (initial (ok answer)) here

abbrev ops : List Op
ops =
    store (new_job "j1") 7
    ∷ store (new_job "j1") 8
    ∷ update (record { id = "j2"; status = failed })
    ∷ check "j1"
    ∷ wait 400
    ∷ clean
    ∷ check "j1"
    ∷ []

run-perform_example :
    ((run perform ops no_jobs).0, view (run perform ops no_jobs).1) ≡ run specify ops (view no_jobs)
run-perform_example = run-perform ops no_jobs tt

bulk_generate_runs :
    (bulk_generate st ca new_uuid user_ctx (some []) (world_of (no_jobs, []))).0 ≡ ok "j1"
unfolding bulk_generate store_job lookup
bulk_generate_runs = refl

abbrev taken : Err
taken = wrapf "can't add job with ID j1 in storage" (wrapf "job already exists" (app conflict))

bulk_generate_again :
    (bulk_generate st ca new_uuid user_ctx (some []) (world_of (one_job, []))).0 ≡ fail taken
unfolding bulk_generate store_job lookup
bulk_generate_again = refl

status_from_storage : (check_job_status st ca "j1" (one_job, [])).0 ≡ ok processing
unfolding check_job_status Memory.check_job_status job_status_from_string status_text lookup
status_from_storage = refl

job_status_from_string_iff_example :
    (job_status_from_string "failed" ≡ ok failed) ↔ (◌≡◌ {A = String} "failed" (status_text failed))
job_status_from_string_iff_example = job_status_from_string_iff "failed" failed
