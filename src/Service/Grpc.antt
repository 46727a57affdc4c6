-- ===== src/Service/Grpc.antt =====
-- internal/service/grpc_generator/generator.go, over any storage, cache and gRPC client. Log
-- messages are left out, and so are deadlines: `jobMaxDuration` reaches the client's call only.
pub mod Agreement
pub mod Process
pub mod Submit
pub mod Status
pub mod Results
pub mod Unsaved
pub mod Pending
pub mod Stale
pub mod System
pub mod Tasks
use agreements_generator_api.Prelude.{
  ℕ, String, ◌<>◌, ◌==◌, not, Bool, true, false, List, [], ◌∷◌, Option, none, some, if◌then◌else◌,
}
use agreements_generator_api.Effect.{
  Result, ok, fail, Proc, pure, raise, lift, on_error, ignore, handle, ◌>>=◌, ◌>>◌,
}
use agreements_generator_api.Domain.Errors.{
  Err, app, wrapf, errorf, error_text, internal, not_found, job_not_finished,
}
use agreements_generator_api.Domain.Generator.{
  Bytes, Job, JobStatus, processing, completed, failed, FilesErrors, GenResponse, status_text,
  job_status_from_string,
}
use agreements_generator_api.Storage.{ArchiveInfo, GeneratorStorage}
use agreements_generator_api.Cache.{Cacher}
use agreements_generator_api.GenClient.{Send, send_error, send_response, GeneratorClient}
use agreements_generator_api.Metrics.{job_started, job_ended}
use agreements_generator_api.Service.{
  World, Context, ProcessJobParams, int_of, call, start, observed,
}

-- The two receives of `ProcessJob`, then the end of the client's goroutine. `none` where one of the
-- two would block for ever, or where a send is left that the closing of the channels would break.
unfoldable pub await : List Send → Option (Option Err × GenResponse)
await (send_error err ∷ send_response response ∷ []) = some (err, response)
await _ = none

-- `GetArchive` and `GetArchiveInfo` after the call of the storage.
unfoldable pub archive_of : String × Bytes × String → Result Bytes
archive_of (status, archive, fatal_gen_err) = elim (job_status_from_string status) [
  | fail e ↦ fail (wrapf "can't convert job status" e)
  | ok completed ↦ elim archive [ none ↦ fail (app not_found) | some bytes ↦ ok (some bytes) ]
  | ok _ ↦
      if not (fatal_gen_err == "")
      then fail
          (wrapf ("can't get archive: fatal generation error: " <> fatal_gen_err) (app internal))
      else fail (app job_not_finished)
]

unfoldable pub info_of : ArchiveInfo → Result (List FilesErrors × ℕ)
info_of info = elim (job_status_from_string info.status) [
  | fail e ↦ fail (wrapf "can't convert job status" e)
  | ok completed ↦ ok (info.errors, info.count)
  | ok _ ↦
      if not (info.fatal_gen_err == "")
      then fail (
          wrapf ("can't get archive info: fatal generation error: " <> info.fatal_gen_err)
            (app internal))
      else fail (wrapf "can't get archive info" (app job_not_finished))
]

module _ {S : Type 0} (storage : GeneratorStorage S) (cacher : Cacher S) where
  -- `CheckJobStatus` from the status text on; a miss of the cache fills it.
  unfoldable pub status_of : Bool → String → String → Proc S JobStatus
  status_of missed id status = do
    job_status ← on_error (wrapf "can't convert job status") (lift (job_status_from_string status))
    if missed then ignore (cacher.set_job_status id (status_text job_status)) else pure tt
    pure job_status

  unfoldable pub check_job_status : String → Proc S JobStatus
  unfolding status_of
  check_job_status id = handle (cacher.get_job_status id) (status_of false id) λ _. do
    status ← on_error (wrapf "can't check job status") (storage.check_job_status id)
    status_of true id status

  unfoldable pub get_archive : String → Proc S Bytes
  get_archive job_id = do
    stored ← on_error (wrapf "can't get archive from store") (storage.get_archive job_id)
    lift (archive_of stored)

  unfoldable pub get_archive_info : String → Proc S (List FilesErrors × ℕ)
  get_archive_info job_id = do
    info ← on_error (wrapf "can't get archive info from store") (storage.get_archive_info job_id)
    lift (info_of info)

  -- A call whose error goes to the log only.
  abbrev dismiss : Proc S (Unit {0}) → S → S
  dismiss m s = (m s).1

  -- `ProcessJob` without an error of the client, after the update of the job and after the saving
  -- of the response; the text is the label `result` of the metrics.
  after_update : String → Result (Unit {0}) → S → String × S
  after_update id (ok _) s =
      ("success", dismiss (cacher.set_job_status id (status_text completed)) s)
  after_update id (fail _) s = ("error", dismiss (cacher.set_job_status id (status_text failed)) s)

  after_save : String → Result (Unit {0}) → S → String × S
  unfolding after_update
  after_save id (ok _) s =
      let (r, s') = storage.update_job (record { id = id; status = completed }) s in
      after_update id r s'
  after_save id (fail _) s =
      let s' = dismiss (storage.update_job (record { id = id; status = failed })) s in
      ("error", dismiss (cacher.set_job_status id (status_text failed)) s')

  -- `ProcessJob` once the client's outcome is there.
  unfoldable pub finalize : String → Option Err → GenResponse → S → String × S
  unfolding after_save
  finalize id (some err) response s =
      let job : Job = record { id = id; status = failed } in
      let s' = dismiss (storage.save_response job response (some err)) s in
      let s'' = dismiss (storage.update_job job) s' in
      ("error", dismiss (cacher.set_job_status id (status_text failed)) s'')
  finalize id none response s =
      let job : Job = record { id = id; status = completed } in
      let (r, s') = storage.save_response job response none s in after_save id r s'

  module _ (new_uuid : Proc S String) where
    -- `BulkGenerate` without its deferred function.
    unfoldable pub submit : Context → Bytes → Proc (World S) String
    submit ctx archive_bytes = do
      id ← on_error (wrapf "can't create job") (call new_uuid)
      let job : Job = record { id = id; status = processing }
      on_error (wrapf ("can't add job with ID " <> (id <> " in storage")))
          (call (storage.store_job job (int_of ctx.user_id)))
      ignore (call (cacher.set_job_status id (status_text processing)))
      start (record { ctx = ctx; job = job; archive_bytes = archive_bytes })
      pure id

    unfoldable pub bulk_generate : Context → Bytes → Proc (World S) String
    unfolding submit
    bulk_generate ctx archive_bytes = observed "grpc" (submit ctx archive_bytes)

  module _ (client : GeneratorClient S) where
    -- `ProcessJob`. `none` is a run that never ends.
    unfoldable pub process_job : ProcessJobParams → World S → Option (World S)
    process_job params w =
        let (sent, s) = client.bulk_generate params.archive_bytes w.env in
        elim (await sent) [
          | none ↦ none
          | some (err, response) ↦
              let (label, s') = finalize params.job.id err response s in
              some (record w { env = s'; metrics = job_ended label (job_started w.metrics) })
        ]
