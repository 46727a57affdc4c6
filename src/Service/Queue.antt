-- ===== src/Service/Queue.antt =====
-- internal/service/queue_generator/generator.go, over any storage, cache and publisher. The worker
-- that takes the jobs from the queue is not part of this repository. `publish_ctx` is not passed
-- on: the publisher uses it for its deadline only.
pub mod Laws
use agreements_generator_api.Prelude.{
  ℕ, String, ◌<>◌, ◌==◌, not, Bool, true, false, List, Option, none, some, if◌then◌else◌,
}
use agreements_generator_api.Effect.{
  Result, ok, fail, Proc, pure, raise, lift, on_error, ignore, handle, ◌>>=◌, ◌>>◌,
}
use agreements_generator_api.Domain.Errors.{
  Err, app, wrapf, wrapvw, internal, not_found, job_not_finished, storage_bad_request,
}
use agreements_generator_api.Domain.Generator.{
  Bytes, Job, JobStatus, processing, completed, FilesErrors, status_text, job_status_from_string,
}
use agreements_generator_api.Storage.{ArchiveInfo, GeneratorStorage, InputArchiveStorer}
use agreements_generator_api.Cache.{Cacher}
use agreements_generator_api.Publisher.{Publisher}
use agreements_generator_api.Service.{World, Context, int_of, call, observed}

unfoldable pub archive_of : String × Bytes × String → Result Bytes
archive_of (status, archive, fatal_gen_err) = elim (job_status_from_string status) [
  | fail e ↦ fail (wrapf "can't convert job status" e)
  | ok completed ↦ elim archive [ none ↦ fail (app not_found) | some bytes ↦ ok (some bytes) ]
  | ok _ ↦
      if not (fatal_gen_err == "")
      then fail
          (wrapf ("can't get archive: fatal generation error: " <> fatal_gen_err) (app internal))
      else fail (app job_not_finished)
]

unfoldable pub info_of : ArchiveInfo → Result (List FilesErrors × ℕ)
info_of info = elim (job_status_from_string info.status) [
  | fail e ↦ fail (wrapf "can't convert job status" e)
  | ok completed ↦ ok (info.errors, info.count)
  | ok _ ↦
      if not (info.fatal_gen_err == "")
      then fail (
          wrapf ("can't get archive info: fatal generation error: " <> info.fatal_gen_err)
            (app internal))
      else fail (wrapf "can't get archive info" (app job_not_finished))
]

module _ {S : Type 0} (storage : GeneratorStorage S) (cacher : Cacher S) where
  unfoldable pub status_of : Bool → String → String → Proc S JobStatus
  status_of missed id status = do
    job_status ← on_error (wrapf "can't convert job status") (lift (job_status_from_string status))
    if missed then ignore (cacher.set_job_status id (status_text job_status)) else pure tt
    pure job_status

  unfoldable pub check_job_status : String → Proc S JobStatus
  unfolding status_of
  check_job_status id = handle (cacher.get_job_status id) (status_of false id) λ _. do
    status ← on_error (wrapf "can't check job status") (storage.check_job_status id)
    status_of true id status

  unfoldable pub get_archive : String → Proc S Bytes
  get_archive job_id = do
    stored ← on_error (wrapf "can't get archive from store") (storage.get_archive job_id)
    lift (archive_of stored)

  unfoldable pub get_archive_info : String → Proc S (List FilesErrors × ℕ)
  get_archive_info job_id = do
    info ← on_error (wrapf "can't get archive info from store") (storage.get_archive_info job_id)
    lift (info_of info)

  -- `storer` is what the type assertion `g.storage.(storage.InputArchiveStorer)` gives.
  module _ (storer : Option (InputArchiveStorer S)) (publisher : Publisher S)
      (new_uuid : Proc S String) where
    unfoldable pub save_raw_archive : String → Bytes → Proc S (Unit {0})
    save_raw_archive id archive_bytes = elim storer [
      | none ↦ raise (
          wrapf "can't store raw archive in storage; storage doesn't implement InputArchiveStorer"
            (app storage_bad_request))
      | some st ↦
          on_error (λ e. wrapvw "can't store raw archive in storage" e (app storage_bad_request))
            (st.save_raw_archive id archive_bytes)
    ]

    unfoldable pub publish_job : Job → Proc S (Unit {0})
    publish_job job = publisher.send job.id

    -- `BulkGenerate` without its deferred function.
    unfoldable pub submit : Context → Bytes → Proc (World S) String
    unfolding save_raw_archive publish_job
    submit ctx archive_bytes = do
      id ← on_error (wrapf "can't create job") (call new_uuid)
      let job : Job = record { id = id; status = processing }
      on_error (wrapf ("can't add job with ID " <> (id <> " in storage")))
          (call (storage.store_job job (int_of ctx.user_id)))
      ignore (call (cacher.set_job_status id (status_text processing)))
      call (save_raw_archive id archive_bytes)
      on_error (wrapf ("can't add job with ID " <> (id <> " to queue"))) (call (publish_job job))
      pure id

    unfoldable pub bulk_generate : Context → Bytes → Proc (World S) String
    unfolding submit
    bulk_generate ctx archive_bytes = observed "queue" (submit ctx archive_bytes)
