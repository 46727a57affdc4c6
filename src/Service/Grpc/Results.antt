-- ===== src/Service/Grpc/Results.antt =====
-- What a client gets of a job that `ProcessJob` has finalized over the in-memory storage.
use agreements_generator_api.Prelude.{
  ℕ, ◌≡◌, refl, ◌∙◌, ap, String, ◌<>◌, ◌==◌, eq_refl, List, Option, none, some, if◌then◌else◌,
  arith,
}
use agreements_generator_api.Prelude.Dict.{lookup}
use agreements_generator_api.Effect.{Result, ok, fail}
use agreements_generator_api.Domain.Errors.{
  Err, app, wrapf, error_text, internal, not_found, job_not_finished,
}
use agreements_generator_api.Domain.Generator.{
  Bytes, GenResponse, FilesErrors, status_text, job_status_from_string,
}
use agreements_generator_api.Storage.{storage_beside}
use agreements_generator_api.Storage.Memory.{
  JobData, MemoryStorage, memory_generator_storage, fatal_text,
}
use agreements_generator_api.Storage.Memory as Memory
use agreements_generator_api.Cache.{Cacher, cacher_beside}
use agreements_generator_api.Service.Grpc.{
  finalize, get_archive, get_archive_info, archive_of, info_of,
}
use agreements_generator_api.Service.Grpc.Process.{finished, finalize_stored}

-- The answer to a request for the archive: the worker's archive, or an error that tells a job
-- without an archive, a fatal error, and one with an empty text.
abbrev pub archive_answer : Option Err → GenResponse → Result Bytes
archive_answer none response = elim response.archive [
  | none ↦ fail (app not_found)
  | some bytes ↦ ok (some bytes)
]
archive_answer (some e) response =
    if error_text e == ""
    then fail (app job_not_finished)
    else fail (wrapf ("can't get archive: fatal generation error: " <> error_text e) (app internal))

abbrev pub info_answer : Option Err → GenResponse → Result (List FilesErrors × ℕ)
info_answer none response = ok (response.errors, response.gen_count)
info_answer (some e) response =
    if error_text e == ""
    then fail (wrapf "can't get archive info" (app job_not_finished))
    else fail
        (wrapf ("can't get archive info: fatal generation error: " <> error_text e) (app internal))

module _ {C : Type 0} (cacher : Cacher C) (id : String) (m : MemoryStorage) (c : C)
    (d : JobData) where
  pub get_archive_of_stored :
      (stored : lookup id m.jobs ≡ some d)
      → get_archive (storage_beside memory_generator_storage) (cacher_beside cacher) id (m, c)
        ≡ (archive_of (status_text d.status, d.archive, fatal_text d.fatal_error), (m, c))
  unfolding get_archive Memory.get_archive
  get_archive_of_stored stored = ground arith

  pub get_archive_info_of_stored :
      (stored : lookup id m.jobs ≡ some d)
      → get_archive_info (storage_beside memory_generator_storage) (cacher_beside cacher) id (m, c)
        ≡ (
          info_of (record {
            status = status_text d.status;
            errors = d.errors;
            count = d.gen_count;
            fatal_gen_err = fatal_text d.fatal_error;
          }),
          (m, c),
        )
  unfolding get_archive_info Memory.get_archive_info
  get_archive_info_of_stored stored = ground arith

pub archive_of-finished :
    (err : Option Err) (response : GenResponse) (d : JobData)
    → let f = finished err response d in
      archive_of (status_text f.status, f.archive, fatal_text f.fatal_error)
      ≡ archive_answer err response
unfolding archive_of fatal_text job_status_from_string status_text
archive_of-finished none response d = refl
archive_of-finished (some e) response d = ground arith

info_of-finished :
    (err : Option Err) (response : GenResponse) (d : JobData)
    → let f = finished err response d in
      info_of (record {
        status = status_text f.status;
        errors = f.errors;
        count = f.gen_count;
        fatal_gen_err = fatal_text f.fatal_error;
      })
      ≡ info_answer err response
unfolding info_of fatal_text job_status_from_string status_text
info_of-finished none response d = refl
info_of-finished (some e) response d = ground arith

-- Over the in-memory storage, where the job is stored when the outcome arrives, the archive and its
-- information are answered by the outcome alone: the archive, the file errors and the count that
-- the worker sent, or the error that tells why there are none.
pub results_of_finalize :
    {C : Type 0} (cacher : Cacher C) (id : String) (err : Option Err) (response : GenResponse)
    (m : MemoryStorage) (c : C) (d : JobData)
    → lookup id m.jobs ≡ some d
    → let storage = storage_beside memory_generator_storage in
      let ca = cacher_beside cacher in
      let s = (finalize storage ca id err response (m, c)).1 in
      (get_archive storage ca id s ≡ (archive_answer err response, s))
      × (get_archive_info storage ca id s ≡ (info_answer err response, s))
results_of_finalize cacher id err response m c d stored =
    let s =
      (finalize (storage_beside memory_generator_storage) (cacher_beside cacher) id err response
        (m, c)).1 in
    let kept = (finalize_stored cacher id err response m c d id stored).1 in
    let stored' : lookup id s.0.jobs ≡ some (finished err response d) = rw (eq_refl id) at kept in
    (
      get_archive_of_stored cacher id s.0 s.1 _ stored'
          ∙ ap (λ r. (r, s)) (archive_of-finished err response d),
      get_archive_info_of_stored cacher id s.0 s.1 _ stored'
          ∙ ap (λ r. (r, s)) (info_of-finished err response d),
    )
