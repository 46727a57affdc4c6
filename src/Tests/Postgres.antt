-- ===== src/Tests/Postgres.antt =====
-- The Postgres storage, and the service over it, on a database whose commits fail.
use agreements_generator_api.Prelude.{
  String, ◌≡◌, ◌≢◌, arith, refl, true, false, List, [], ◌∷◌, none, some,
}
use agreements_generator_api.Prelude.Dict.{lookup, insert}
use agreements_generator_api.Effect.{Result, ok, fail}
use agreements_generator_api.Domain.Errors.{
  Err, no_rows, foreign, pg_error, wrapf, as_app_err, job_not_finished, not_found,
}
use agreements_generator_api.Domain.Generator.{
  Bytes, Job, FilesErrors, processing, completed, status_text,
}
use agreements_generator_api.Storage.Postgres.{
  new_domain_err, update_status, save_response, clean_up, postgres_generator_storage,
}
use agreements_generator_api.Storage.Postgres.Database.{Tables, archive_row}
use agreements_generator_api.Storage.Postgres.Errors.{root, meaning, new_domain_err-root}
use agreements_generator_api.Storage.Postgres.Methods.{
  Method, find_archive, save, update, FailsWell, perform, perform-FailsWell,
}
use agreements_generator_api.Storage.Postgres as Postgres
use agreements_generator_api.Storage.Postgres.Durable.{after, get_archive-durable}
use agreements_generator_api.Storage.Postgres.Save.{
  row_of, insertion, IsSaved, save_response-IsSaved, clean_up-held,
}
use agreements_generator_api.Storage.{storage_beside}
use agreements_generator_api.Cache.{Cacher, cacher_beside}
use agreements_generator_api.Service.Grpc.{finalize, get_archive}
use agreements_generator_api.Storage.Memory.{MemoryStorage, memory_generator_storage}
use agreements_generator_api.Storage.Memory as Memory
use agreements_generator_api.Service.Grpc.Agreement.{job_of, get_archive-agrees}
use agreements_generator_api.Service.Grpc.Pending.{
  app_error, IsReferential, IsAnswering, new_job, get_archive-pending,
}
use agreements_generator_api.Service.Grpc.Unsaved.{finalize-lost}
use agreements_generator_api.Tests.Fixtures.{zip, dict_cacher, no_jobs, one_job, waiting}
use agreements_generator_api.Tests.Database.{Db, pool, db, server, run, execute, commit, rollback}

abbrev quiet_cacher : {S : Type 0} → Cacher S
quiet_cacher = record {
  set_job_status = λ id text d. (ok tt, d);
  get_job_status = λ id d. (fail (foreign "redis: nil"), d);
  delete_job_status = λ id d. (ok tt, d);
  close = λ d. (ok tt, d);
}

abbrev unmarshal : Bytes → Result (List FilesErrors)
unmarshal bytes = ok []

abbrev tables : Tables
tables = record { jobs = ("j1", processing) ∷ []; archives = [] }

abbrev job : Job
job = record { id = "j1"; status = completed }

-- One job, one connection in use elsewhere, and commits that fail.
abbrev failing : Db
failing = (tables, tables, 1, false, true)

abbrev begun : Db
begun = (tables, tables, 1, true, true)

abbrev inserted : Db
inserted = (run tt (insertion job zip none) begun).1

abbrev duplicate : Err
duplicate = wrapf "insert" (pg_error "23505" "duplicate key")

new_domain_err-root_example :
    as_app_err (new_domain_err duplicate) ≡ some (meaning (root duplicate))
new_domain_err-root_example = new_domain_err-root duplicate

perform-FailsWell_example : FailsWell (perform pool unmarshal (find_archive "j1") failing).0
perform-FailsWell_example = perform-FailsWell pool unmarshal (find_archive "j1") failing

save_response-IsSaved_example :
    IsSaved pool db job zip none failing (save_response pool job zip none failing)
save_response-IsSaved_example = save_response-IsSaved pool db job zip none failing

clean_up-held_example : db.held (clean_up pool 300 failing).1 ≡ 2
clean_up-held_example =
    clean_up-held pool db 300 failing begun begun tt (fail (foreign "deadlock")) refl refl

finalize-lost_example :
    finalize
      (storage_beside (postgres_generator_storage pool unmarshal))
      (cacher_beside dict_cacher)
      "j1"
      none
      zip
      (failing, [])
    ≡ (
      "success",
      (
        (execute (update_status completed 0 "j1") (rollback tt (commit tt inserted).1).1).1,
        (dict_cacher.set_job_status "j1" (status_text completed) []).1,
      ),
    )
unfolding lookup
finalize-lost_example =
    finalize-lost pool unmarshal dict_cacher "j1" zip [] failing begun inserted
      (commit tt inserted).1
      (execute (update_status completed 0 "j1") (rollback tt (commit tt inserted).1).1).1 tt 1 1
      (foreign "connection lost") refl refl refl refl

-- No job yet, in either storage, and then the job j1.
abbrev nothing : Db
nothing = (record { jobs = []; archives = [] }, tables, 0, false, true)

abbrev one_row : Db
one_row = (Postgres.store_job pool (new_job "j1") 7 nothing).1

abbrev submitted : MemoryStorage
submitted = (Memory.store_job (new_job "j1") 7 no_jobs).1

stored_memory : Memory.store_job (new_job "j1") 7 no_jobs ≡ (ok tt, submitted)
unfolding Memory.store_job lookup
stored_memory = refl

stored_row : Postgres.store_job pool (new_job "j1") 7 nothing ≡ (ok tt, one_row)
unfolding Postgres.store_job lookup
stored_row = refl

no_results : IsReferential nothing.0
unfolding lookup
no_results id h = refl

empty_row :
    (id : String) (d : Db) → archive_row id d.0 ≡ none → (pool.select_archive id d).0 ≡ fail no_rows
empty_row id d h = rw h refl

answering : IsAnswering pool db
answering = record { is_up = λ d. true; select_archive-empty = λ id d up h. empty_row id d h }

get_archive-pending_example :
    let pg = get_archive (postgres_generator_storage pool unmarshal) quiet_cacher "j1" one_row in
    (app_error (get_archive memory_generator_storage quiet_cacher "j1" submitted).0
      ≡ some job_not_finished)
    × (app_error pg.0 ≡ some not_found)
    × (lookup "j1" one_row.0.jobs ≡ some processing)
unfolding answering
get_archive-pending_example =
    get_archive-pending pool db server answering unmarshal quiet_cacher quiet_cacher "j1" 7 no_jobs
      submitted nothing one_row no_results stored_memory stored_row refl

-- A job whose results are there, and commits that succeed.
abbrev ready : Db
ready = (
  record { jobs = ("j1", completed) ∷ []; archives = ("j1", row_of zip none) ∷ [] },
  tables,
  0,
  false,
  false,
)

abbrev calls : List Method
calls = save job (record zip { gen_count = 5 }) none ∷ update job ∷ find_archive "j2" ∷ []

shown : Postgres.get_archive pool "j1" ready ≡ (ok ("completed", some (80 ∷ 75 ∷ []), ""), ready)
unfolding Postgres.get_archive lookup status_text Postgres.fatal_gen_err_string
shown = refl

abbrev last : Db
last = after pool unmarshal calls ready

shown_again :
    Postgres.get_archive pool "j1" last ≡ (ok ("completed", some (80 ∷ 75 ∷ []), ""), last)
unfolding Postgres.get_archive lookup Postgres.update_job save_response insert status_text
shown_again = refl

get_archive-durable_example : (zip.archive ≡ some (80 ∷ 75 ∷ [])) × (◌≡◌ {A = String} "" "")
get_archive-durable_example =
    get_archive-durable pool db server unmarshal "j1" calls ready ready last "completed" "completed"
      "" "" (some (80 ∷ 75 ∷ [])) (some (80 ∷ 75 ∷ [])) shown shown_again

-- The job j1 in both storages, and commits that succeed.
abbrev pending : Db
pending = (tables, tables, 0, false, false)

abbrev saved : Db
saved = (save_response pool (job_of "j1" none) zip none pending).1

abbrev done : Db
done = (Postgres.update_job pool (job_of "j1" none) saved).1

known : lookup "j1" tables.jobs ≡ some processing
unfolding lookup
known = refl

stored : lookup "j1" one_job.jobs ≡ some waiting
unfolding lookup
stored = refl

saves : save_response pool (job_of "j1" none) zip none pending ≡ (ok tt, saved)
unfolding save_response lookup
saves = refl

kept : lookup "j1" saved.0.archives ≢ none
unfolding save_response lookup insert
kept = ground arith

updates : Postgres.update_job pool (job_of "j1" none) saved ≡ (ok tt, done)
unfolding save_response Postgres.update_job lookup
updates = refl

abbrev answered : String × Bytes × String
answered = ("completed", some (80 ∷ 75 ∷ []), "")

answers : pool.select_archive "j1" done ≡ (ok answered, done)
unfolding save_response Postgres.update_job lookup insert status_text Postgres.fatal_gen_err_string
answers = refl

get_archive-agrees_example :
    let pg = storage_beside (postgres_generator_storage pool unmarshal) in
    let mem = storage_beside memory_generator_storage in
    let s = (finalize pg (cacher_beside dict_cacher) "j1" none zip (pending, [])).1 in
    let s' = (finalize mem (cacher_beside dict_cacher) "j1" none zip (one_job, [])).1 in
    ((get_archive pg (cacher_beside dict_cacher) "j1" s).0
      ≡ (get_archive mem (cacher_beside dict_cacher) "j1" s').0)
    × (s.1 ≡ s'.1)
get_archive-agrees_example =
    get_archive-agrees pool db server unmarshal dict_cacher "j1" none zip processing pending saved
      done done answered one_job waiting [] known stored saves kept updates answers
