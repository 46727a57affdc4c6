-- ===== src/Service/Grpc/Pending.antt =====
-- The archive of a job that was just submitted, over either storage.
use agreements_generator_api.Prelude.{
  ℕ, ◌≡◌, refl, ap, String, Bool, true, List, Option, none, some, arith, eq_refl, Option-cases, inl,
  inr,
}
use agreements_generator_api.Prelude.Dict.{lookup, lookup-insert}
use agreements_generator_api.Effect.{Result, ok, fail}
use agreements_generator_api.Domain.Errors.{
  AppErr, as_app_err, no_rows, job_not_finished, not_found, wrapf, wrapv,
}
use agreements_generator_api.Domain.Generator.{
  Bytes, FilesErrors, Job, processing, status_text, job_status_from_string,
}
use agreements_generator_api.Storage.Memory as Memory
use agreements_generator_api.Storage.Memory.{JobData, MemoryStorage, memory_generator_storage}
use agreements_generator_api.Storage.Memory.Jobs.{created}
use agreements_generator_api.Storage.Postgres as Postgres
use agreements_generator_api.Storage.Postgres.{Pool, new_domain_err, postgres_generator_storage}
use agreements_generator_api.Storage.Postgres.Database.{IsDatabase, Tables, archive_row}
use agreements_generator_api.Storage.Postgres.Effects.{IsServer, perform-Does}
use agreements_generator_api.Storage.Postgres.Methods.{store}
use agreements_generator_api.Cache.{Cacher}
use agreements_generator_api.Service.Grpc.{get_archive, archive_of}

-- The application's error that a caller finds in a result.
abbrev pub app_error {ℓ} : {A : Type ℓ} → Result A → Option AppErr
app_error (ok a) = none
app_error (fail e) = as_app_err e

-- `archives.job_id` REFERENCES jobs(id): results belong to a job.
abbrev pub IsReferential : Tables → Type 0
IsReferential t = (id : String) → lookup id t.jobs ≡ none → lookup id t.archives ≡ none

-- What is assumed of the server in addition: where it is up, the Scan of a query without a row fails
-- with pgx.ErrNoRows.
pub record IsAnswering {D Tx : Type 0} (pool : Pool D Tx) (db : IsDatabase pool) : Type 0 where
  pub is_up : D → Bool
  pub select_archive-empty :
      (id : String) (d : D)
      → is_up d ≡ true
      → archive_row id (db.committed d) ≡ none
      → (pool.select_archive id d).0 ≡ fail no_rows

-- A job as `BulkGenerate` stores it.
abbrev pub new_job : String → Job
new_job id = record { id = id; status = processing }

memory_stored :
    (id : String) (user_id : ℕ) (m m' : MemoryStorage)
    → Memory.store_job (new_job id) user_id m ≡ (ok tt, m')
    → lookup id m'.jobs ≡ some (created (new_job id) m.now)
unfolding Memory.store_job
memory_stored id user_id m m' h = elim (Option-cases (lookup id m.jobs)) [
  | inr (old, e) ↦ absurd (ground (arith, ap (λ p. p.0) (rw (Memory.store_job, e) at h)))
  | inl e ↦
      let stored = ap (λ p. lookup id p.1.jobs) (rw (Memory.store_job, e) at h) in
      ground (arith, stored, lookup-insert id id (created (new_job id) m.now) m.jobs, eq_refl id)
]

memory_pending :
    (cacher : Cacher MemoryStorage) (id : String) (user_id : ℕ) (m m' : MemoryStorage)
    → Memory.store_job (new_job id) user_id m ≡ (ok tt, m')
    → app_error (get_archive memory_generator_storage cacher id m').0 ≡ some job_not_finished
unfolding get_archive archive_of as_app_err job_status_from_string status_text wrapf
    Memory.get_archive Memory.fatal_text
memory_pending cacher id user_id m m' h =
    rw (get_archive, Memory.get_archive, memory_stored id user_id m m' h) refl

module _ {D Tx : Type 0} (pool : Pool D Tx) (db : IsDatabase pool) (server : IsServer pool db)
    (answering : IsAnswering pool db) (unmarshal : Bytes → Result (List FilesErrors)) where
  -- The row of the job after `StoreJob`, and none of its results.
  stored_rows :
      (id : String) (user_id : ℕ) (d d' : D)
      → IsReferential (db.committed d)
      → Postgres.store_job pool (new_job id) user_id d ≡ (ok tt, d')
      → (lookup id (db.committed d').jobs ≡ some processing)
        × (archive_row id (db.committed d') ≡ none)
  stored_rows id user_id d d' references h =
      let (missing, new) =
        rw h at (perform-Does pool db server unmarshal (store (new_job id) user_id) d) in
      let no_results = references id missing in
      rw (new, no_results)
        (ground (arith, lookup-insert id id processing (db.committed d).jobs, eq_refl id), refl)

  postgres_pending :
      (cacher : Cacher D) (id : String) (d : D)
      → (pool.select_archive id d).0 ≡ fail no_rows
      → app_error (get_archive (postgres_generator_storage pool unmarshal) cacher id d).0
        ≡ some not_found
  unfolding get_archive Postgres.get_archive new_domain_err as_app_err wrapf wrapv
  postgres_pending cacher id d e = rw e refl

  -- A job that was just stored as processing, under the same id in both storages, is refused as not
  -- finished (400) over the in-memory storage, and as not found (404) over PostgreSQL, although its
  -- row is in the table of jobs as processing. The rows of archives belong to jobs when the job is
  -- stored, and the server is up when its archive is asked for.
  pub get_archive-pending :
      (memory_cacher : Cacher MemoryStorage) (cacher : Cacher D) (id : String) (user_id : ℕ)
      (m m' : MemoryStorage) (d d' : D)
      → IsReferential (db.committed d)
      → Memory.store_job (new_job id) user_id m ≡ (ok tt, m')
      → Postgres.store_job pool (new_job id) user_id d ≡ (ok tt, d')
      → answering.is_up d' ≡ true
      → let pg = get_archive (postgres_generator_storage pool unmarshal) cacher id d' in
        (app_error (get_archive memory_generator_storage memory_cacher id m').0
          ≡ some job_not_finished)
        × (app_error pg.0 ≡ some not_found)
        × (lookup id (db.committed d').jobs ≡ some processing)
  get_archive-pending memory_cacher cacher id user_id m m' d d' references stored h up =
      let (row, empty) = stored_rows id user_id d d' references h in
      (
        memory_pending memory_cacher id user_id m m' stored,
        postgres_pending cacher id d' (answering.select_archive-empty id d' up empty),
        row,
      )
