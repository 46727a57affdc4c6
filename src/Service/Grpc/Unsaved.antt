-- ===== src/Service/Grpc/Unsaved.antt =====
-- The service over the Postgres storage when a response does not get into the database.
use agreements_generator_api.Prelude.{ℕ, ◌≡◌, ◌≢◌, inl, inr, String, List, none, arith}
use agreements_generator_api.Prelude.Dict.{lookup}
use agreements_generator_api.Effect.{Result, ok, fail, Call-cases}
use agreements_generator_api.Domain.Errors.{Err}
use agreements_generator_api.Domain.Generator.{
  Bytes, FilesErrors, GenResponse, completed, status_text,
}
use agreements_generator_api.Storage.{storage_beside}
use agreements_generator_api.Storage.Postgres
use agreements_generator_api.Storage.Postgres.{
  Pool, update_status, update_job, new_domain_err, postgres_generator_storage,
}
use agreements_generator_api.Storage.Postgres.Database.{IsDatabase}
use agreements_generator_api.Storage.Postgres.Save.{insertion, accepted}
use agreements_generator_api.Cache.{Cacher, cacher_beside}
use agreements_generator_api.Service.Grpc.{finalize, get_archive}

module _ {D Tx : Type 0} (pool : Pool D Tx) (unmarshal : Bytes → Result (List FilesErrors)) where
  -- A job without a row of `archives` yields no archive, whatever its status: `GetArchive` fails.
  pub get_archive-unsaved :
      (db : IsDatabase pool) (cacher : Cacher D) (id : String) (d : D) (bytes : Bytes)
      → lookup id (db.committed d).archives ≡ none
      → (get_archive (postgres_generator_storage pool unmarshal) cacher id d).0 ≢ ok bytes
  unfolding get_archive Postgres.get_archive
  get_archive-unsaved db cacher id d bytes h = elim (Call-cases (pool.select_archive id) d) [
    | inl (row, d', e) ↦ λ _. ground (arith, db.select_archive-ok id d d' row e)
    | inr (x, d', e) ↦ rw e (ground arith)
  ]

  update-ok :
      (id : String) (m : ℕ) (d d' : D)
      → pool.exec (update_status completed (pool.time_now d) id) d ≡ (ok m, d')
      → update_job pool (record { id = id; status = completed }) d ≡ (ok tt, d')
  unfolding update_job
  update-ok id m d d' h = rw h

  -- A job whose response is lost by a failed commit still ends as a success: if the update of the
  -- job is accepted, the cache is told that the job is completed.
  pub finalize-lost :
      {C : Type 0} (cacher : Cacher C) (id : String) (response : GenResponse) (c : C)
      (d d' d'' d''' last : D) (tx : Tx) (n m : ℕ) (e : Err)
      → pool.begin d ≡ (ok tx, d')
      → pool.tx_exec tx (insertion (record { id = id; status = completed }) response none) d'
        ≡ (ok n, d'')
      → pool.commit tx d'' ≡ (fail e, d''')
      → pool.exec
          (update_status completed (pool.time_now (pool.rollback tx d''').1) id)
          (pool.rollback tx d''').1
        ≡ (ok m, last)
      → finalize
          (storage_beside (postgres_generator_storage pool unmarshal))
          (cacher_beside cacher)
          id
          none
          response
          (d, c)
        ≡ ("success", (last, (cacher.set_job_status id (status_text completed) c).1))
  unfolding finalize
  finalize-lost cacher id response c d d' d'' d''' last tx n m e hb hx hc hu = rw (
    accepted pool (record { id = id; status = completed }) response none d d' d'' tx n hb hx,
    hc,
    update-ok id m (pool.rollback tx d''').1 last hu,
  )
