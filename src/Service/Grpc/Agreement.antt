-- ===== src/Service/Grpc/Agreement.antt =====
-- The results of a job over PostgreSQL and over the in-memory storage.
use agreements_generator_api.Prelude.{
  ◌≡◌, ◌≢◌, refl, sym, ap, ◌∙◌, inl, inr, String, eq_refl, List, Option, none, some, arith,
}
use mathlib.Core.Path.{subst}
use agreements_generator_api.Prelude.Dict.{lookup, lookup-insert}
use agreements_generator_api.Effect.{Result, ok}
use agreements_generator_api.Domain.Errors.{Err}
use agreements_generator_api.Domain.Generator.{
  Bytes, GenResponse, FilesErrors, JobStatus, Job, status_text,
}
use agreements_generator_api.Storage.{GeneratorStorage, storage_beside}
use agreements_generator_api.Storage.Memory.{
  JobData, MemoryStorage, memory_generator_storage, fatal_text,
}
use agreements_generator_api.Storage.Postgres as Postgres
use agreements_generator_api.Storage.Postgres.{
  Pool, fatal_gen_err_string, save_response, update_job, postgres_generator_storage,
}
use agreements_generator_api.Storage.Postgres.Database.{
  IsDatabase, Tables, with_archive, archive_row,
}
use agreements_generator_api.Storage.Postgres.Methods.{save, update}
use agreements_generator_api.Storage.Postgres.Save.{row_of}
use agreements_generator_api.Storage.Postgres.Effects.{IsServer, IsUpdated, perform-Does}
use agreements_generator_api.Cache.{Cacher, cacher_beside}
use agreements_generator_api.Service.Grpc.{finalize, get_archive, archive_of}
use agreements_generator_api.Service.Grpc.Process.{final_status, finalize_stored}
use agreements_generator_api.Service.Grpc.Results.{archive_of-finished, results_of_finalize}

fatal_texts : (err : Option Err) → fatal_gen_err_string err ≡ fatal_text err
unfolding fatal_gen_err_string fatal_text
fatal_texts none = refl
fatal_texts (some e) = refl

-- What the query finds after the two statements.
row_after :
    (id : String) (status old : JobStatus) (response : GenResponse) (err : Option Err)
    (t t' : Tables)
    → lookup id t.jobs ≡ some old
    → IsUpdated id status (with_archive id (row_of response err) t) t'
    → archive_row id t' ≡ some (status_text status, response.archive, fatal_text err)
row_after id status old response err t t' h (same, statuses) =
    let now : lookup id t'.jobs ≡ some status = ground (arith, statuses id, eq_refl id, h) in
    rw
      (same, lookup-insert id id (row_of response err) t.archives, now, eq_refl id, fatal_texts err)
      refl

-- The `Job` of the two calls.
abbrev pub job_of : String → Option Err → Job
job_of id err = record { id = id; status = final_status err }

module _ {D Tx C : Type 0} (pool : Pool D Tx) (unmarshal : Bytes → Result (List FilesErrors))
    (cacher : Cacher C) (id : String) (response : GenResponse) where
  abbrev pub storage : GeneratorStorage (D × C)
  storage = storage_beside (postgres_generator_storage pool unmarshal)

  finalize-postgres :
      (err : Option Err) (d d' d'' : D) (c : C)
      → save_response pool (job_of id err) response err d ≡ (ok tt, d')
      → update_job pool (job_of id err) d' ≡ (ok tt, d'')
      → (finalize storage (cacher_beside cacher) id err response (d, c)).1
        ≡ (d'', (cacher.set_job_status id (status_text (final_status err)) c).1)
  unfolding finalize
  finalize-postgres none d d' d'' c hs hu = rw (hs, hu) refl
  finalize-postgres (some e) d d' d'' c hs hu = rw (hs, hu) refl

  get_archive-postgres :
      (row : String × Bytes × String) (d d' : D) (c : C)
      → pool.select_archive id d ≡ (ok row, d')
      → (get_archive storage (cacher_beside cacher) id (d, c)).0 ≡ archive_of row
  unfolding get_archive Postgres.get_archive
  get_archive-postgres row d d' c h = rw h refl

module _ {D Tx : Type 0} (pool : Pool D Tx) (db : IsDatabase pool) (server : IsServer pool db)
    (unmarshal : Bytes → Result (List FilesErrors)) where
  -- The row after the two calls, where the commit was not lost.
  row_found :
      (id : String) (response : GenResponse) (err : Option Err) (old : JobStatus)
      (d d' d'' d''' : D) (row : String × Bytes × String)
      → lookup id (db.committed d).jobs ≡ some old
      → save_response pool (job_of id err) response err d ≡ (ok tt, d')
      → lookup id (db.committed d').archives ≢ none
      → update_job pool (job_of id err) d' ≡ (ok tt, d'')
      → pool.select_archive id d'' ≡ (ok row, d''')
      → row ≡ (status_text (final_status err), response.archive, fatal_text err)
  row_found id response err old d d' d'' d''' row known hs kept hu hq =
      let job = job_of id err in
      let (fresh, saved) =
        rw hs at (perform-Does pool db server unmarshal (save job response err) d) in
      let updated = rw hu at (perform-Does pool db server unmarshal (update job) d') in
      let there : db.committed d' ≡ with_archive id (row_of response err) (db.committed d) =
        elim saved [
          | inl same ↦ absurd (kept (ap (λ t. lookup id t.archives) same ∙ fresh))
          | inr new ↦ new
        ] in
      let after = subst (λ t. IsUpdated id (final_status err) t (db.committed d'')) there updated in
      let found = sym (db.select_archive-ok id d'' d''' row hq) in
      ground (
        arith,
        found,
        row_after id (final_status err) old response err (db.committed d) (db.committed d'') known
            after,
      )

  -- The two storages agree on the result of a job. `ProcessJob` finalizes a job that both have:
  -- over PostgreSQL `SaveResponse` and `UpdateJob` return without an error, the row of the response
  -- is there afterwards, and the query of `GetArchive` answers. Then the service answers a request
  -- for the archive over PostgreSQL as it does over the in-memory storage, whatever the worker's
  -- response, and the cache is left in the same state.
  pub get_archive-agrees :
      {C : Type 0} (cacher : Cacher C) (id : String) (err : Option Err) (response : GenResponse)
      (old : JobStatus) (d d' d'' d''' : D) (row : String × Bytes × String) (m : MemoryStorage)
      (entry : JobData) (c : C)
      → lookup id (db.committed d).jobs ≡ some old
      → lookup id m.jobs ≡ some entry
      → save_response pool (job_of id err) response err d ≡ (ok tt, d')
      → lookup id (db.committed d').archives ≢ none
      → update_job pool (job_of id err) d' ≡ (ok tt, d'')
      → pool.select_archive id d'' ≡ (ok row, d''')
      → let pg = storage_beside (postgres_generator_storage pool unmarshal) in
        let mem = storage_beside memory_generator_storage in
        let ca = cacher_beside cacher in
        let s = (finalize pg ca id err response (d, c)).1 in
        let s' = (finalize mem (cacher_beside cacher) id err response (m, c)).1 in
        ((get_archive pg ca id s).0 ≡ (get_archive mem (cacher_beside cacher) id s').0)
        × (s.1 ≡ s'.1)
  get_archive-agrees cacher id err response old d d' d'' d''' row m entry c known stored hs kept hu
        hq =
      let ended = finalize-postgres pool unmarshal cacher id response err d d' d'' c hs hu in
      let told = (cacher.set_job_status id (status_text (final_status err)) c).1 in
      let same = row_found id response err old d d' d'' d''' row known hs kept hu hq in
      let memory = (results_of_finalize cacher id err response m c entry stored).0 in
      (
        ap
              (λ s.
                (get_archive (storage pool unmarshal cacher id response) (cacher_beside cacher) id
                  s).0)
              ended
            ∙ get_archive-postgres pool unmarshal cacher id response row d'' d''' told hq
            ∙ ap archive_of same
            ∙ archive_of-finished err response entry
            ∙ sym (ap (λ p. p.0) memory),
        ap (λ s. s.1) ended ∙ sym (finalize_stored cacher id err response m c entry id stored).2,
      )
