-- ===== src/Service/Grpc/Stale.antt =====
-- `CheckJobStatus` beside `ProcessJob`: the cache is filled with what was read before the job ended.
use agreements_generator_api.Prelude.{◌≡◌, refl, ap, String, eq_refl, none, some, true}
use agreements_generator_api.Prelude.Dict.{lookup}
use agreements_generator_api.Effect.{ok}
use agreements_generator_api.Domain.Generator.{GenResponse, processing, status_text}
use agreements_generator_api.Domain.StatusText.{job_status_from_string-status_text}
use agreements_generator_api.Storage.{GeneratorStorage, storage_beside}
use agreements_generator_api.Storage.Memory as Memory
use agreements_generator_api.Storage.Memory.{JobData, MemoryStorage, memory_generator_storage}
use agreements_generator_api.Cache.{Cacher, IsCache, cacher_beside}
use agreements_generator_api.Service.Grpc.{finalize, status_of, check_job_status}
use agreements_generator_api.Service.Grpc.Process.{finished, finalize_stored}
use agreements_generator_api.Service.Grpc.Status.{check_job_status_of_get}

module _ {C : Type 0} (cacher : Cacher C) (id : String) where
  abbrev storage : GeneratorStorage (MemoryStorage × C)
  storage = storage_beside memory_generator_storage

  abbrev cache : Cacher (MemoryStorage × C)
  cache = cacher_beside cacher

  -- The cache is filled with a status that was read.
  filled :
      (m : MemoryStorage) (c : C)
      → status_of storage cache true id (status_text processing) (m, c)
        ≡ (ok processing, (m, (cacher.set_job_status id (status_text processing) c).1))
  unfolding status_of
  filled m c = rw (job_status_from_string-status_text processing) refl

  told :
      (m : MemoryStorage) (c : C)
      → IsCache cacher
      → ((text : String) (t : C) → (cacher.set_job_status id text t).0 ≡ ok tt)
      → let later : MemoryStorage × C =
          (m, (cacher.set_job_status id (status_text processing) c).1) in
        check_job_status storage cache id later ≡ (ok processing, later)
  told m c cached takes =
      let c' = (cacher.set_job_status id (status_text processing) c).1 in
      check_job_status_of_get storage cache id (status_text processing) (m, c') processing
        (ap (λ p. (p.0, (m, p.1)))
          (cached.get-set id (status_text processing) c (takes (status_text processing) c)))
        (job_status_from_string-status_text processing)

  read :
      (m : MemoryStorage) (c : C) (d : JobData)
      → lookup id m.jobs ≡ some d
      → d.status ≡ processing
      → storage.check_job_status id (m, c) ≡ (ok (status_text processing), (m, c))
  unfolding Memory.check_job_status
  read m c d e p = rw (e, Memory.check_job_status, p) refl

  -- A request that misses the cache and reads a job as processing, just before the job is
  -- completed, puts processing into the cache afterwards: from then on the storage has the job as
  -- completed, and `CheckJobStatus` answers that it is processing, without asking the storage. The
  -- cache takes what it is told.
  pub status_of-stale :
      (response : GenResponse) (m : MemoryStorage) (c : C) (d : JobData)
      → IsCache cacher
      → ((text : String) (t : C) → (cacher.set_job_status id text t).0 ≡ ok tt)
      → lookup id m.jobs ≡ some d
      → d.status ≡ processing
      → let ended = (finalize storage cache id none response (m, c)).1 in
        let later = (status_of storage cache true id (status_text processing) ended).1 in
        (storage.check_job_status id (m, c) ≡ (ok (status_text processing), (m, c)))
        × (lookup id later.0.jobs ≡ some (finished none response d))
        × (check_job_status storage cache id later ≡ (ok processing, later))
  status_of-stale response m c d cached takes e p =
      let ended = (finalize storage cache id none response (m, c)).1 in
      let stored = (finalize_stored cacher id none response m c d id e).1 in
      (
        read m c d e p,
        rw (filled ended.0 ended.1) (rw (eq_refl id) at stored),
        rw (filled ended.0 ended.1) (told ended.0 ended.1 cached takes),
      )
