-- ===== src/Service/Grpc/Status.antt =====
-- `CheckJobStatus`: the cache before the storage, and the filling of the cache.
use agreements_generator_api.Prelude.{◌≡◌, String, arith, inl, inr}
use agreements_generator_api.Effect.{ok, fail, Result-cases}
use agreements_generator_api.Domain.Errors.{Err}
use agreements_generator_api.Domain.Generator.{JobStatus, status_text, job_status_from_string}
use agreements_generator_api.Domain.StatusText.{job_status_from_string-status_text}
use agreements_generator_api.Storage.{GeneratorStorage}
use agreements_generator_api.Cache.{Cacher, IsCache}
use agreements_generator_api.Service.Grpc.{check_job_status}

module _ {S : Type 0} (storage : GeneratorStorage S) (cacher : Cacher S) where
  -- A hit: the storage is not asked, and nothing is written.
  check_job_status_hit :
      (id text : String) (s : S) (st : JobStatus)
      → (cacher.get_job_status id s).0 ≡ ok text
      → (check_job_status storage cacher id s).0 ≡ ok st
      → (job_status_from_string text ≡ ok st)
        × ((check_job_status storage cacher id s).1 ≡ (cacher.get_job_status id s).1)
  unfolding check_job_status
  check_job_status_hit id text s st hit h = ground arith

  -- A miss: the status is written to the cache last.
  check_job_status_miss :
      (id : String) (s : S) (e : Err) (st : JobStatus)
      → (cacher.get_job_status id s).0 ≡ fail e
      → (check_job_status storage cacher id s).0 ≡ ok st
      → (t : S) × ((check_job_status storage cacher id s).1
          ≡ (cacher.set_job_status id (status_text st) t).1)
  unfolding check_job_status
  check_job_status_miss id s e st miss h =
      ((storage.check_job_status id (cacher.get_job_status id s).1).1, ground arith)

  pub check_job_status_of_get :
      (id text : String) (s : S) (st : JobStatus)
      → cacher.get_job_status id s ≡ (ok text, s)
      → job_status_from_string text ≡ ok st
      → check_job_status storage cacher id s ≡ (ok st, s)
  unfolding check_job_status
  check_job_status_of_get id text s st got e = ground arith

-- A status that was answered is answered again, from the cache alone: the second call does not
-- change the state and would give the same over any other storage. The cache has to take the
-- first call's write.
pub check_job_status_again :
    {S : Type 0} (storage other : GeneratorStorage S) (cacher : Cacher S) (id : String) (s : S)
    (st : JobStatus)
    → IsCache cacher
    → ((text : String) (t : S) → (cacher.set_job_status id text t).0 ≡ ok tt)
    → (check_job_status storage cacher id s).0 ≡ ok st
    → check_job_status other cacher id (check_job_status storage cacher id s).1
      ≡ (ok st, (check_job_status storage cacher id s).1)
check_job_status_again storage other cacher id s st cache takes h =
    elim (Result-cases (cacher.get_job_status id s).0) [
      | inl (text, hit) ↦
          let (read, same) = check_job_status_hit storage cacher id text s st hit h in
          rw same
            (check_job_status_of_get other cacher id text _ st (cache.get-get id text s hit) read)
      | inr (e, miss) ↦
          let (t, same) = check_job_status_miss storage cacher id s e st miss h in
          rw same (
            check_job_status_of_get other cacher id (status_text st) _ st
              (cache.get-set id (status_text st) t (takes (status_text st) t))
              (job_status_from_string-status_text st))
    ]
