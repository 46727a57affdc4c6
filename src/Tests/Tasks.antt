-- ===== src/Tests/Tasks.antt =====
-- Tasks, the program's steps and the worker's answers at concrete inputs.
use agreements_generator_api.Prelude.{
  ◌≡◌, refl, ap, String, ◌==◌, if◌then◌else◌, [], ◌∷◌, none, some, true, arith,
}
use agreements_generator_api.Prelude.Dict.{Dict, lookup, insert}
use agreements_generator_api.Effect.{ok}
use agreements_generator_api.Domain.Generator.{processing, status_text}
use agreements_generator_api.Storage.{GeneratorStorage, storage_beside}
use agreements_generator_api.Storage.Memory.{
  memory_generator_storage, new_memory_storage, store_job,
}
use agreements_generator_api.Storage.Memory.Jobs.{created}
use agreements_generator_api.Cache.{Cacher, IsCache, cacher_beside}
use agreements_generator_api.GenClient.{GenerateResponse, convert}
use agreements_generator_api.GenClient.Bounds.{SameInteger, SameFiles, convert_bounds}
use agreements_generator_api.Service.Grpc.{finalize, status_of, check_job_status}
use agreements_generator_api.Service.Grpc.Process.{finished}
use agreements_generator_api.Service.Grpc.Stale.{status_of-stale}
use agreements_generator_api.Service.Grpc.Tasks.{absent, storing, advance}
use agreements_generator_api.Service.Grpc.System.{
  System, initial, moved, Reach, here, next, submit, call, wait,
}
use agreements_generator_api.Service.Grpc.System.Reachable.{IsAccounted, Reach-IsAccounted}
use agreements_generator_api.Tests.Fixtures.{
  Env, answer, dict_cacher, dict_get-set, one_job, waiting, zip,
}

-- Some time passes, the job j1 is submitted, and its task makes the first call.
abbrev begun : System (Dict String)
begun = initial 300 5 []

abbrev waited : System (Dict String)
waited = record begun { memory = record begun.memory { now = 8 } }

abbrev submitted : System (Dict String)
submitted = record waited { tasks = λ j. if "j1" == j then storing else absent }

abbrev stored : System (Dict String)
stored = moved dict_cacher "j1" 7 (ok answer) submitted

runs : Reach dict_cacher begun stored
unfolding new_memory_storage
runs = next (next (next here (wait 3)) (submit "j1" refl)) (call "j1" 7 (ok answer))

stored_j1 :
    lookup "j1" stored.memory.jobs ≡ some (created (record { id = "j1"; status = processing }) 8)
unfolding advance store_job lookup insert new_memory_storage
stored_j1 = refl

Reach-IsAccounted_example :
    IsAccounted (stored.tasks "j1") (created (record { id = "j1"; status = processing }) 8)
Reach-IsAccounted_example =
    Reach-IsAccounted dict_cacher 300 5 [] stored "j1"
      (created (record { id = "j1"; status = processing }) 8) runs stored_j1

dict-IsCache : IsCache dict_cacher
dict-IsCache = record {
  get-set = λ id text d h. ap (λ r. (r, insert id text d)) (dict_get-set id text d);
  get-get = λ id text d h. ap (λ r. (r, d)) h;
}

abbrev mem : GeneratorStorage Env
mem = storage_beside memory_generator_storage

abbrev cache : Cacher Env
cache = cacher_beside dict_cacher

found : lookup "j1" one_job.jobs ≡ some waiting
unfolding lookup
found = refl

status_of-stale_example :
    let done = (finalize mem cache "j1" none zip (one_job, [])).1 in
    let later = (status_of mem cache true "j1" (status_text processing) done).1 in
    (mem.check_job_status "j1" (one_job, []) ≡ (ok (status_text processing), (one_job, [])))
    × (lookup "j1" later.0.jobs ≡ some (finished none zip waiting))
    × (check_job_status mem cache "j1" later ≡ (ok processing, later))
status_of-stale_example =
    status_of-stale dict_cacher "j1" zip one_job [] waiting dict-IsCache (λ text d. refl) found refl

-- 4294967293 is the pattern of -3.
abbrev message : GenerateResponse
message = record {
  zip_archive = some [];
  errors =
      record {
        file_name = "a.docx";
        errors = record { code = 4294967293; message = "no such field" } ∷ [];
      }
      ∷ [];
  generated_count = 2;
}

convert_bounds_example :
    ((convert message).archive ≡ message.zip_archive)
    × SameInteger message.generated_count (convert message).gen_count
    × SameFiles message.errors (convert message).errors
convert_bounds_example = convert_bounds message (omega arith, ((omega arith, tt), tt))
