-- ===== src/Storage/Memory.antt =====
-- internal/storage/storage_in_memory/storage.go. A method runs under the storage's lock, so it is
-- one step of the state. `time.Now()` reads the field `now`; the lifetime of a job is a field, too.
pub mod Jobs
pub mod Users
use agreements_generator_api.Prelude.{
  ℕ, ◌+◌, ◌%◌, ◌^◌, String, List, [], Option, none, some, Bool, ltb,
}
use agreements_generator_api.Prelude.Dict.{Dict, lookup, insert, delete_if}
use agreements_generator_api.Effect.{Result, ok, fail, Proc}
use agreements_generator_api.Domain.Errors.{Err, app, wrapf, error_text, conflict, not_found}
use agreements_generator_api.Domain.Generator.{
  Bytes, JobStatus, Job, User, FilesErrors, GenResponse, completed, failed, status_text,
}
use agreements_generator_api.Storage.{ArchiveInfo, GeneratorStorage, UserStorage}

pub record JobData : Type 0 where
  pub status : JobStatus
  pub archive : Bytes
  pub errors : List FilesErrors
  pub gen_count : ℕ
  pub created_at : ℕ
  pub fatal_error : Option Err

pub record UserData : Type 0 where
  pub id : ℕ
  pub name : String
  pub login : String
  pub password_hash : Bytes
  pub created_at : ℕ

pub record MemoryStorage : Type 0 where
  pub jobs : Dict JobData
  pub users : Dict UserData
  pub user_id_increment : ℕ
  pub job_ttl : ℕ
  pub now : ℕ

-- `NewMemoryStorage`, at the time `now`
unfoldable pub new_memory_storage : ℕ → ℕ → MemoryStorage
new_memory_storage job_ttl now = record {
  jobs = [];
  users = [];
  user_id_increment = 0;
  job_ttl = job_ttl;
  now = now;
}

abbrev pub job_not_found : Err
job_not_found = wrapf "job not found" (app not_found)

-- `time.Since(job.CreatedAt) > JobTTL`
unfoldable pub is_expired : MemoryStorage → JobData → Bool
is_expired s job = ltb (job.created_at + s.job_ttl) s.now

-- `cleanup`, one round of `cleanupLoop`
unfoldable pub cleanup : MemoryStorage → MemoryStorage
cleanup s = record s { jobs = delete_if (is_expired s) s.jobs }

-- The method bodies after the lookup of the job; nil fields of a new `JobData` are zero values.
unfoldable pub store_job : Job → ℕ → Proc MemoryStorage (Unit {0})
store_job job user_id s = elim (lookup job.id s.jobs) [
  | some old ↦ (fail (wrapf "job already exists" (app conflict)), s)
  | none ↦ (
    ok tt,
    record s {
      jobs =
          insert job.id
            (record {
              status = job.status;
              archive = none;
              errors = [];
              gen_count = 0;
              created_at = s.now;
              fatal_error = none;
            })
            s.jobs;
    },
  )
]

unfoldable pub update_job : Job → Proc MemoryStorage (Unit {0})
update_job job s = elim (lookup job.id s.jobs) [
  | none ↦ (fail job_not_found, s)
  | some old ↦
      (ok tt, record s { jobs = insert job.id (record old { status = job.status }) s.jobs })
]

unfoldable pub check_job_status : String → Proc MemoryStorage String
check_job_status id s = elim (lookup id s.jobs) [
  | none ↦ (fail job_not_found, s)
  | some job ↦ (ok (status_text job.status), s)
]

-- The source also assigns `job.Status`, which is a copy that nothing reads afterwards.
unfoldable pub save_response : Job → GenResponse → Option Err → Proc MemoryStorage (Unit {0})
save_response job response err s = elim (lookup job.id s.jobs) [
  | none ↦ (fail job_not_found, s)
  | some old ↦ (
    ok tt,
    record s {
      jobs =
          insert job.id
            (record old {
              fatal_error = err;
              archive = response.archive;
              errors = response.errors;
              gen_count = response.gen_count;
            })
            s.jobs;
    },
  )
]

-- `fatalErrString`
unfoldable pub fatal_text : Option Err → String
fatal_text none = ""
fatal_text (some e) = error_text e

unfoldable pub get_archive : String → Proc MemoryStorage (String × Bytes × String)
get_archive job_id s = elim (lookup job_id s.jobs) [
  | none ↦ (fail job_not_found, s)
  | some job ↦ (ok (status_text job.status, job.archive, fatal_text job.fatal_error), s)
]

unfoldable pub get_archive_info : String → Proc MemoryStorage ArchiveInfo
get_archive_info job_id s = elim (lookup job_id s.jobs) [
  | none ↦ (fail job_not_found, s)
  | some job ↦ (
    ok (record {
      status = status_text job.status;
      errors = job.errors;
      count = job.gen_count;
      fatal_gen_err = fatal_text job.fatal_error;
    }),
    s,
  )
]

-- A new id is the old value of a 64-bit counter. The source leaves `Login` empty in the entry.
unfoldable pub register : User → Proc MemoryStorage ℕ
register user s = elim (lookup user.login s.users) [
  | some old ↦ (fail (wrapf "user already exists" (app conflict)), s)
  | none ↦ (
    ok s.user_id_increment,
    record s {
      user_id_increment = (s.user_id_increment + 1) % 2 ^ 64;
      users =
          insert user.login
            (record {
              id = s.user_id_increment;
              name = user.name;
              login = "";
              password_hash = user.password;
              created_at = s.now;
            })
            s.users;
    },
  )
]

unfoldable pub log_in : String → Proc MemoryStorage (ℕ × Bytes)
log_in login s = elim (lookup login s.users) [
  | none ↦ (fail (wrapf "user not found" (app not_found)), s)
  | some user ↦ (ok (user.id, user.password_hash), s)
]

abbrev pub memory_generator_storage : GeneratorStorage MemoryStorage
memory_generator_storage = record {
  get_archive = get_archive;
  get_archive_info = get_archive_info;
  save_response = save_response;
  store_job = store_job;
  update_job = update_job;
  check_job_status = check_job_status;
}

abbrev pub memory_user_storage : UserStorage MemoryStorage
memory_user_storage = record { register = register; log_in = log_in }
