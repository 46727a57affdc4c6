-- ===== src/Storage.antt =====
-- internal/storage/storage.go and postgres/views: the interfaces that the services use, over the
-- state `S` of whatever implements them. A method gets no `ctx`: no implementation under
-- internal/storage reads it but to hand it to the database driver.
pub mod Memory
pub mod Postgres
pub mod Choice
use agreements_generator_api.Prelude.{ℕ, String, List, Option}
use agreements_generator_api.Effect.{Proc, on_first}
use agreements_generator_api.Domain.Errors.{Err}
use agreements_generator_api.Domain.Generator.{Bytes, Job, User, FilesErrors, GenResponse}

-- `views.ArchiveInfo`
pub record ArchiveInfo : Type 0 where
  pub status : String
  pub errors : List FilesErrors
  pub count : ℕ
  pub fatal_gen_err : String

-- `SaveResponse` takes a pointer: its callers never pass nil.
pub record GeneratorStorage (S : Type 0) : Type 0 where
  pub get_archive : String → Proc S (String × Bytes × String)
  pub get_archive_info : String → Proc S ArchiveInfo
  pub save_response : Job → GenResponse → Option Err → Proc S (Unit {0})
  pub store_job : Job → ℕ → Proc S (Unit {0})
  pub update_job : Job → Proc S (Unit {0})
  pub check_job_status : String → Proc S String

-- `LogIn` returns the user's id and the stored hash.
pub record UserStorage (S : Type 0) : Type 0 where
  pub register : User → Proc S ℕ
  pub log_in : String → Proc S (ℕ × Bytes)

-- `InputArchiveStorer`
pub record InputArchiveStorer (S : Type 0) : Type 0 where
  pub save_raw_archive : String → Bytes → Proc S (Unit {0})

-- A storage whose state stands beside another component's.
abbrev pub storage_beside : {S T : Type 0} → GeneratorStorage S → GeneratorStorage (S × T)
storage_beside st = record {
  get_archive = λ id. on_first (st.get_archive id);
  get_archive_info = λ id. on_first (st.get_archive_info id);
  save_response = λ job response err. on_first (st.save_response job response err);
  store_job = λ job user_id. on_first (st.store_job job user_id);
  update_job = λ job. on_first (st.update_job job);
  check_job_status = λ id. on_first (st.check_job_status id);
}

abbrev pub users_beside : {S T : Type 0} → UserStorage S → UserStorage (S × T)
users_beside st = record {
  register = λ user. on_first (st.register user);
  log_in = λ login. on_first (st.log_in login);
}
