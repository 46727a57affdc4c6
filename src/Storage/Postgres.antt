-- ===== src/Storage/Postgres.antt =====
-- internal/storage/postgres/postgres.go, over any driver. A statement of the source is a value of
-- `Statement` with its arguments, a query is a field of `Pool`: both are what pgx is handed, the
-- rows are what `Scan` gives back. Log messages are left out.
pub mod Errors
pub mod Database
pub mod Save
pub mod Methods
pub mod Effects
pub mod Durable
use agreements_generator_api.Prelude.{
  ℕ, Bool, true, false, String, ◌==◌, List, [], Option, none, some, if◌then◌else◌,
}
use agreements_generator_api.Effect.{
  Result, ok, fail, Proc, pure, raise, lift, on_error, ignore, handle, ◌>>=◌, ◌>>◌,
}
use agreements_generator_api.Domain.Errors.{
  Err, app, app_over, errorf, no_rows, pg_error, foreign, wrapf, wrapv, error_text, internal,
  bad_request, not_found, conflict,
}
use agreements_generator_api.Domain.Generator.{
  Bytes, JobStatus, Job, User, FilesErrors, GenResponse,
}
use agreements_generator_api.Storage.{
  ArchiveInfo, GeneratorStorage, UserStorage, InputArchiveStorer,
}

-- `errors.Is(err, pgx.ErrNoRows)`
unfoldable pub is_no_rows : Err → Bool
is_no_rows (app a) = false
is_no_rows (app_over a e) = is_no_rows e
is_no_rows (errorf text e) = is_no_rows e
is_no_rows no_rows = true
is_no_rows (pg_error code text) = false
is_no_rows (foreign text) = false

-- `errors.AsType[*pgconn.PgError]`: the code of the first in the chain.
unfoldable pub as_pg_code : Err → Option String
as_pg_code (app a) = none
as_pg_code (app_over a e) = as_pg_code e
as_pg_code (errorf text e) = as_pg_code e
as_pg_code no_rows = none
as_pg_code (pg_error code text) = some code
as_pg_code (foreign text) = none

-- `newDomainErrFromPgx` from `errors.AsType` on.
unfoldable pub of_pg_code : Err → Option String → Err
of_pg_code e none = wrapv "unknown error from postgres" e (app internal)
of_pg_code e (some code) =
    if code == "23505"
    then wrapv "duplicate key value violates unique constraint" e (app conflict)
    else if code == "23502"
    then wrapv "null value in column violates not-null constraint" e (app bad_request)
    else wrapv "unknown error from postgres" e (app bad_request)

unfoldable pub new_domain_err : Err → Err
unfolding is_no_rows as_pg_code of_pg_code
new_domain_err e =
    if is_no_rows e
    then wrapv "resource not found in storage" e (app not_found)
    else of_pg_code e (as_pg_code e)

-- The statements of `SaveResponse`, `StoreJob`, `UpdateJob`, `SaveRawArchive` and `cleanUpLoop`.
pub data Statement : Type 0 where
  insert_archive : String → Bytes → ℕ → List FilesErrors → String → Statement
  insert_job : String → JobStatus → ℕ → Statement
  update_status : JobStatus → ℕ → String → Statement
  insert_input_archive : String → Bytes → Statement
  delete_old_jobs : ℕ → Statement

-- A *pgxpool.Pool with its state `D`, its transactions `Tx`, and the clock. `Exec` returns the
-- number of rows; the queries are those of `GetArchive`, `GetArchiveInfo`, `CheckJobStatus`,
-- `Register` and `LogIn`.
pub record Pool (D Tx : Type 0) : Type 0 where
  pub begin : Proc D Tx
  pub tx_exec : Tx → Statement → Proc D ℕ
  pub commit : Tx → Proc D (Unit {0})
  pub rollback : Tx → Proc D (Unit {0})
  pub exec : Statement → Proc D ℕ
  pub select_archive : String → Proc D (String × Bytes × String)
  pub select_info : String → Proc D (String × Bytes × ℕ × String)
  pub select_status : String → Proc D String
  pub insert_user : User → Proc D ℕ
  pub select_user : String → Proc D (ℕ × Bytes)
  pub time_now : D → ℕ

-- `fatalGenErrString`
unfoldable pub fatal_gen_err_string : Option Err → String
fatal_gen_err_string none = ""
fatal_gen_err_string (some e) = error_text e

-- The errors of an `ArchiveInfo`: no bytes, no errors.
unfoldable pub decoded : (Bytes → Result (List FilesErrors)) → Bytes → Result (List FilesErrors)
decoded unmarshal none = ok []
decoded unmarshal (some bytes) = elim (unmarshal (some bytes)) [
  | ok errors ↦ ok errors
  | fail e ↦ fail (wrapv "can't marshal bytes into errors" e (app internal))
]

module _ {D Tx : Type 0} (pool : Pool D Tx) where
  unfoldable pub get_archive : String → Proc D (String × Bytes × String)
  get_archive job_id = on_error new_domain_err (pool.select_archive job_id)

  unfoldable pub get_archive_info :
      (Bytes → Result (List FilesErrors)) → String → Proc D ArchiveInfo
  get_archive_info unmarshal job_id = do
    row ← on_error new_domain_err (pool.select_info job_id)
    errors ← lift (decoded unmarshal row.1)
    pure (record { status = row.0; errors = errors; count = row.2; fatal_gen_err = row.3 })

  -- The deferred function: the transaction is rolled back, the error goes to the log only.
  abbrev pub with_rollback : {A : Type 0} → Tx → Proc D A → Proc D A
  with_rollback tx m d = let (r, d') = m d in (r, (pool.rollback tx d').1)

  -- `SaveResponse` after the transaction has begun; the error of `Commit` goes to the log only.
  unfoldable pub save_in : Tx → Job → GenResponse → Option Err → Proc D (Unit {0})
  unfolding fatal_gen_err_string
  save_in tx job response err = do
    n ← on_error new_domain_err (
        pool.tx_exec tx (
          insert_archive job.id response.archive response.gen_count response.errors
            (fatal_gen_err_string err)))
    ignore (pool.commit tx)

  unfoldable pub save_response : Job → GenResponse → Option Err → Proc D (Unit {0})
  unfolding save_in
  save_response job response err = do
    tx ← on_error (λ e. new_domain_err (wrapf "can't begin transaction" e)) pool.begin
    with_rollback tx (save_in tx job response err)

  unfoldable pub store_job : Job → ℕ → Proc D (Unit {0})
  store_job job user_id = do
    n ← on_error new_domain_err (pool.exec (insert_job job.id job.status user_id))
    pure tt

  unfoldable pub update_job : Job → Proc D (Unit {0})
  update_job job d =
      (do
        n ← on_error new_domain_err (pool.exec (update_status job.status (pool.time_now d) job.id))
        pure tt)
        d

  unfoldable pub check_job_status : String → Proc D String
  check_job_status id = on_error new_domain_err (pool.select_status id)

  unfoldable pub register : User → Proc D ℕ
  register user = on_error new_domain_err (pool.insert_user user)

  unfoldable pub log_in : String → Proc D (ℕ × Bytes)
  log_in login = on_error new_domain_err (pool.select_user login)

  unfoldable pub save_raw_archive : String → Bytes → Proc D (Unit {0})
  save_raw_archive job_id archive = do
    n ← on_error new_domain_err (pool.exec (insert_input_archive job_id archive))
    pure tt

  -- One round of `cleanUpLoop`: an error goes to the log, and the round ends there.
  unfoldable pub clean_up : ℕ → Proc D (Unit {0})
  clean_up job_ttl =
      handle pool.begin
        (λ tx.
          handle (pool.tx_exec tx (delete_old_jobs job_ttl)) (λ n. ignore (pool.commit tx))
            (λ e. pure tt))
        (λ e. pure tt)

  abbrev pub postgres_generator_storage : (Bytes → Result (List FilesErrors)) → GeneratorStorage D
  postgres_generator_storage unmarshal = record {
    get_archive = get_archive;
    get_archive_info = get_archive_info unmarshal;
    save_response = save_response;
    store_job = store_job;
    update_job = update_job;
    check_job_status = check_job_status;
  }

  abbrev pub postgres_user_storage : UserStorage D
  postgres_user_storage = record { register = register; log_in = log_in }

  abbrev pub postgres_input_storer : InputArchiveStorer D
  postgres_input_storer = record { save_raw_archive = save_raw_archive }
