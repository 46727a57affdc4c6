-- ===== src/Storage/Postgres/Database.antt =====
-- What `SaveResponse`, `GetArchive` and `cleanUpLoop` rely on in pgx and in PostgreSQL, with the
-- schema of internal/storage/postgres/migrations: the rows that are committed, the connections
-- that transactions hold, and when a statement takes effect.
use agreements_generator_api.Prelude.{
  ℕ, ◌+◌, ◌≡◌, Bool, true, false, String, List, Option, none, some,
}
use agreements_generator_api.Prelude.Dict.{Dict, lookup, insert}
use agreements_generator_api.Effect.{Result, ok, fail}
use agreements_generator_api.Domain.Errors.{Err}
use agreements_generator_api.Domain.Generator.{Bytes, FilesErrors, status_text, JobStatus}
use agreements_generator_api.Storage.Postgres.{Pool, Statement, insert_archive}

-- A row of the table `archives`; `job_id` is the key of the dictionary.
pub record ArchiveRow : Type 0 where
  pub archive : Bytes
  pub gen_count : ℕ
  pub gen_errors : List FilesErrors
  pub fatal_gen_error : String

-- The tables `jobs`, of which a row has its status here, and `archives`.
pub record Tables : Type 0 where
  pub jobs : Dict JobStatus
  pub archives : Dict ArchiveRow

-- The insertion of `SaveResponse`, once the server has accepted it: `job_id` is UNIQUE.
abbrev pub with_archive : String → ArchiveRow → Tables → Tables
with_archive id row tables = record tables { archives = insert id row tables.archives }

-- The row of the query in `GetArchive`: an inner join of the two tables.
abbrev joined : Option ArchiveRow → Option JobStatus → Option (String × Bytes × String)
joined (some row) (some status) = some (status_text status, row.archive, row.fatal_gen_error)
joined _ _ = none

abbrev pub archive_row : String → Tables → Option (String × Bytes × String)
archive_row id tables = joined (lookup id tables.archives) (lookup id tables.jobs)

-- `committed` are the rows that other connections see, `held` counts the connections that are out
-- of the pool, `is_live` tells that a transaction has neither been committed nor rolled back.
pub record IsDatabase {D Tx : Type 0} (pool : Pool D Tx) : Type 0 where
  pub committed : D → Tables
  pub held : D → ℕ
  pub is_live : Tx → D → Bool
  pub begin-ok :
      (d d' : D) (tx : Tx)
      → pool.begin d ≡ (ok tx, d')
      → (committed d' ≡ committed d) × (held d' ≡ held d + 1) × (is_live tx d' ≡ true)
  pub begin-fail :
      (d d' : D) (e : Err)
      → pool.begin d ≡ (fail e, d')
      → (committed d' ≡ committed d) × (held d' ≡ held d)
  pub tx_exec-keeps :
      (tx : Tx) (st : Statement) (d d' : D) (r : Result ℕ)
      → pool.tx_exec tx st d ≡ (r, d')
      → (committed d' ≡ committed d) × (held d' ≡ held d) × (is_live tx d' ≡ is_live tx d)
  pub commit-closes :
      (tx : Tx) (d : D)
      → is_live tx d ≡ true
      → let d' = (pool.commit tx d).1 in (held d ≡ held d' + 1) × (is_live tx d' ≡ false)
  pub commit-fail :
      (tx : Tx) (d d' : D) (e : Err) → pool.commit tx d ≡ (fail e, d') → committed d' ≡ committed d
  -- A transaction of one insertion.
  pub commit-ok :
      (tx : Tx) (id fatal : String) (archive : Bytes) (count : ℕ) (errors : List FilesErrors)
      (n : ℕ) (d d' d'' d''' : D)
      → pool.begin d ≡ (ok tx, d')
      → pool.tx_exec tx (insert_archive id archive count errors fatal) d' ≡ (ok n, d'')
      → pool.commit tx d'' ≡ (ok tt, d''')
      → committed d'''
        ≡ with_archive id
            (record {
              archive = archive;
              gen_count = count;
              gen_errors = errors;
              fatal_gen_error = fatal;
            })
            (committed d)
  pub rollback-keeps : (tx : Tx) (d : D) → committed (pool.rollback tx d).1 ≡ committed d
  pub rollback-live :
      (tx : Tx) (d : D) → is_live tx d ≡ true → held d ≡ held (pool.rollback tx d).1 + 1
  pub rollback-closed :
      (tx : Tx) (d : D) → is_live tx d ≡ false → held (pool.rollback tx d).1 ≡ held d
  -- A query that answers does so from the rows that are committed, and changes none.
  pub select_archive-ok :
      (id : String) (d d' : D) (row : String × Bytes × String)
      → pool.select_archive id d ≡ (ok row, d')
      → archive_row id (committed d) ≡ some row
