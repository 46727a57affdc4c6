-- ===== src/Storage/Postgres/Effects.antt =====
-- What each method of the Postgres storage does to the tables, as its result tells.
use agreements_generator_api.Prelude.{
  ℕ, ◌≡◌, refl, ◌⊎◌, inl, inr, String, ◌==◌, List, Option, none, some, if◌then◌else◌, arith,
}
use agreements_generator_api.Prelude.Dict.{lookup, insert}
use agreements_generator_api.Effect.{
  Result, ok, fail, Proc, on_error, pure, ◌>>◌, Call-cases, Result-cases,
}
use agreements_generator_api.Domain.Errors.{Err}
use agreements_generator_api.Domain.Generator.{
  Bytes, JobStatus, Job, User, FilesErrors, GenResponse,
}
use agreements_generator_api.Storage.Postgres.{
  new_domain_err, Pool, Statement, insert_archive, insert_job, update_status, insert_input_archive,
  delete_old_jobs, fatal_gen_err_string, decoded, get_archive, get_archive_info, save_response,
  store_job, update_job, check_job_status, register, log_in, save_raw_archive,
}
use agreements_generator_api.Storage.Postgres.Database.{IsDatabase, Tables, with_archive}
use agreements_generator_api.Storage.Postgres.Methods.{
  Method, find_archive, info, check, user, save, store, update, add_user, raw_archive, perform,
}
use agreements_generator_api.Storage.Postgres.Save.{
  row_of, insertion, save_response-IsSaved, no_transaction, refused,
}

-- The rows after the INSERT of `StoreJob`.
abbrev pub with_job : String → JobStatus → Tables → Tables
with_job id status tables = record tables { jobs = insert id status tables.jobs }

abbrev pub set_to : JobStatus → Option JobStatus → Option JobStatus
set_to status none = none
set_to status (some old) = some status

-- The rows before and after the UPDATE of `UpdateJob`: the one with the id gets the status.
abbrev pub IsUpdated : String → JobStatus → Tables → Tables → Type 0
IsUpdated id status t t' =
    (t'.archives ≡ t.archives)
    × ((j : String)
        → lookup j t'.jobs ≡ (if id == j then set_to status (lookup j t.jobs) else lookup j t.jobs))

-- What a statement outside of a transaction does to the committed rows once the server has executed
-- it: `id` is the primary key of `jobs`, and the table of raw archives is not among `Tables`.
abbrev pub Executes : Statement → Tables → Tables → Type 0
Executes (insert_job id status user_id) t t' =
    (lookup id t.jobs ≡ none) × (t' ≡ with_job id status t)
Executes (update_status status time id) t t' = IsUpdated id status t t'
Executes (insert_input_archive id archive) t t' = t' ≡ t
Executes (insert_archive id archive count errors fatal) t t' = Unit
Executes (delete_old_jobs ttl) t t' = Unit

-- After an error, a statement may have been executed or not: the connection may be lost later.
abbrev pub MayExecute : Statement → Result ℕ → Tables → Tables → Type 0
MayExecute st (ok n) t t' = Executes st t t'
MayExecute st (fail e) t t' = (t' ≡ t) ⊎ Executes st t t'

-- The server takes each statement as SQL says, `archives.job_id` is UNIQUE, and a query leaves the
-- tables as they are.
pub record IsServer {D Tx : Type 0} (pool : Pool D Tx) (db : IsDatabase pool) : Type 0 where
  pub exec-MayExecute :
      (st : Statement) (d : D)
      → let (r, d') = pool.exec st d in MayExecute st r (db.committed d) (db.committed d')
  pub insert_archive-fresh :
      (tx : Tx) (id fatal : String) (archive : Bytes) (count : ℕ) (errors : List FilesErrors)
      (n : ℕ) (d d' d'' : D)
      → pool.begin d ≡ (ok tx, d')
      → pool.tx_exec tx (insert_archive id archive count errors fatal) d' ≡ (ok n, d'')
      → lookup id (db.committed d).archives ≡ none
  pub select_archive-keeps :
      (id : String) (d : D) → db.committed (pool.select_archive id d).1 ≡ db.committed d
  pub select_info-keeps :
      (id : String) (d : D) → db.committed (pool.select_info id d).1 ≡ db.committed d
  pub select_status-keeps :
      (id : String) (d : D) → db.committed (pool.select_status id d).1 ≡ db.committed d
  pub insert_user-keeps :
      (u : User) (d : D) → db.committed (pool.insert_user u d).1 ≡ db.committed d
  pub select_user-keeps :
      (login : String) (d : D) → db.committed (pool.select_user login d).1 ≡ db.committed d

-- What a method does to the tables of jobs and archives, if it takes effect.
abbrev pub Effect : Method → Tables → Tables → Type 0
Effect (store job user_id) t t' =
    (lookup job.id t.jobs ≡ none) × (t' ≡ with_job job.id job.status t)
Effect (update job) t t' = IsUpdated job.id job.status t t'
Effect (save job response err) t t' =
    (lookup job.id t.archives ≡ none)
    × ((t' ≡ t) ⊎ (t' ≡ with_archive job.id (row_of response err) t))
Effect _ t t' = t' ≡ t

-- What a method that returned `r` has done to them.
abbrev pub Does : Method → Result (Unit {0}) → Tables → Tables → Type 0
Does m (ok u) t t' = Effect m t t'
Does m (fail e) t t' = (t' ≡ t) ⊎ Effect m t t'

-- The methods that leave both tables.
abbrev IsQuery : Method → Type 0
IsQuery (store job user_id) = ⊥
IsQuery (update job) = ⊥
IsQuery (save job response err) = ⊥
IsQuery _ = Unit

same-Effect : (m : Method) (t t' : Tables) → IsQuery m → t' ≡ t → Effect m t t'
same-Effect (store job user_id) t t' q h = absurd q
same-Effect (update job) t t' q h = absurd q
same-Effect (save job response err) t t' q h = absurd q
same-Effect (find_archive id) t t' q h = h
same-Effect (info id) t t' q h = h
same-Effect (check id) t t' q h = h
same-Effect (user login) t t' q h = h
same-Effect (add_user x) t t' q h = h
same-Effect (raw_archive id archive) t t' q h = h

same-Does :
    (m : Method) (r : Result (Unit {0})) (t t' : Tables) → IsQuery m → t' ≡ t → Does m r t t'
same-Does m (ok u) t t' q h = same-Effect m t t' q h
same-Does m (fail e) t t' q h = inl h

saved-Does :
    (job : Job) (response : GenResponse) (err : Option Err) (r : Result (Unit {0})) (t t' : Tables)
    → (r ≡ ok tt → lookup job.id t.archives ≡ none)
    → ((t' ≡ t) ⊎ ((r ≡ ok tt) × (t' ≡ with_archive job.id (row_of response err) t)))
    → Does (save job response err) r t t'
saved-Does job response err (ok u) t t' missing (inl same) = (missing refl, inl same)
saved-Does job response err (ok u) t t' missing (inr (h, new)) = (missing refl, inr new)
saved-Does job response err (fail e) t t' missing (inl same) = inl same
saved-Does job response err (fail e) t t' missing (inr (h, new)) = absurd (ground (arith, h))

module _ {D Tx : Type 0} (pool : Pool D Tx) (db : IsDatabase pool) (server : IsServer pool db)
    (unmarshal : Bytes → Result (List FilesErrors)) where
  abbrev DoesOn : Method → D → Type 0
  DoesOn m d =
      let (r, d') = perform pool unmarshal m d in Does m r (db.committed d) (db.committed d')

  -- A statement or a query, its error turned, and nothing after it.
  stored : (job : Job) (user_id : ℕ) (d : D) → DoesOn (store job user_id) d
  unfolding store_job
  stored job user_id d =
      let done = server.exec-MayExecute (insert_job job.id job.status user_id) d in
      elim (Call-cases (pool.exec (insert_job job.id job.status user_id)) d) [
        | inl (n, d', e) ↦ rw e (rw e at done)
        | inr (x, d', e) ↦ rw e (rw e at done)
      ]

  updated : (job : Job) (d : D) → DoesOn (update job) d
  unfolding update_job
  updated job d =
      let st = update_status job.status (pool.time_now d) job.id in
      let done = server.exec-MayExecute st d in
      elim (Call-cases (pool.exec st) d) [
        | inl (n, d', e) ↦ rw e (rw e at done)
        | inr (x, d', e) ↦ rw e (rw e at done)
      ]

  -- An insertion into `archives` that is accepted finds no row of the job.
  fresh :
      (job : Job) (response : GenResponse) (err : Option Err) (d : D)
      → (save_response pool job response err d).0 ≡ ok tt
      → lookup job.id (db.committed d).archives ≡ none
  fresh job response err d h = elim (Call-cases pool.begin d) [
    | inr (e, d', hb) ↦
        absurd (ground (arith, rw (no_transaction pool job response err d d' e hb) at h))
    | inl (tx, d', hb) ↦ elim (Call-cases (pool.tx_exec tx (insertion job response err)) d') [
      | inr (e, d'', hx) ↦
          absurd (ground (arith, rw (refused pool job response err d d' d'' tx e hb hx) at h))
      | inl (n, d'', hx) ↦
          server.insert_archive-fresh tx job.id (fatal_gen_err_string err) response.archive
            response.gen_count response.errors n d d' d'' hb hx
    ]
  ]

  saves :
      (job : Job) (response : GenResponse) (err : Option Err) (d : D)
      → DoesOn (save job response err) d
  saves job response err d =
      saved-Does job response err (save_response pool job response err d).0 _ _
        (fresh job response err d) (save_response-IsSaved pool db job response err d).1

  -- A call whose error is turned, and nothing after it.
  asked-keeps :
      {A : Type 0} (query : Proc D A) (d : D)
      → db.committed (query d).1 ≡ db.committed d
      → db.committed ((on_error new_domain_err query >> pure tt) d).1 ≡ db.committed d
  asked-keeps query d keeps = elim (Call-cases query d) [
    | inl (a, d', e) ↦ rw e (rw e at keeps)
    | inr (x, d', e) ↦ rw e (rw e at keeps)
  ]

  info-keeps :
      (id : String) (d : D) → db.committed (perform pool unmarshal (info id) d).1 ≡ db.committed d
  unfolding get_archive_info
  info-keeps id d =
      let keeps = server.select_info-keeps id d in
      elim (Call-cases (pool.select_info id) d) [
        | inr (x, d', e) ↦ rw e (rw e at keeps)
        | inl (row, d', e) ↦ elim (Result-cases (decoded unmarshal row.1)) [
          | inl (errors, f) ↦ rw (e, f) (rw e at keeps)
          | inr (x, f) ↦ rw (e, f) (rw e at keeps)
        ]
      ]

  kept_raw : (id : String) (archive : Bytes) (d : D) → DoesOn (raw_archive id archive) d
  unfolding save_raw_archive
  kept_raw id archive d =
      let done = server.exec-MayExecute (insert_input_archive id archive) d in
      elim (Call-cases (pool.exec (insert_input_archive id archive)) d) [
        | inl (n, d', e) ↦ rw e (rw e at done)
        | inr (x, d', e) ↦ rw e (rw e at done)
      ]

  -- What each method does to the tables, as far as its result tells: without an error it has taken
  -- effect, after one it has or has not.
  pub perform-Does :
      (m : Method) (d : D)
      → let (r, d') = perform pool unmarshal m d in Does m r (db.committed d) (db.committed d')
  unfolding get_archive check_job_status register log_in
  perform-Does (find_archive id) d =
      same-Does (find_archive id) _ _ _ tt
        (asked-keeps (pool.select_archive id) d (server.select_archive-keeps id d))
  perform-Does (info id) d = same-Does (info id) _ _ _ tt (info-keeps id d)
  perform-Does (check id) d =
      same-Does (check id) _ _ _ tt
        (asked-keeps (pool.select_status id) d (server.select_status-keeps id d))
  perform-Does (user login) d =
      same-Does (user login) _ _ _ tt
        (asked-keeps (pool.select_user login) d (server.select_user-keeps login d))
  perform-Does (save job response err) d = saves job response err d
  perform-Does (store job user_id) d = stored job user_id d
  perform-Does (update job) d = updated job d
  perform-Does (add_user u) d =
      same-Does (add_user u) _ _ _ tt
        (asked-keeps (pool.insert_user u) d (server.insert_user-keeps u d))
  perform-Does (raw_archive id archive) d = kept_raw id archive d
