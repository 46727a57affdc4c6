-- ===== src/Storage/Memory/Jobs.antt =====
-- The jobs of the in-memory storage against an abstract store: a partial function from ids to jobs,
-- the time and the lifetime of a job. Each method changes that function at one id at most.
use agreements_generator_api.Prelude.{
  ℕ, ◌+◌, ◌≡◌, refl, String, ◌==◌, List, [], ◌∷◌, Option, none, some, ltb, if◌then◌else◌, arith,
  Option-cases, inl, inr,
}
use agreements_generator_api.Prelude.Dict.{
  lookup, insert, keep, NodupKeys, lookup-insert, insert-NodupKeys, lookup-delete_if,
  delete_if-NodupKeys,
}
use agreements_generator_api.Effect.{Result, ok, fail, Proc, ◌>>=◌, ◌>>◌, pure}
use agreements_generator_api.Domain.Errors.{Err, app, wrapf, conflict}
use agreements_generator_api.Domain.Generator.{Bytes, Job, GenResponse, status_text}
use agreements_generator_api.Storage.{ArchiveInfo}
use agreements_generator_api.Storage.Memory.{
  JobData, MemoryStorage, job_not_found, is_expired, cleanup, store_job, update_job,
  check_job_status, save_response, get_archive, get_archive_info, fatal_text,
}
use mathlib.Core.Path.{fun_ext}

-- The methods on jobs, a round of the cleanup, and the passing of time.
pub data Op : Type 0 where
  store : Job → ℕ → Op
  update : Job → Op
  save : Job → GenResponse → Option Err → Op
  check : String → Op
  archive : String → Op
  info : String → Op
  clean : Op
  wait : ℕ → Op

pub data Reply : Type 0 where
  done : Reply
  status : String → Reply
  archived : String × Bytes × String → Reply
  information : ArchiveInfo → Reply

abbrev pub perform : Op → Proc MemoryStorage Reply
perform (store job user_id) = do store_job job user_id; pure done
perform (update job) = do update_job job; pure done
perform (save job response err) = do save_response job response err; pure done
perform (check id) = do text ← check_job_status id; pure (status text)
perform (archive id) = do found ← get_archive id; pure (archived found)
perform (info id) = do found ← get_archive_info id; pure (information found)
perform clean = λ s. (ok done, cleanup s)
perform (wait n) = λ s. (ok done, record s { now = s.now + n })

-- The abstract store, and what each operation does to it.
pub record Store : Type 0 where
  pub jobs : String → Option JobData
  pub now : ℕ
  pub ttl : ℕ

abbrev pub put : String → JobData → (String → Option JobData) → String → Option JobData
put id d f j = if id == j then some d else f j

module _ {A : Type 0} where
  -- An operation that needs the job.
  abbrev pub found : Option JobData → (JobData → Result A × Store) → Store → Result A × Store
  found none f a = (fail job_not_found, a)
  found (some d) f a = f d

abbrev pub created : Job → ℕ → JobData
created job now = record {
  status = job.status;
  archive = none;
  errors = [];
  gen_count = 0;
  created_at = now;
  fatal_error = none;
}

abbrev pub saved : GenResponse → Option Err → JobData → JobData
saved response err d = record {
  status = d.status;
  archive = response.archive;
  errors = response.errors;
  gen_count = response.gen_count;
  created_at = d.created_at;
  fatal_error = err;
}

abbrev pub add : Option JobData → Job → Store → Result Reply × Store
add (some d) job a = (fail (wrapf "job already exists" (app conflict)), a)
add none job a = (ok done, record a { jobs = put job.id (created job a.now) a.jobs })

abbrev pub specify : Op → Store → Result Reply × Store
specify (store job user_id) a = add (a.jobs job.id) job a
specify (update job) a =
    found (a.jobs job.id)
      (λ d. (ok done, record a { jobs = put job.id (record d { status = job.status }) a.jobs })) a
specify (save job response err) a =
    found (a.jobs job.id)
      (λ d. (ok done, record a { jobs = put job.id (saved response err d) a.jobs })) a
specify (check id) a = found (a.jobs id) (λ d. (ok (status (status_text d.status)), a)) a
specify (archive id) a =
    found (a.jobs id)
      (λ d. (ok (archived (status_text d.status, d.archive, fatal_text d.fatal_error)), a)) a
specify (info id) a =
    found (a.jobs id)
      (λ d. (
        ok (
            information (record {
              status = status_text d.status;
              errors = d.errors;
              count = d.gen_count;
              fatal_gen_err = fatal_text d.fatal_error;
            })),
        a,
      ))
      a
specify clean a =
    (ok done, record a { jobs = λ j. keep (λ d. ltb (d.created_at + a.ttl) a.now) (a.jobs j) })
specify (wait n) a = (ok done, record a { now = a.now + n })

-- What the storage stands for.
abbrev pub view : MemoryStorage → Store
view s = record { jobs = λ j. lookup j s.jobs; now = s.now; ttl = s.job_ttl }

view-insert :
    (id : String) (d : JobData) (s : MemoryStorage)
    → view (record s { jobs = insert id d s.jobs })
      ≡ record (view s) { jobs = put id d (view s).jobs }
view-insert id d s = λ i. record {
  jobs = fun_ext (λ j. lookup-insert id j d s.jobs) i;
  now = s.now;
  ttl = s.job_ttl;
}

-- A method on jobs answers as the abstract store does, and leaves a storage that stands for the
-- abstract store's next state.
perform-specify :
    (op : Op) (s : MemoryStorage)
    → NodupKeys s.jobs
    → ((perform op s).0, view (perform op s).1) ≡ specify op (view s)
unfolding store_job update_job save_response check_job_status get_archive get_archive_info cleanup
    is_expired
perform-specify (store job user_id) s h = elim (Option-cases (lookup job.id s.jobs)) [
  | inl e ↦ ground (arith, view-insert job.id (created job s.now) s)
  | inr (d, e) ↦ ground arith
]
perform-specify (update job) s h = elim (Option-cases (lookup job.id s.jobs)) [
  | inl e ↦ ground arith
  | inr (d, e) ↦ ground (arith, view-insert job.id (record d { status = job.status }) s)
]
perform-specify (save job response err) s h = elim (Option-cases (lookup job.id s.jobs)) [
  | inl e ↦ ground arith
  | inr (d, e) ↦ ground (arith, view-insert job.id (saved response err d) s)
]
perform-specify (check id) s h = ground arith
perform-specify (archive id) s h = ground arith
perform-specify (info id) s h = ground arith
perform-specify clean s h = λ i. (
  ok done,
  record {
    jobs = fun_ext (λ j. lookup-delete_if (is_expired s) j s.jobs h) i;
    now = s.now;
    ttl = s.job_ttl;
  },
)
perform-specify (wait n) s h = refl

perform-NodupKeys :
    (op : Op) (s : MemoryStorage) → NodupKeys s.jobs → NodupKeys (perform op s).1.jobs
unfolding store_job update_job save_response check_job_status get_archive get_archive_info cleanup
perform-NodupKeys (store job user_id) s h =
    ground (arith, insert-NodupKeys job.id (created job s.now) s.jobs h)
perform-NodupKeys (update job) s h = elim (Option-cases (lookup job.id s.jobs)) [
  | inl e ↦ ground arith
  | inr (d, e) ↦ ground (arith, insert-NodupKeys job.id (record d { status = job.status }) s.jobs h)
]
perform-NodupKeys (save job response err) s h = elim (Option-cases (lookup job.id s.jobs)) [
  | inl e ↦ ground arith
  | inr (d, e) ↦ ground (arith, insert-NodupKeys job.id (saved response err d) s.jobs h)
]
perform-NodupKeys (check id) s h = ground arith
perform-NodupKeys (archive id) s h = ground arith
perform-NodupKeys (info id) s h = ground arith
perform-NodupKeys clean s h = delete_if-NodupKeys (is_expired s) s.jobs h
perform-NodupKeys (wait n) s h = h

-- A run of operations: the replies in order, and the last state.
abbrev pub run : {S : Type 0} → (Op → S → Result Reply × S) → List Op → S → List (Result Reply) × S
run step [] s = ([], s)
run step (op ∷ ops) s = let (r, s') = step op s in let (rs, s'') = run step ops s' in (r ∷ rs, s'')

-- Any sequence of calls of the storage's methods on jobs, with rounds of the cleanup and waits
-- between them, gives the replies of the abstract store, and ends in a storage that stands for the
-- abstract store's last state. The storage starts with each id held once, as a map does.
pub run-perform :
    (ops : List Op) (s : MemoryStorage)
    → NodupKeys s.jobs
    → ((run perform ops s).0, view (run perform ops s).1) ≡ run specify ops (view s)
run-perform [] s h = refl
run-perform (op ∷ ops) s h =
    let one = perform-specify op s h in
    let rest = run-perform ops (perform op s).1 (perform-NodupKeys op s h) in cc (one, rest)
