-- ===== src/Service/Grpc/System/Invariant.antt =====
-- What is stored of a job fits to where its task stands, in every reachable state.
use agreements_generator_api.Prelude.{
  ℕ, ◌≡◌, ◌≢◌, refl, ◌⊎◌, inl, inr, String, ◌==◌, eq_refl, Option, none, some, false, arith,
  Option-cases,
}
use agreements_generator_api.Prelude.Dict.{
  lookup, insert, NodupKeys, lookup-insert, insert-NodupKeys,
}
use agreements_generator_api.Domain.Errors.{Err}
use agreements_generator_api.Domain.Generator.{
  JobStatus, processing, completed, failed, GenResponse,
}
use agreements_generator_api.Storage.Memory.{
  MemoryStorage, JobData, store_job, save_response, update_job,
}
use agreements_generator_api.Storage.Memory.Jobs.{created, saved}
use agreements_generator_api.Service.Grpc.Tasks.{
  Task, absent, storing, announcing, saving, updating, telling, ended, after_storing, after_saving,
  after_updating,
}
use agreements_generator_api.Service.Grpc.System.{System}

-- The job ended, and its status agrees with what was saved of it.
abbrev pub IsDecided : JobData → Type 0
IsDecided d =
    ((d.status ≡ completed) × (d.fatal_error ≡ none))
    ⊎ ((d.status ≡ failed) × (d.fatal_error ≢ none))

-- The job waits for its update to the status.
abbrev pub Awaits : JobStatus → JobData → Type 0
Awaits completed d = (d.status ≡ processing) × (d.fatal_error ≡ none)
Awaits failed d = (d.status ≡ processing) × (d.fatal_error ≢ none)
Awaits processing d = ⊥

-- What is stored of a job whose task stands there, if it is stored.
abbrev pub Expected : Task → JobData → Type 0
Expected absent d = ⊥
Expected storing d = ⊥
Expected (updating status) d = Awaits status d
Expected (telling status) d = IsDecided d
Expected ended d = IsDecided d
Expected _ d = d.status ≡ processing

abbrev pub Fits : Task → Option JobData → Type 0
Fits t none = Unit
Fits t (some d) = Expected t d

pub record Inv {C : Type 0} (s : System C) : Type 0 where
  pub keys : NodupKeys s.memory.jobs
  pub fits : (id : String) → Fits (s.tasks id) (lookup id s.memory.jobs)

-- A call of the task of `id` leaves the other jobs, and brings what is stored of this one where the
-- task then expects it.
pub record IsMoved (id : String) (m m' : MemoryStorage) (t' : Task) : Type 0 where
  pub keys : NodupKeys m'.jobs
  pub others : (j : String) → (id == j) ≡ false → lookup j m'.jobs ≡ lookup j m.jobs
  pub own : Fits t' (lookup id m'.jobs)

module _ (id : String) (m : MemoryStorage) (keys : NodupKeys m.jobs) where
  -- A storage call that writes the entry of `id`.
  written :
      (d : JobData) (t' : Task)
      → Expected t' d
      → IsMoved id m (record m { jobs = insert id d m.jobs }) t'
  written d t' h = record {
    keys = insert-NodupKeys id d m.jobs keys;
    others = λ j e. ground (arith, lookup-insert id j d m.jobs);
    own = rw (lookup-insert id id d m.jobs, eq_refl id) h;
  }

  pub kept : (t' : Task) → Fits t' (lookup id m.jobs) → IsMoved id m m t'
  kept t' h = record { keys = keys; others = λ j e. refl; own = h }

  -- The three methods that write, on a job that is stored or not.
  pub stores :
      (user_id : ℕ)
      → Fits storing (lookup id m.jobs)
      → let (r, m') = store_job (record { id = id; status = processing }) user_id m in
        IsMoved id m m' (after_storing r)
  unfolding store_job after_storing
  stores user_id h = elim (Option-cases (lookup id m.jobs)) [
    | inl e ↦
        rw (e, store_job)
          (written (created (record { id = id; status = processing }) m.now) announcing refl)
    | inr (d, e) ↦ absurd (rw e at h)
  ]

  pub saves :
      (status : JobStatus) (response : GenResponse) (err : Option Err)
      → Fits (saving err response) (lookup id m.jobs)
      → let (r, m') = save_response (record { id = id; status = status }) response err m in
        IsMoved id m m' (updating (after_saving err r))
  unfolding save_response after_saving
  saves status response none h = elim (Option-cases (lookup id m.jobs)) [
    | inl e ↦ rw (e, save_response) (kept (updating failed) (rw e tt))
    | inr (d, e) ↦
        rw (e, save_response)
          (written (saved response none d) (updating completed) (rw e at h, refl))
  ]
  saves status response (some x) h = elim (Option-cases (lookup id m.jobs)) [
    | inl e ↦ rw (e, save_response) (kept (updating failed) (rw e tt))
    | inr (d, e) ↦
        rw (e, save_response)
          (written (saved response (some x) d) (updating failed) (rw e at h, ground arith))
  ]

  pub updates :
      (status : JobStatus)
      → Fits (updating status) (lookup id m.jobs)
      → let (r, m') = update_job (record { id = id; status = status }) m in
        IsMoved id m m' (telling (after_updating status r))
  unfolding update_job after_updating
  updates completed h = elim (Option-cases (lookup id m.jobs)) [
    | inl e ↦ rw (e, update_job) (kept (telling failed) (rw e tt))
    | inr (d, e) ↦
        let (p, n) = rw e at h in
        rw (e, update_job)
          (written (record d { status = completed }) (telling completed) (inl (refl, n)))
  ]
  updates failed h = elim (Option-cases (lookup id m.jobs)) [
    | inl e ↦ rw (e, update_job) (kept (telling failed) (rw e tt))
    | inr (d, e) ↦
        let (p, n) = rw e at h in
        rw (e, update_job) (written (record d { status = failed }) (telling failed) (inr (refl, n)))
  ]
  updates processing h = elim (Option-cases (lookup id m.jobs)) [
    | inl e ↦ rw (e, update_job) (kept (telling failed) (rw e tt))
    | inr (d, e) ↦ absurd (rw e at h)
  ]
