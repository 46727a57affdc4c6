-- ===== src/Service/Grpc/System/Reachable.antt =====
-- Every step keeps the invariant, and what follows for the jobs that are stored.
use agreements_generator_api.Prelude.{
  ℕ, ◌≡◌, ◌⊎◌, inl, inr, String, ◌==◌, eq_iff, Option, none, some, Bool, false, Option-cases,
  Bool-cases,
}
use mathlib.Core.Path.{subst}
use agreements_generator_api.Prelude.Dict.{
  Dict, lookup, keep, NodupKeys, lookup-delete_if, delete_if-NodupKeys,
}
use agreements_generator_api.Effect.{Result}
use agreements_generator_api.Domain.Generator.{processing, completed, failed, User}
use agreements_generator_api.Storage.{storage_beside}
use agreements_generator_api.Storage.Memory.{
  MemoryStorage, JobData, memory_generator_storage, cleanup, register, is_expired,
  new_memory_storage,
}
use agreements_generator_api.Cache.{Cacher, cacher_beside}
use agreements_generator_api.GenClient.{GenerateResponse, sends}
use agreements_generator_api.GenClient.Handover.{outcome_error, outcome_response}
use agreements_generator_api.Service.Grpc.Tasks.{
  Task, absent, storing, announcing, launching, generating, saving, updating, telling, ended,
  advance, outcome_status, received,
}
use agreements_generator_api.Service.Grpc.Process.{await-sends}
use agreements_generator_api.Service.Grpc.{await}
use agreements_generator_api.Service.Grpc.System.{
  System, assign, initial, moved, Step, submit, call, clean, sign_up, wait, cache_change, Reach,
  here, next,
}
use agreements_generator_api.Service.Grpc.System.Invariant.{
  IsDecided, Expected, Fits, Inv, IsMoved, kept, stores, saves, updates,
}

-- What a task has in hand once it has waited for the client.
answered :
    (answer : Result GenerateResponse)
    → received (await (sends answer)) ≡ saving (outcome_error answer) (outcome_response answer)
unfolding received
answered answer = rw (await-sends answer)

-- What one task expects, another does, too, if it expects no more.
Fits-map :
    (t u : Task) (o : Option JobData)
    → ((d : JobData) → Expected t d → Expected u d)
    → Fits t o
    → Fits u o
Fits-map t u none f h = tt
Fits-map t u (some d) f h = f d h

module _ {C : Type 0} (cacher : Cacher C) (id : String) (user_id : ℕ)
    (answer : Result GenerateResponse) (c : C) (m : MemoryStorage) (keys : NodupKeys m.jobs) where
  advance-IsMoved :
      (t : Task)
      → Fits t (lookup id m.jobs)
      → let (t', env) =
          advance
            (storage_beside memory_generator_storage)
            (cacher_beside cacher)
            id
            user_id
            answer
            t
            (m, c) in
        IsMoved id m env.0 t'
  unfolding advance
  advance-IsMoved absent h = kept id m keys absent h
  advance-IsMoved storing h = stores id m keys user_id h
  advance-IsMoved announcing h = kept id m keys launching h
  advance-IsMoved launching h = kept id m keys generating h
  advance-IsMoved generating h = rw (answered answer) (
      kept id m keys (saving (outcome_error answer) (outcome_response answer)) (
        Fits-map generating (saving (outcome_error answer) (outcome_response answer))
          (lookup id m.jobs) (λ d p. p) h))
  advance-IsMoved (saving err response) h = saves id m keys (outcome_status err) response err h
  advance-IsMoved (updating status) h = updates id m keys status h
  advance-IsMoved (telling status) h = kept id m keys ended h
  advance-IsMoved ended h = kept id m keys ended h

Fits-keep :
    (drop : JobData → Bool) (t : Task) (o : Option JobData) → Fits t o → Fits t (keep drop o)
Fits-keep drop t none h = tt
Fits-keep drop t (some d) h = elim (Bool-cases (drop d)) [ inl e ↦ rw e tt | inr e ↦ rw e h ]

register-keeps_jobs : (user : User) (m : MemoryStorage) → (register user m).1.jobs ≡ m.jobs
unfolding register
register-keeps_jobs user m = elim (Option-cases (lookup user.login m.users)) [
  | inl e ↦ rw (e, register)
  | inr (old, e) ↦ rw (e, register)
]

-- A new task for the job of `id`.
assign-Fits :
    (id : String) (t : Task) (tasks : String → Task) (jobs : Dict JobData)
    → Fits t (lookup id jobs)
    → ((j : String) → (id == j) ≡ false → Fits (tasks j) (lookup j jobs))
    → (j : String) → Fits (assign id t tasks j) (lookup j jobs)
assign-Fits id t tasks jobs own others j = elim (Bool-cases (id == j)) [
  | inl e ↦ rw e (subst (λ k. Fits t (lookup k jobs)) ((eq_iff id j).0 e) own)
  | inr e ↦ rw e (others j e)
]

module _ {C : Type 0} (cacher : Cacher C) where
  moved-Inv :
      (id : String) (user_id : ℕ) (answer : Result GenerateResponse) (s : System C)
      → Inv s
      → Inv (moved cacher id user_id answer s)
  moved-Inv id user_id answer s inv =
      let step =
        advance-IsMoved cacher id user_id answer s.cache s.memory inv.keys (s.tasks id)
          (inv.fits id) in
      record {
        keys = step.keys;
        fits = assign-Fits id _ s.tasks _ step.own (λ j e. rw (step.others j e) (inv.fits j));
      }

  Step-Inv : {s t : System C} → Step cacher s t → Inv s → Inv t
  unfolding cleanup
  Step-Inv {s} (submit id h) inv = record {
    keys = inv.keys;
    fits =
        assign-Fits id storing s.tasks s.memory.jobs
          (Fits-map absent storing (lookup id s.memory.jobs) (λ d p. p) (rw h at (inv.fits id)))
          (λ j e. inv.fits j);
  }
  Step-Inv {s} (call id user_id answer) inv = moved-Inv id user_id answer s inv
  Step-Inv {s} clean inv = record {
    keys = delete_if-NodupKeys (is_expired s.memory) s.memory.jobs inv.keys;
    fits = λ j.
        rw (lookup-delete_if (is_expired s.memory) j s.memory.jobs inv.keys)
          (Fits-keep (is_expired s.memory) (s.tasks j) (lookup j s.memory.jobs) (inv.fits j));
  }
  Step-Inv {s} (sign_up user) inv = record {
    keys = rw (register-keeps_jobs user s.memory) inv.keys;
    fits = λ j. rw (register-keeps_jobs user s.memory) (inv.fits j);
  }
  Step-Inv (wait n) inv = record { keys = inv.keys; fits = inv.fits }
  Step-Inv (cache_change c) inv = record { keys = inv.keys; fits = inv.fits }

  Reach-Inv : {s t : System C} → Reach cacher s t → Inv s → Inv t
  Reach-Inv here inv = inv
  Reach-Inv (next r st) inv = Step-Inv st (Reach-Inv r inv)

  initial-Inv : (ttl now : ℕ) (c : C) → Inv (initial ttl now c)
  unfolding new_memory_storage lookup
  initial-Inv ttl now c = record { keys = tt; fits = λ id. tt }

-- The task has stored the job, and its `UpdateJob` is ahead.
abbrev pub IsWorking : Task → Type 0
IsWorking absent = ⊥
IsWorking storing = ⊥
IsWorking (telling status) = ⊥
IsWorking ended = ⊥
IsWorking _ = Unit

-- The two kinds of jobs that are stored: those that are worked on, and those that are decided.
abbrev pub IsAccounted : Task → JobData → Type 0
IsAccounted t d = ((d.status ≡ processing) × IsWorking t) ⊎ IsDecided d

Expected-IsAccounted : (t : Task) (d : JobData) → Expected t d → IsAccounted t d
Expected-IsAccounted absent d h = absurd h
Expected-IsAccounted storing d h = absurd h
Expected-IsAccounted (telling status) d h = inr h
Expected-IsAccounted ended d h = inr h
Expected-IsAccounted (updating completed) d h = inl (h.0, tt)
Expected-IsAccounted (updating failed) d h = inl (h.0, tt)
Expected-IsAccounted (updating processing) d h = absurd h
Expected-IsAccounted (saving err response) d h = inl (h, tt)
Expected-IsAccounted announcing d h = inl (h, tt)
Expected-IsAccounted launching d h = inl (h, tt)
Expected-IsAccounted generating d h = inl (h, tt)

-- In the gRPC mode over the in-memory storage, where no id is made twice, no job is forgotten, and
-- no end is false: after any steps from an empty storage, which are the calls of any number of jobs in
-- any order, the cleanup, registrations, changes of the cache and the passing of time, a job that is
-- stored as processing has a task that is yet to update it, and each other job that is stored is
-- completed without a fatal error or failed with one.
pub Reach-IsAccounted :
    {C : Type 0} (cacher : Cacher C) (ttl now : ℕ) (c : C) (s : System C) (id : String)
    (d : JobData)
    → Reach cacher (initial ttl now c) s
    → lookup id s.memory.jobs ≡ some d
    → IsAccounted (s.tasks id) d
Reach-IsAccounted cacher ttl now c s id d r e =
    let inv = Reach-Inv cacher r (initial-Inv cacher ttl now c) in
    Expected-IsAccounted (s.tasks id) d (rw e at (inv.fits id))
