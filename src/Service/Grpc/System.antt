-- ===== src/Service/Grpc/System.antt =====
-- The program in gRPC mode over the in-memory storage: any number of jobs at once, the calls of
-- their tasks interleaved in any order with registrations, rounds of the cleanup and the passing of
-- time. What other requests do to the cache is left open.
pub mod Invariant
pub mod Reachable
use agreements_generator_api.Prelude.{
  ℕ, ◌+◌, ◌≡◌, String, ◌==◌, List, [], Option, none, some, if◌then◌else◌,
}
use agreements_generator_api.Prelude.Dict.{Dict}
use agreements_generator_api.Effect.{Result}
use agreements_generator_api.Domain.Generator.{User}
use agreements_generator_api.Storage.{storage_beside}
use agreements_generator_api.Storage.Memory.{
  MemoryStorage, UserData, memory_generator_storage, new_memory_storage, cleanup, register,
}
use agreements_generator_api.Cache.{Cacher, cacher_beside}
use agreements_generator_api.GenClient.{GenerateResponse}
use agreements_generator_api.Service.Grpc.Tasks.{Task, absent, storing, advance}

-- The tasks by the ids of their jobs.
pub record System (C : Type 0) : Type 0 where
  pub memory : MemoryStorage
  pub cache : C
  pub tasks : String → Task

abbrev pub assign : String → Task → (String → Task) → String → Task
assign id t tasks j = if id == j then t else tasks j

-- `NewMemoryStorage` at the time `now`, and no request yet.
abbrev pub initial : {C : Type 0} → ℕ → ℕ → C → System C
initial ttl now c = record { memory = new_memory_storage ttl now; cache = c; tasks = λ id. absent }

module _ {C : Type 0} (cacher : Cacher C) where
  -- The next call of the task of a job.
  abbrev pub moved : String → ℕ → Result GenerateResponse → System C → System C
  moved id user_id answer s =
      let (t, env) =
        advance (storage_beside memory_generator_storage) (cacher_beside cacher) id user_id answer
          (s.tasks id) (s.memory, s.cache) in
      record { memory = env.0; cache = env.1; tasks = assign id t s.tasks }

  -- `submit` is a request that has got an id; an id is never made twice, as `uuid.NewUUID` says of
  -- itself.
  pub data Step (s : System C) : System C → Type 0 where
    submit :
        (id : String)
        → s.tasks id ≡ absent
        → Step s (record s { tasks = assign id storing s.tasks })
    call :
        (id : String) (user_id : ℕ) (answer : Result GenerateResponse)
        → Step s (moved id user_id answer s)
    clean : Step s (record s { memory = cleanup s.memory })
    sign_up : (user : User) → Step s (record s { memory = (register user s.memory).1 })
    wait : (n : ℕ) → Step s (record s { memory = record s.memory { now = s.memory.now + n } })
    cache_change : (c : C) → Step s (record s { cache = c })

  pub data Reach (s : System C) : System C → Type 0 where
    here : Reach s s
    next : {t u : System C} → Reach s t → Step t u → Reach s u
