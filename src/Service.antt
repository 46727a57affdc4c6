-- ===== src/Service.antt =====
-- internal/service: what the two generators share: the state around their components, and the
-- values that a request's context carries.
pub mod Grpc
pub mod Queue
pub mod Auth
pub mod Gen
use agreements_generator_api.Prelude.{ℕ, String, List, ◌∷◌}
use agreements_generator_api.Effect.{Result, ok, fail, Proc}
use agreements_generator_api.Metrics.{Metrics, submitted}
use agreements_generator_api.Domain.Generator.{Bytes, Job, JobStatus, FilesErrors}

-- `ctx.Value(key)`, an interface value: nil, a string, or an int.
pub data Value : Type 0 where
  absent : Value
  string_value : String → Value
  int_value : ℕ → Value

-- The values under `LoginKey` and `UserIDKey`.
pub record Context : Type 0 where
  pub login : Value
  pub user_id : Value

-- `userID, ok := ctx.Value(domain.UserIDKey).(int)`: 0 where the value is no int; the error is
-- only logged.
unfoldable pub int_of : Value → ℕ
int_of (int_value n) = n
int_of _ = 0

-- The arguments of a goroutine `ProcessJob`; its channels are fresh.
pub record ProcessJobParams : Type 0 where
  pub ctx : Context
  pub job : Job
  pub archive_bytes : Bytes

-- `env` is the state behind the interfaces, `running` the goroutines started and not yet run.
pub record World (S : Type 0) : Type 0 where
  pub env : S
  pub metrics : Metrics
  pub running : List ProcessJobParams

module _ {S A : Type 0} where
  -- A call of an interface's method.
  abbrev pub call : Proc S A → Proc (World S) A
  call m w = let (r, s) = m w.env in (r, record w { env = s })

module _ {S : Type 0} where
  -- `go g.ProcessJob(…)`
  abbrev pub start : ProcessJobParams → Proc (World S) (Unit {0})
  start params w = (ok tt, record w { running = params ∷ w.running })

-- The label `result` of the deferred function of `BulkGenerate`.
abbrev pub result_label {ℓ} : {A : Type ℓ} → Result A → String
result_label (ok a) = "success"
result_label (fail e) = "error"

module _ {S A : Type 0} where
  -- `BulkGenerate` with its deferred function.
  abbrev pub observed : String → Proc (World S) A → Proc (World S) A
  observed mode m w =
      let (r, w') = m w in (r, record w' { metrics = submitted mode (result_label r) w'.metrics })

-- `Generator` of service/generator.go, over the state `W`.
pub record Generator (W : Type 0) : Type 0 where
  pub bulk_generate : Context → Bytes → Proc W String
  pub check_job_status : String → Proc W JobStatus
  pub get_archive : String → Proc W Bytes
  pub get_archive_info : String → Proc W (List FilesErrors × ℕ)
