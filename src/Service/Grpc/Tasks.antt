-- ===== src/Service/Grpc/Tasks.antt =====
-- The work on one job, a call of the storage or the cache at a time: the request that submits the
-- job (`BulkGenerate`, from the call of `StoreJob` on) and then its goroutine (`ProcessJob`). The
-- worker's answer is an input, so that other requests, goroutines and rounds of the cleanup may
-- come between any two calls.
pub mod Alone
use agreements_generator_api.Prelude.{ℕ, zero, suc, String, List, [], ◌∷◌, Option, none, some}
use agreements_generator_api.Effect.{Result, ok, fail}
use agreements_generator_api.Domain.Errors.{Err}
use agreements_generator_api.Domain.Generator.{
  JobStatus, processing, completed, failed, GenResponse, Job, status_text,
}
use agreements_generator_api.Storage.{GeneratorStorage}
use agreements_generator_api.Cache.{Cacher}
use agreements_generator_api.GenClient.{GenerateResponse, Send, sends}
use agreements_generator_api.Service.Grpc.{await}

-- Where the work stands. `storing` and `announcing` are before `StoreJob` and `SetJobStatus` of
-- `BulkGenerate`, `launching` before its `go`; `generating` waits for the client; `saving`,
-- `updating` and `telling` are before `SaveResponse`, `UpdateJob` and `SetJobStatus` of
-- `ProcessJob`.
pub data Task : Type 0 where
  absent storing announcing launching generating : Task
  saving : Option Err → GenResponse → Task
  updating telling : JobStatus → Task
  ended : Task

-- After the two receives.
unfoldable pub received : Option (Option Err × GenResponse) → Task
received none = generating
received (some (err, response)) = saving err response

-- The status that the job is updated to, after `SaveResponse`, and the one that the cache is told,
-- after `UpdateJob`.
unfoldable pub after_saving : Option Err → Result (Unit {0}) → JobStatus
after_saving none (ok _) = completed
after_saving none (fail _) = failed
after_saving (some err) _ = failed

unfoldable pub after_updating : JobStatus → Result (Unit {0}) → JobStatus
after_updating completed (ok _) = completed
after_updating _ _ = failed

unfoldable pub after_storing : Result (Unit {0}) → Task
after_storing (ok _) = announcing
after_storing (fail _) = ended

-- The status of the `Job` that `SaveResponse` is called with.
unfoldable pub outcome_status : Option Err → JobStatus
outcome_status none = completed
outcome_status (some err) = failed

module _ {S : Type 0} (storage : GeneratorStorage S) (cacher : Cacher S) (id : String)
    (user_id : ℕ) where
  abbrev job_with : JobStatus → Job
  job_with status = record { id = id; status = status }

  -- The next call; the worker's answer is read where the client has been waited for.
  unfoldable pub advance : Result GenerateResponse → Task → S → Task × S
  unfolding received after_storing after_saving after_updating outcome_status
  advance answer absent s = (absent, s)
  advance answer storing s =
      let (r, s') = storage.store_job (job_with processing) user_id s in (after_storing r, s')
  advance answer announcing s = (launching, (cacher.set_job_status id (status_text processing) s).1)
  advance answer launching s = (generating, s)
  advance answer generating s = (received (await (sends answer)), s)
  advance answer (saving err response) s =
      let (r, s') = storage.save_response (job_with (outcome_status err)) response err s in
      (updating (after_saving err r), s')
  advance answer (updating status) s =
      let (r, s') = storage.update_job (job_with status) s in
      (telling (after_updating status r), s')
  advance answer (telling status) s = (ended, (cacher.set_job_status id (status_text status) s).1)
  advance answer ended s = (ended, s)

  -- Several calls with nothing between them.
  unfoldable pub alone : ℕ → Result GenerateResponse → Task × S → Task × S
  unfolding advance
  alone zero answer ts = ts
  alone (suc n) answer ts = alone n answer (advance answer ts.0 ts.1)
