-- ===== src/Service/Grpc/Tasks/Alone.antt =====
-- The calls of a task, one after the other, are `BulkGenerate` and `ProcessJob`.
use agreements_generator_api.Prelude.{
  ℕ, ◌≡◌, refl, sym, ap, ◌∙◌, String, Option, none, some, inl, inr, arith,
}
use agreements_generator_api.Effect.{Result, ok, fail, Result-cases, Call-cases, Proc}
use agreements_generator_api.Domain.Errors.{Err}
use agreements_generator_api.Domain.Generator.{Bytes, GenResponse, processing, completed}
use agreements_generator_api.Storage.{GeneratorStorage}
use agreements_generator_api.Cache.{Cacher}
use agreements_generator_api.GenClient.{GenerateResponse, client}
use agreements_generator_api.GenClient.Handover.{outcome_error, outcome_response}
use agreements_generator_api.Service.{World, Context, ProcessJobParams, int_of}
use agreements_generator_api.Service.Grpc.{finalize, bulk_generate, process_job}
use agreements_generator_api.Service.Grpc.Process.{await-sends, process_job_ends}
use agreements_generator_api.Service.Grpc.Tasks.{
  Task, storing, generating, saving, ended, alone, received,
}

-- The task after the request, by its result.
abbrev pub submitted_task : Result String → Task
submitted_task (ok job_id) = generating
submitted_task (fail e) = ended

module _ {S : Type 0} (storage : GeneratorStorage S) (cacher : Cacher S) (id : String)
    (user_id : ℕ) where
  alone-saving :
      (answer : Result GenerateResponse) (err : Option Err) (response : GenResponse) (s : S)
      → alone storage cacher id user_id 3 answer (saving err response, s)
        ≡ (ended, (finalize storage cacher id err response s).1)
  unfolding alone finalize
  alone-saving answer none response s =
      elim (Result-cases
        (storage.save_response (record { id = id; status = completed }) response none s).0) [
          | inl (u, e) ↦ ground arith
          | inr (x, e) ↦ ground arith
        ]
  alone-saving answer (some e) response s = refl

  alone-generating :
      (answer : Result GenerateResponse) (s : S)
      → alone storage cacher id user_id 4 answer (generating, s)
        ≡ (ended, (finalize storage cacher id (outcome_error answer) (outcome_response answer) s).1)
  unfolding alone received
  alone-generating answer s =
      ap (λ o. alone storage cacher id user_id 3 answer (received o, s)) (await-sends answer)
      ∙ alone-saving answer (outcome_error answer) (outcome_response answer) s

  alone-storing :
      (new_uuid : Proc S String) (ctx : Context) (archive : Bytes) (w : World S)
      (answer : Result GenerateResponse) (s : S)
      → int_of ctx.user_id ≡ user_id
      → new_uuid w.env ≡ (ok id, s)
      → let (r, w') = bulk_generate storage cacher new_uuid ctx archive w in
        alone storage cacher id user_id 3 answer (storing, s) ≡ (submitted_task r, w'.env)
  unfolding alone bulk_generate
  alone-storing new_uuid ctx archive w answer s hu h =
      elim (Call-cases (storage.store_job (record { id = id; status = processing }) user_id) s) [
        | inl (u, s', e) ↦ rw (hu, h, e)
        | inr (x, s', e) ↦ rw (hu, h, e)
      ]

-- With nothing between its calls, a task does what the code does: the three calls of a request
-- whose id is made leave the state of `BulkGenerate`, with the goroutine ahead exactly if there is
-- no error; and the four calls of a goroutine end it in the state of `ProcessJob`, whatever the
-- worker answers.
pub alone-eq-grpc :
    {S : Type 0} (storage : GeneratorStorage S) (cacher : Cacher S) (new_uuid : Proc S String)
    (generate : Bytes → Proc S GenerateResponse) (conn_close : Proc S (Unit {0})) (id : String)
    (ctx : Context) (archive : Bytes) (w : World S) (s : S) (answer : Result GenerateResponse)
    (params : ProcessJobParams)
    → new_uuid w.env ≡ (ok id, s)
    → let (r, w') = bulk_generate storage cacher new_uuid ctx archive w in
      let (call, called) = generate params.archive_bytes w.env in
      (alone storage cacher id (int_of ctx.user_id) 3 answer (storing, s)
        ≡ (submitted_task r, w'.env))
      × (last : World S) × (process_job storage cacher (client generate conn_close) params w
          ≡ some last)
      × (alone storage cacher params.job.id (int_of ctx.user_id) 4 call (generating, called)
          ≡ (ended, last.env))
alone-eq-grpc storage cacher new_uuid generate conn_close id ctx archive w s answer params h =
    let user = int_of ctx.user_id in
    let (call, called) = generate params.archive_bytes w.env in
    let (last, same, env, _, _, _) = process_job_ends storage cacher generate conn_close params w in
    (
      alone-storing storage cacher id user new_uuid ctx archive w answer s refl h,
      last,
      same,
      alone-generating storage cacher params.job.id user call called
          ∙ ap (λ t. (ended, t)) (sym env),
    )
