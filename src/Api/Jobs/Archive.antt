-- ===== src/Api/Jobs/Archive.antt =====
-- The status of GET /get_archive in the gRPC mode over the in-memory storage, as a table over what
-- is stored of the job.
use agreements_generator_api.Prelude.{
  ℕ, ◌≡◌, refl, ◌≢◌, ap, ◌∙◌, String, ◌==◌, eq_iff, Option, none, some, if◌then◌else◌, arith,
  Option-cases, inl, inr,
}
use agreements_generator_api.Prelude.Dict.{lookup}
use agreements_generator_api.Effect.{Result, ok, fail, Proc}
use agreements_generator_api.Domain.Errors.{Err, error_text, wrapf}
use agreements_generator_api.Domain.Generator.{
  Bytes, JobStatus, processing, completed, failed, status_text, job_status_from_string,
}
use agreements_generator_api.Encoder.{Encoder}
use agreements_generator_api.Storage.{storage_beside, InputArchiveStorer}
use agreements_generator_api.Storage.Memory.{
  JobData, MemoryStorage, memory_generator_storage, fatal_text, job_not_found,
}
use agreements_generator_api.Storage.Memory as Memory
use agreements_generator_api.Cache.{Cacher, cacher_beside}
use agreements_generator_api.Publisher.{Publisher}
use agreements_generator_api.Service.{Generator, World}
use agreements_generator_api.Service.Gen.{new_grpc_gen}
use agreements_generator_api.Service.Grpc
use agreements_generator_api.Service.Grpc.{archive_of}
use agreements_generator_api.Service.Grpc.Results.{get_archive_of_stored}
use agreements_generator_api.Api.{Request, ResponseWriter}
use agreements_generator_api.Api.Response.{write_response, response_zip}
use agreements_generator_api.Api.Response.Laws.{error_status, write_error-sent, write_response-sent}
use agreements_generator_api.Api.Measure.{status_of}
use agreements_generator_api.Api.Jobs.{handle_get_archive, answer}

-- 404 for an unknown job and for a completed one without an archive, 200 for a completed one with
-- an archive; else 500 where a fatal error with a text is stored, and 400 where there is none, or
-- one whose text is empty.
abbrev pub status_code : JobStatus → Bytes → String → ℕ
status_code completed none text = 404
status_code completed (some bytes) text = 200
status_code _ archive text = if text == "" then 400 else 500

abbrev pub archive_code : Option JobData → ℕ
archive_code none = 404
archive_code (some d) =
    status_code d.status d.archive (elim d.fatal_error [ none ↦ "" | some e ↦ error_text e ])

abbrev result_code : Result Bytes → ℕ
result_code (ok bytes) = 200
result_code (fail e) = error_status e

answer-status :
    (enc : Encoder) (result : Result Bytes) (w : ResponseWriter)
    → w.sent ≡ none
    → status_of (answer enc (λ a. write_response enc a response_zip) result w) ≡ result_code result
unfolding status_of
answer-status enc (ok bytes) w fresh =
    rw (write_response-sent enc bytes response_zip w fresh, status_of)
answer-status enc (fail e) w fresh = rw (write_error-sent enc e w fresh, status_of)

archive_of-status_code :
    (status : JobStatus) (archive : Bytes) (text : String)
    → result_code (archive_of (status_text status, archive, text)) ≡ status_code status archive text
unfolding archive_of job_status_from_string error_status wrapf status_text
archive_of-status_code processing archive text = ground arith
archive_of-status_code completed none text = refl
archive_of-status_code completed (some bytes) text = refl
archive_of-status_code failed archive text = ground arith

module _ {W : Type 0} (service : Generator W) where
  handle_get_archive-answer :
      (enc : Encoder) (r : Request) (w : ResponseWriter) (s s' : W) (result : Result Bytes)
      → r.id ≢ ""
      → service.get_archive r.id s ≡ (result, s')
      → handle_get_archive enc service r w s
        ≡ (answer enc (λ a. write_response enc a response_zip) result w, s')
  unfolding handle_get_archive
  handle_get_archive-answer enc r w s s' result id e = ground (arith, eq_iff r.id "")

-- What the service answers, by what is stored.
abbrev stored_answer : Option JobData → Result Bytes
stored_answer none = fail (wrapf "can't get archive from store" job_not_found)
stored_answer (some d) = archive_of (status_text d.status, d.archive, fatal_text d.fatal_error)

module _ {C : Type 0} (cacher : Cacher C) where
  get_archive-stored_answer :
      (id : String) (m : MemoryStorage) (c : C)
      → Grpc.get_archive (storage_beside memory_generator_storage) (cacher_beside cacher) id (m, c)
        ≡ (stored_answer (lookup id m.jobs), (m, c))
  unfolding Grpc.get_archive Memory.get_archive
  get_archive-stored_answer id m c = elim (Option-cases (lookup id m.jobs)) [
    | inl e ↦ ground arith
    | inr (d, e) ↦ rw e (get_archive_of_stored cacher id m c d e)
  ]

fatal_text-text : (o : Option Err) → (elim o [ none ↦ "" | some e ↦ error_text e ]) ≡ fatal_text o
unfolding fatal_text
fatal_text-text none = refl
fatal_text-text (some e) = refl

stored_answer-code : (o : Option JobData) → result_code (stored_answer o) ≡ archive_code o
unfolding error_status wrapf
stored_answer-code none = refl
stored_answer-code (some d) =
    rw fatal_text-text (archive_of-status_code d.status d.archive (fatal_text d.fatal_error))

-- In the gRPC mode over the in-memory storage, a request for the archive with an id is answered
-- with the status that the table gives for what is stored of the job, and changes nothing. No
-- answer has been written to the request before.
pub handle_get_archive-code :
    {C : Type 0} (cacher : Cacher C) (storer : Option (InputArchiveStorer (MemoryStorage × C)))
    (publisher : Publisher (MemoryStorage × C)) (new_uuid : Proc (MemoryStorage × C) String)
    (enc : Encoder) (r : Request) (w : ResponseWriter) (s : World (MemoryStorage × C))
    → r.id ≢ ""
    → w.sent ≡ none
    → let service =
        new_grpc_gen
          (storage_beside memory_generator_storage)
          storer
          publisher
          (cacher_beside cacher)
          new_uuid in
      let (w', s') = handle_get_archive enc service r w s in
      (status_of w' ≡ archive_code (lookup r.id s.env.0.jobs)) × (s' ≡ s)
handle_get_archive-code cacher storer publisher new_uuid enc r w s id fresh =
    let service =
      new_grpc_gen (storage_beside memory_generator_storage) storer publisher (cacher_beside cacher)
        new_uuid in
    let stored = lookup r.id s.env.0.jobs in
    let got : service.get_archive r.id s ≡ (stored_answer stored, s) =
      ap (λ p. (p.0, record s { env = p.1 }))
        (get_archive-stored_answer cacher r.id s.env.0 s.env.1) in
    let answered = handle_get_archive-answer service enc r w s s (stored_answer stored) id got in
    (
      ap (λ p. status_of p.0) answered
          ∙ answer-status enc (stored_answer stored) w fresh
          ∙ stored_answer-code stored,
      ap (λ p. p.1) answered,
    )
