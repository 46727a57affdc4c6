-- ===== src/Api/Jobs.antt =====
-- internal/api/api_v1/api.go: the handlers of the jobs, over any generator service and encoder.
pub mod Laws
pub mod Archive
use agreements_generator_api.Prelude.{
  ℕ, String, ◌==◌, List, [], ◌∷◌, Option, none, some, if◌then◌else◌,
}
use agreements_generator_api.Effect.{Result, ok, fail, Proc}
use agreements_generator_api.Domain.Errors.{Err, app, wrapf, wrapv, internal, bad_request}
use agreements_generator_api.Domain.Generator.{Bytes, JobStatus, FilesErrors, status_text}
use agreements_generator_api.Dto.{new_get_archive_info_response}
use agreements_generator_api.Encoder.{
  Encoder, Object, bulk_generate_response, get_job_status_response, get_archive_info_response,
}
use agreements_generator_api.Service.{Generator}
use agreements_generator_api.Api.{Request, ResponseWriter, Handler}
use agreements_generator_api.Api.Response.{write_error, write_response, response_json, response_zip}

module _ (encoder : Encoder) where
  -- `Marshal` of the response, and its answer.
  abbrev pub write_marshalled : Result Bytes → ResponseWriter → ResponseWriter
  write_marshalled (ok bytes) w = write_response encoder bytes response_json w
  write_marshalled (fail e) w =
      write_error encoder (wrapv "failed to encode response body" e (app internal)) w

  abbrev pub write_object : Object → ResponseWriter → ResponseWriter
  write_object object w = write_marshalled (encoder.marshal object) w

  unfoldable pub handle_health_check : {W : Type 0} → Handler W
  handle_health_check r w s = (write_response encoder (some (b'O' ∷ b'K' ∷ [])) response_json w, s)

  module _ {A : Type 0} where
    -- `if err != nil { writeError }`, else what the handler writes.
    abbrev pub answer :
        (A → ResponseWriter → ResponseWriter) → Result A → ResponseWriter → ResponseWriter
    answer good (ok a) w = good a w
    answer good (fail e) w = write_error encoder e w

  module _ {W : Type 0} (service : Generator W) where
    abbrev handle_bulk_generate_body : Result (List ℕ) → Handler W
    handle_bulk_generate_body (fail e) r w s = (write_error encoder e w, s)
    handle_bulk_generate_body (ok bytes) r w s =
        let (result, s') = service.bulk_generate r.ctx (some bytes) s in
        (
          answer (λ job_id. write_object (bulk_generate_response (record { job_id = job_id })))
              result w,
          s',
        )

    unfoldable pub handle_bulk_generate : Handler W
    handle_bulk_generate r w s = handle_bulk_generate_body r.body r w s

    abbrev empty_id : Err
    empty_id = wrapf "query parameter ID is empty" (app bad_request)

    module _ {A : Type 0} where
      -- The three handlers that take an id: the test of the id, the call, the answer.
      abbrev with_id :
          (String → Proc W A) → (String → A → ResponseWriter → ResponseWriter) → Handler W
      with_id call good r w s =
          if r.id == ""
          then (write_error encoder empty_id w, s)
          else let (result, s') = call r.id s in (answer (good r.id) result w, s')

    unfoldable pub handle_get_job_status : Handler W
    handle_get_job_status = with_id service.check_job_status λ id status.
        write_object (get_job_status_response (record { job_id = id; status = status_text status }))

    unfoldable pub handle_get_archive : Handler W
    handle_get_archive =
        with_id service.get_archive λ id archive. write_response encoder archive response_zip

    unfoldable pub handle_get_archive_info : Handler W
    handle_get_archive_info = with_id service.get_archive_info λ id info.
        write_object (get_archive_info_response (new_get_archive_info_response info.0 info.1))
