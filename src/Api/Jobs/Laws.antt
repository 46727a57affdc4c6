-- ===== src/Api/Jobs/Laws.antt =====
-- The statuses of the answers about jobs.
use agreements_generator_api.Prelude.{ℕ, ◌≡◌, ◌≢◌, ap, ◌∙◌, eq_iff, List, Option, none, some, arith}
use agreements_generator_api.Effect.{ok, error_of}
use agreements_generator_api.Domain.Errors.{Err}
use agreements_generator_api.Encoder.{Encoder}
use agreements_generator_api.Service.{Generator}
use agreements_generator_api.Api.{Request, ResponseWriter, Handler}
use agreements_generator_api.Api.Response.{write_error}
use agreements_generator_api.Api.Response.Laws.{error_status, write_error-sent}
use agreements_generator_api.Api.Jobs.{
  handle_bulk_generate, handle_get_job_status, handle_get_archive, handle_get_archive_info,
}

-- The routes about jobs, the call of the service that each makes, and its handler.
pub data Endpoint : Type 0 where
  bulk_generate get_job_status get_archive get_archive_info : Endpoint

module _ {W : Type 0} (service : Generator W) where
  -- The error of the service's call, and the state after it.
  abbrev pub serve : Endpoint → Request → List ℕ → W → Option Err × W
  serve bulk_generate r bytes s =
      let (result, s') = service.bulk_generate r.ctx (some bytes) s in (error_of result, s')
  serve get_job_status r bytes s =
      let (result, s') = service.check_job_status r.id s in (error_of result, s')
  serve get_archive r bytes s =
      let (result, s') = service.get_archive r.id s in (error_of result, s')
  serve get_archive_info r bytes s =
      let (result, s') = service.get_archive_info r.id s in (error_of result, s')

  abbrev pub handler : Encoder → Endpoint → Handler W
  handler enc bulk_generate = handle_bulk_generate enc service
  handler enc get_job_status = handle_get_job_status enc service
  handler enc get_archive = handle_get_archive enc service
  handler enc get_archive_info = handle_get_archive_info enc service

  handler_error :
      (enc : Encoder) (endpoint : Endpoint) (r : Request) (w : ResponseWriter) (s : W)
      (bytes : List ℕ) (e : Err)
      → r.body ≡ ok bytes
      → r.id ≢ ""
      → (serve endpoint r bytes s).0 ≡ some e
      → handler enc endpoint r w s ≡ (write_error enc e w, (serve endpoint r bytes s).1)
  unfolding handle_bulk_generate handle_get_job_status handle_get_archive handle_get_archive_info
  handler_error enc bulk_generate r w s bytes e body id h = ground arith
  handler_error enc get_job_status r w s bytes e body id h = ground (arith, eq_iff r.id "")
  handler_error enc get_archive r w s bytes e body id h = ground (arith, eq_iff r.id "")
  handler_error enc get_archive_info r w s bytes e body id h = ground (arith, eq_iff r.id "")

  -- An error of the service on any of the four routes is answered with the status of the first
  -- application error in its chain, or 500 where it has none, and the state is the service's. The
  -- request has a body that can be read, an id, and no answer yet.
  pub handler-error_status :
      (enc : Encoder) (endpoint : Endpoint) (r : Request) (w : ResponseWriter) (s : W)
      (bytes : List ℕ) (e : Err)
      → w.sent ≡ none
      → r.body ≡ ok bytes
      → r.id ≢ ""
      → (serve endpoint r bytes s).0 ≡ some e
      → let (w', s') = handler enc endpoint r w s in
        (w'.sent ≡ some (error_status e, w.content_type)) × (s' ≡ (serve endpoint r bytes s).1)
  handler-error_status enc endpoint r w s bytes e fresh body id h =
      let answered = handler_error enc endpoint r w s bytes e body id h in
      (ap (λ p. p.0.sent) answered ∙ write_error-sent enc e w fresh, ap (λ p. p.1) answered)
