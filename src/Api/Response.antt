-- ===== src/Api/Response.antt =====
-- internal/api/api_v1/api.go: `writeResponse` and `writeError`.
pub mod Laws
use agreements_generator_api.Prelude.{String, Option, none, some}
use agreements_generator_api.Effect.{Result, ok, fail}
use agreements_generator_api.Domain.Errors.{Err, AppErr, app, as_app_err, wrapv, internal}
use agreements_generator_api.Domain.Generator.{Bytes}
use agreements_generator_api.Encoder.{Encoder, error_response}
use agreements_generator_api.Api.{ResponseWriter, write_header, write}

-- `responseBytes, encodeErr := enc.Marshal(body)`: nil on an error, which is only logged.
abbrev bytes_or_nil : Result Bytes → Bytes
bytes_or_nil (ok bytes) = bytes
bytes_or_nil (fail e) = none

-- `appErr, ok := errors.AsType(err)`, and `domain.ErrInternal` where not `ok`.
unfoldable pub shown : Option AppErr → AppErr
shown none = internal
shown (some a) = a

unfoldable pub write_error : Encoder → Err → ResponseWriter → ResponseWriter
unfolding shown
write_error enc err w =
    let a = shown (as_app_err err) in
    let w' = write_header a.http_status w in
    (write (bytes_or_nil (enc.marshal (error_response (record { details = a.msg })))) w').1

abbrev after_write : Encoder → Option Err → ResponseWriter → ResponseWriter
after_write enc none w = w
after_write enc (some e) w =
    write_error enc (wrapv "failed to write response body" e (app internal)) w

unfoldable pub write_response : Encoder → Bytes → String → ResponseWriter → ResponseWriter
write_response enc response response_type w =
    let (err, w') = write response (record w { content_type = some response_type }) in
    after_write enc err w'

abbrev pub response_json : String
response_json = "application/json"

abbrev pub response_zip : String
response_zip = "application/zip"
