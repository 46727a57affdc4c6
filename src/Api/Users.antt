-- ===== src/Api/Users.antt =====
-- internal/api/api_v1/auth.go: the handlers of registration and login.
pub mod Login
use agreements_generator_api.Prelude.{ℕ, String, List, some}
use agreements_generator_api.Effect.{Result, ok, fail, Proc}
use agreements_generator_api.Domain.Errors.{app, wrapv, internal, unprocessable_entity}
use agreements_generator_api.Domain.Generator.{Bytes}
use agreements_generator_api.Encoder.{Encoder, auth_response}
use agreements_generator_api.Service.Auth.{Auth}
use agreements_generator_api.Api.{ResponseWriter, Handler}
use agreements_generator_api.Api.Response.{write_error, write_response, response_json}

module _ (encoder : Encoder) where
  abbrev write_token_bytes : Result Bytes → ResponseWriter → ResponseWriter
  write_token_bytes (ok bytes) w = write_response encoder bytes response_json w
  write_token_bytes (fail e) w =
      write_error encoder (wrapv "can't marshal response body" e (app internal)) w

  abbrev write_token : Result String → ResponseWriter → ResponseWriter
  write_token (ok token) w =
      write_token_bytes (encoder.marshal (auth_response (record { token = token }))) w
  write_token (fail e) w = write_error encoder e w

  module _ {A W : Type 0} (unmarshal : Bytes → Result A) (call : A → Proc W String) where
    abbrev on_parsed : Result A → Handler W
    on_parsed (fail e) r w s =
        (write_error encoder (wrapv "can't parse request body" e (app unprocessable_entity)) w, s)
    on_parsed (ok a) r w s = let (result, s') = call a s in (write_token result w, s')

    abbrev on_body : Result (List ℕ) → Handler W
    on_body (fail e) r w s =
        (write_error encoder (wrapv "can't read request body" e (app internal)) w, s)
    on_body (ok bytes) r w s = on_parsed (unmarshal (some bytes)) r w s

  module _ {W : Type 0} (service : Auth W) where
    unfoldable pub handle_register : Handler W
    handle_register r w s = on_body encoder.unmarshal_register service.register r.body r w s

    unfoldable pub handle_log_in : Handler W
    handle_log_in r w s = on_body encoder.unmarshal_log_in service.log_in r.body r w s
