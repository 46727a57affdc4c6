-- ===== src/Api/Response/Laws.antt =====
-- The status line of an answer.
use agreements_generator_api.Prelude.{ℕ, ◌≡◌, refl, ap, ◌∙◌, String, Option, none, some, arith}
use agreements_generator_api.Domain.Errors.{
  Err, app, app_over, errorf, no_rows, pg_error, foreign, as_app_err,
}
use agreements_generator_api.Domain.Generator.{Bytes}
use agreements_generator_api.Encoder.{Encoder}
use agreements_generator_api.Api.{ResponseWriter, write_header, write}
use agreements_generator_api.Api.Response.{shown, after_write, write_error, write_response}

-- The status of the first application error in a chain, 500 where there is none.
unfoldable pub error_status : Err → ℕ
error_status (app a) = a.http_status
error_status (app_over a e) = a.http_status
error_status (errorf text e) = error_status e
error_status no_rows = 500
error_status (pg_error code text) = 500
error_status (foreign text) = 500

shown-http_status : (e : Err) → (shown (as_app_err e)).http_status ≡ error_status e
unfolding shown as_app_err error_status
shown-http_status (app a) = refl
shown-http_status (app_over a e) = refl
shown-http_status (errorf text e) = shown-http_status e
shown-http_status no_rows = refl
shown-http_status (pg_error code text) = refl
shown-http_status (foreign text) = refl

pub write-sent :
    (bytes : Bytes) (w : ResponseWriter) (status : ℕ) (t : Option String)
    → w.sent ≡ some (status, t)
    → (write bytes w).1.sent ≡ some (status, t)
unfolding write write_header
write-sent bytes w status t e = ground arith

write_header-sent :
    (status : ℕ) (w : ResponseWriter)
    → w.sent ≡ none
    → (write_header status w).sent ≡ some (status, w.content_type)
unfolding write_header
write_header-sent status w e = ground arith

write_header-sent_again :
    (again : ℕ) (w : ResponseWriter) (status : ℕ) (t : Option String)
    → w.sent ≡ some (status, t)
    → (write_header again w).sent ≡ some (status, t)
unfolding write_header
write_header-sent_again again w status t e = ground arith

write-sent_fresh :
    (bytes : Bytes) (w : ResponseWriter)
    → w.sent ≡ none
    → (write bytes w).1.sent ≡ some (200, w.content_type)
unfolding write write_header
write-sent_fresh bytes w e = ground arith

pub write_error-sent :
    (enc : Encoder) (e : Err) (w : ResponseWriter)
    → w.sent ≡ none
    → (write_error enc e w).sent ≡ some (error_status e, w.content_type)
unfolding write_error
write_error-sent enc e w fresh =
    write-sent _ _ _ _ (write_header-sent _ w fresh)
    ∙ ap (λ status. some (status, w.content_type)) (shown-http_status e)

pub write_error-sent_again :
    (enc : Encoder) (e : Err) (w : ResponseWriter) (status : ℕ) (t : Option String)
    → w.sent ≡ some (status, t)
    → (write_error enc e w).sent ≡ some (status, t)
unfolding write_error
write_error-sent_again enc e w status t old =
    write-sent _ _ _ _ (write_header-sent_again _ w status t old)

after_write-sent :
    (enc : Encoder) (err : Option Err) (w : ResponseWriter) (status : ℕ) (t : Option String)
    → w.sent ≡ some (status, t)
    → (after_write enc err w).sent ≡ some (status, t)
after_write-sent enc none w status t e = e
after_write-sent enc (some x) w status t e = write_error-sent_again enc _ w status t e

-- An answer with a body has the status 200 and the body's type, also where the write of the body
-- fails: the error that is then written comes after the status line, and cannot change it.
pub write_response-sent :
    (enc : Encoder) (response : Bytes) (response_type : String) (w : ResponseWriter)
    → w.sent ≡ none
    → (write_response enc response response_type w).sent ≡ some (200, some response_type)
unfolding write_response
write_response-sent enc response response_type w fresh =
    after_write-sent enc _ _ 200 (some response_type)
      (write-sent_fresh response (record w { content_type = some response_type }) fresh)
