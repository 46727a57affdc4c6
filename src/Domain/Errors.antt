-- ===== src/Domain/Errors.antt =====
-- internal/domain/errors.go: the application's error values, and Go's error chains. A Go `error`
-- is a value of `Err`, nil is left to `Option Err` and `Result`.
use agreements_generator_api.Prelude.{ℕ, String, ◌<>◌, Option, none, some}

-- `AppErr`, all fields but `Err`.
pub record AppErr : Type 0 where
  pub msg : String
  pub http_status : ℕ
  pub code : ℕ

-- `app` is an `*AppErr` whose `Err` is nil, `app_over` one with an `Err`. `errorf text e` is the
-- value of `fmt.Errorf` with the formatted text and the operand of its one `%w`. `no_rows` is
-- pgx.ErrNoRows, `pg_error` a *pgconn.PgError with its code and text, `foreign` any other error
-- that holds no other.
pub data Err : Type 0 where
  app : AppErr → Err
  app_over : AppErr → Err → Err
  errorf : String → Err → Err
  no_rows : Err
  pg_error : String → String → Err
  foreign : String → Err

-- `Error()`
unfoldable pub error_text : Err → String
error_text (app a) = a.msg
error_text (app_over a e) = a.msg
error_text (errorf text e) = text
error_text no_rows = "no rows in result set"
error_text (pg_error code text) = text
error_text (foreign text) = text

-- `errors.AsType[*domain.AppErr]`: the first in the chain.
unfoldable pub as_app_err : Err → Option AppErr
as_app_err (app a) = some a
as_app_err (app_over a e) = some a
as_app_err (errorf text e) = as_app_err e
as_app_err no_rows = none
as_app_err (pg_error code text) = none
as_app_err (foreign text) = none

-- `fmt.Errorf("what: %w", e)`
unfoldable pub wrapf : String → Err → Err
wrapf what e = errorf (what <> (": " <> error_text e)) e

-- `fmt.Errorf("what: %v, %w", cause, e)`
unfoldable pub wrapv : String → Err → Err → Err
wrapv what cause e = errorf (what <> (": " <> (error_text cause <> (", " <> error_text e)))) e

-- `fmt.Errorf("what: %v: %w", cause, e)`
unfoldable pub wrapvw : String → Err → Err → Err
wrapvw what cause e = errorf (what <> (": " <> (error_text cause <> (": " <> error_text e)))) e

abbrev pub internal : AppErr
internal = record { msg = "internal server error"; http_status = 500; code = 1000 }

abbrev pub bad_request : AppErr
bad_request = record { msg = "bad request"; http_status = 400; code = 1001 }

abbrev pub not_found : AppErr
not_found = record { msg = "source not found"; http_status = 404; code = 1003 }

abbrev pub conflict : AppErr
conflict = record { msg = "conflict"; http_status = 409; code = 1004 }

abbrev pub unprocessable_entity : AppErr
unprocessable_entity = record { msg = "unprocessable entity"; http_status = 422; code = 1007 }

abbrev pub unauthorized : AppErr
unauthorized = record { msg = "unauthorized"; http_status = 401; code = 1008 }

abbrev pub storage_bad_request : AppErr
storage_bad_request = record {
  msg = "error during storage request";
  http_status = 500;
  code = 1002;
}

abbrev pub wrong_signing_method : AppErr
wrong_signing_method = record { msg = "wrong signing method"; http_status = 401; code = 1005 }

abbrev pub invalid_token : AppErr
invalid_token = record { msg = "invalid or malformed token"; http_status = 401; code = 1006 }

abbrev pub gen_client : AppErr
gen_client = record { msg = "error during generation"; http_status = 500; code = 1009 }

abbrev pub job_not_finished : AppErr
job_not_finished = record { msg = "job not finished"; http_status = 400; code = 1010 }

abbrev pub hash_comparing : AppErr
hash_comparing = record { msg = "wrong login or password"; http_status = 401; code = 1011 }
