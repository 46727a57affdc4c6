-- ===== src/Encoder.antt =====
-- internal/encoder: the encoder's interface. The one implementation hands its arguments to
-- encoding/json, so `Marshal` and `Unmarshal` are parameters, `Unmarshal` one for each type of
-- target. `Object` has the types that the program marshals.
use agreements_generator_api.Prelude.{ℕ, String}
use agreements_generator_api.Prelude.Dict.{Dict}
use agreements_generator_api.Effect.{Result}
use agreements_generator_api.Domain.Generator.{Bytes}
use agreements_generator_api.Dto.{
  ErrorResponse, BulkGenerateResponse, GetJobStatusResponse, GetArchiveInfoResponse,
  RegisterRequest, LogInRequest, AuthResponse,
}

-- `UserClaims` of internal/token_manager/jwt.go
pub record UserClaims : Type 0 where
  pub login : String
  pub id : ℕ

-- A value in a jwt.MapClaims; `numeric_date` is a *jwt.NumericDate, in seconds.
pub data ClaimValue : Type 0 where
  text : String → ClaimValue
  number : ℕ → ClaimValue
  numeric_date : ℕ → ClaimValue

abbrev pub MapClaims : Type 0
MapClaims = Dict ClaimValue

-- `user` of internal/api/api_v1/middleware.go
pub record TokenUser : Type 0 where
  pub id : ℕ
  pub login : String

pub data Object : Type 0 where
  user_claims : UserClaims → Object
  map_claims : MapClaims → Object
  error_response : ErrorResponse → Object
  bulk_generate_response : BulkGenerateResponse → Object
  get_job_status_response : GetJobStatusResponse → Object
  get_archive_info_response : GetArchiveInfoResponse → Object
  auth_response : AuthResponse → Object

pub record Encoder : Type 0 where
  pub marshal : Object → Result Bytes
  pub unmarshal_claims : Bytes → Result MapClaims
  pub unmarshal_user : Bytes → Result TokenUser
  pub unmarshal_register : Bytes → Result RegisterRequest
  pub unmarshal_log_in : Bytes → Result LogInRequest
