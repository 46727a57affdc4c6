-- ===== src/Dto.antt =====
-- internal/dto/dto.go: the bodies of requests and responses.
use agreements_generator_api.Prelude.{ℕ, String, List, map}
use agreements_generator_api.Domain.Generator as Generator
use agreements_generator_api.Domain.Generator.{FileError}

pub record ErrorResponse : Type 0 where
  pub details : String

pub record BulkGenerateResponse : Type 0 where
  pub job_id : String

pub record GetJobStatusResponse : Type 0 where
  pub job_id : String
  pub status : String

pub record FilesErrors : Type 0 where
  pub file_name : String
  pub errors : List String

pub record GetArchiveInfoResponse : Type 0 where
  pub gen_errs : List FilesErrors
  pub gen_cnt : ℕ

pub record RegisterRequest : Type 0 where
  pub name : String
  pub login : String
  pub password : String

pub record LogInRequest : Type 0 where
  pub login : String
  pub password : String

pub record AuthResponse : Type 0 where
  pub token : String

-- The body of the outer loop; the inner loop keeps the messages.
unfoldable pub new_files_errors : Generator.FilesErrors → FilesErrors
new_files_errors file = record {
  file_name = file.name;
  errors = map (λ (e : FileError). e.msg) file.errors;
}

-- `NewGetArchiveInfoResponse`
unfoldable pub new_get_archive_info_response :
    List Generator.FilesErrors → ℕ → GetArchiveInfoResponse
new_get_archive_info_response grpc_errs gen_cnt = record {
  gen_errs = map new_files_errors grpc_errs;
  gen_cnt = gen_cnt;
}
