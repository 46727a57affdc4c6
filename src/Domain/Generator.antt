-- ===== src/Domain/Generator.antt =====
-- internal/domain/generator.go: jobs, their states, users, the generator's response.
use agreements_generator_api.Prelude.{ℕ, String, ◌<>◌, List, Option, ◌==◌, if◌then◌else◌}
use agreements_generator_api.Domain.Errors.{app, errorf, error_text, internal}
use agreements_generator_api.Effect.{Result, ok, fail}

-- `[]byte`: nil is `none`.
abbrev pub Bytes : Type 0
Bytes = Option (List ℕ)

pub data JobStatus : Type 0 where
  processing completed failed : JobStatus

pub record Job : Type 0 where
  pub id : String
  pub status : JobStatus

-- `string(status)`
unfoldable pub status_text : JobStatus → String
status_text processing = "processing"
status_text completed = "completed"
status_text failed = "failed"

-- `JobStatusFromString`
unfoldable pub job_status_from_string : String → Result JobStatus
unfolding status_text
job_status_from_string status =
    if status == status_text processing
    then ok processing
    else if status == status_text completed
    then ok completed
    else if status == status_text failed
    then ok failed
    else fail (
        errorf ("unknown job status: " <> (status <> ("; " <> error_text (app internal))))
          (app internal))

pub record User : Type 0 where
  pub name : String
  pub login : String
  pub password : Bytes

-- `Code` and `Msg`; a Go `int` is its 64-bit pattern.
pub record FileError : Type 0 where
  pub code : ℕ
  pub msg : String

pub record FilesErrors : Type 0 where
  pub name : String
  pub errors : List FileError

pub record GenResponse : Type 0 where
  pub archive : Bytes
  pub errors : List FilesErrors
  pub gen_count : ℕ
