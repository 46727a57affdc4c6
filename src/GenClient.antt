-- ===== src/GenClient.antt =====
-- internal/gen_client/client.go: the gRPC client, and the two unbuffered channels on which it hands
-- its outcome to the job that waits for it. The stub `generator.GeneratorClient` is generated from
-- proto/generator/generator.proto: its call is a parameter, its messages are records here.
pub mod Handover
pub mod Bounds
use agreements_generator_api.Prelude.{
  ℕ, ◌+◌, ◌-◌, ◌^◌, String, List, [], ◌∷◌, map, Option, none, some, ltb, if◌then◌else◌,
}
use agreements_generator_api.Effect.{Result, ok, fail, Proc}
use agreements_generator_api.Domain.Errors.{Err, app, wrapv, gen_client}
use agreements_generator_api.Domain.Generator.{Bytes, FileError, FilesErrors, GenResponse}

-- The messages of the protocol; an int32 is its 32-bit pattern.
pub record ProtoFileError : Type 0 where
  pub code : ℕ
  pub message : String

pub record ProtoFileErrors : Type 0 where
  pub file_name : String
  pub errors : List ProtoFileError

pub record GenerateResponse : Type 0 where
  pub zip_archive : Bytes
  pub errors : List ProtoFileErrors
  pub generated_count : ℕ

-- A send on `errChan` or on `responseChan`.
pub data Send : Type 0 where
  send_error : Option Err → Send
  send_response : GenResponse → Send

-- `GeneratorClient`: what a call of `BulkGenerate` sends, in order, until it returns.
pub record GeneratorClient (S : Type 0) : Type 0 where
  pub bulk_generate : Bytes → S → List Send × S
  pub close : Proc S (Unit {0})

-- `int(x)` of an int32: the sign is extended to 64 bits.
unfoldable pub int_of_int32 : ℕ → ℕ
int_of_int32 x = if ltb x (2 ^ 31) then x else x + (2 ^ 64 - 2 ^ 32)

-- The two loops over the response's errors.
unfoldable pub file_error : ProtoFileError → FileError
file_error e = record { msg = e.message; code = int_of_int32 e.code }

unfoldable pub files_errors : ProtoFileErrors → FilesErrors
files_errors file = record { name = file.file_name; errors = map file_error file.errors }

unfoldable pub convert : GenerateResponse → GenResponse
convert response = record {
  archive = response.zip_archive;
  gen_count = int_of_int32 response.generated_count;
  errors = map files_errors response.errors;
}

-- `&domain.GenResponse{}`
abbrev pub empty_response : GenResponse
empty_response = record { archive = none; errors = []; gen_count = 0 }

unfoldable pub sends : Result GenerateResponse → List Send
sends (fail e) =
    send_error (some (wrapv "can't get grpcs response" e (app gen_client)))
    ∷ send_response empty_response
    ∷ []
sends (ok response) = send_error none ∷ send_response (convert response) ∷ []

module _ {S : Type 0} (generate : Bytes → Proc S GenerateResponse)
    (conn_close : Proc S (Unit {0})) where
  unfoldable pub bulk_generate : Bytes → S → List Send × S
  bulk_generate archive s = let (r, s') = generate archive s in (sends r, s')

  unfoldable pub close : Proc S (Unit {0})
  close = conn_close

  -- `New`
  abbrev pub client : GeneratorClient S
  client = record { bulk_generate = bulk_generate; close = close }
