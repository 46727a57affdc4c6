-- ===== src/Api.antt =====
-- internal/api/api_v1: requests, the writer of a response, and handlers over the state `W`.
pub mod Response
pub mod Jobs
pub mod Users
pub mod Token
pub mod Measure
pub mod Routes
use agreements_generator_api.Prelude.{ℕ, String, List, [], ◌∷◌, ◌++◌, Option, none, some}
use agreements_generator_api.Effect.{Result}
use agreements_generator_api.Domain.Errors.{Err}
use agreements_generator_api.Domain.Generator.{Bytes}
use agreements_generator_api.Service.{Context}

-- `*http.Request`: `id` is the query parameter of that name, `authorization` the header, "" where
-- missing; `body` is what `io.ReadAll` gives.
pub record Request : Type 0 where
  pub method : String
  pub path : String
  pub id : String
  pub authorization : String
  pub body : Result (List ℕ)
  pub ctx : Context

-- `http.ResponseWriter`: the header Content-Type, what went out with the status line, the body, and
-- how the next writes end (nil where the list is over).
pub record ResponseWriter : Type 0 where
  pub content_type : Option String
  pub sent : Option (ℕ × Option String)
  pub body : List ℕ
  pub faults : List (Option Err)

abbrev pub fresh_writer : List (Option Err) → ResponseWriter
fresh_writer faults = record { content_type = none; sent = none; body = []; faults = faults }

-- `WriteHeader`: only the first call counts.
abbrev send_header : Option (ℕ × Option String) → ℕ → ResponseWriter → ResponseWriter
send_header none status w = record w { sent = some (status, w.content_type) }
send_header (some _) status w = w

unfoldable pub write_header : ℕ → ResponseWriter → ResponseWriter
write_header status w = send_header w.sent status w

abbrev bytes_of : Bytes → List ℕ
bytes_of none = []
bytes_of (some bytes) = bytes

abbrev write_with : List (Option Err) → List ℕ → ResponseWriter → Option Err × ResponseWriter
write_with [] bytes w = (none, record w { body = w.body ++ bytes })
write_with (none ∷ faults) bytes w = (none, record w { body = w.body ++ bytes; faults = faults })
write_with (some e ∷ faults) bytes w = (some e, record w { faults = faults })

-- `Write`, which sends the status 200 first where none was sent.
unfoldable pub write : Bytes → ResponseWriter → Option Err × ResponseWriter
unfolding write_header
write bytes w = write_with w.faults (bytes_of bytes) (write_header 200 w)

abbrev pub Handler : Type 0 → Type 0
Handler W = Request → ResponseWriter → W → ResponseWriter × W
