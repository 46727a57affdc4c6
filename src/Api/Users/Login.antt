-- ===== src/Api/Users/Login.antt =====
-- The status of /auth/login over the in-memory storage, as a table over what is
-- stored of the user.
use agreements_generator_api.Prelude.{
  ℕ, ◌≡◌, refl, ◌∙◌, String, Option, none, some, Option-cases, inl, inr, List,
}
use agreements_generator_api.Prelude.Dict.{lookup}
use agreements_generator_api.Effect.{Result, ok, fail, map_error}
use agreements_generator_api.Domain.Errors.{Err, wrapf, wrapv}
use agreements_generator_api.Domain.Generator.{Bytes}
use agreements_generator_api.Dto.{LogInRequest}
use agreements_generator_api.Encoder.{Encoder, auth_response}
use agreements_generator_api.Storage.{users_beside}
use agreements_generator_api.Storage.Memory.{MemoryStorage, UserData, memory_user_storage}
use agreements_generator_api.Storage.Memory as Memory
use agreements_generator_api.Hasher.{bcrypt_hasher, compare}
use agreements_generator_api.TokenManager.{TokenManager, tokens_beside}
use agreements_generator_api.Service.Auth.{Auth, auth_service, log_in}
use agreements_generator_api.Api.{Request, ResponseWriter}
use agreements_generator_api.Api.Response.{response_json}
use agreements_generator_api.Api.Response.Laws.{error_status, write_error-sent, write_response-sent}
use agreements_generator_api.Api.Measure.{status_of}
use agreements_generator_api.Api.Users.{handle_log_in, write_token, write_token_bytes}

module _ (encoder : Encoder) where
  -- 200 for a token, where the body of the answer can be made.
  abbrev pub body_code : Result Bytes → ℕ
  body_code (ok bytes) = 200
  body_code (fail e) = 500

  abbrev pub token_code : Result String → ℕ
  token_code (ok token) = body_code (encoder.marshal (auth_response (record { token = token })))
  token_code (fail e) = error_status e

  write_token_bytes-status :
      (r : Result Bytes) (w : ResponseWriter)
      → w.sent ≡ none
      → status_of (write_token_bytes encoder r w) ≡ body_code r
  unfolding status_of error_status wrapv
  write_token_bytes-status (ok bytes) w fresh =
      rw (write_response-sent encoder bytes response_json w fresh) refl
  write_token_bytes-status (fail e) w fresh = rw (write_error-sent encoder _ w fresh) refl

  write_token-status :
      (r : Result String) (w : ResponseWriter)
      → w.sent ≡ none
      → status_of (write_token encoder r w) ≡ token_code r
  unfolding status_of
  write_token-status (ok token) w fresh =
      write_token_bytes-status (encoder.marshal (auth_response (record { token = token }))) w fresh
  write_token-status (fail e) w fresh = rw (write_error-sent encoder e w fresh) refl

-- A prefix of the message leaves the status.
error_status-wrapf : (text : String) (e : Err) → error_status (wrapf text e) ≡ error_status e
unfolding error_status wrapf
error_status-wrapf text e = refl

module _ {T : Type 0} (tm : TokenManager T) (generate : String → ℕ → Result Bytes)
    (compare_hash : Bytes → String → Option Err) (cost min_password_len : ℕ)
    (encoder : Encoder) where
  abbrev service : Auth (MemoryStorage × T)
  service =
      auth_service (users_beside memory_user_storage) (tokens_beside tm)
        (bcrypt_hasher generate compare_hash cost) min_password_len

  -- 401 where the password does not fit, else the answer to what the token manager creates.
  abbrev pub compared_code : Option Err → Result String → ℕ
  compared_code none signed = token_code encoder signed
  compared_code (some e) signed = 401

  -- 404 for a login that nobody has.
  abbrev pub log_in_code : Option UserData → LogInRequest → T → ℕ
  log_in_code none body t = 404
  log_in_code (some d) body t =
      compared_code (compare_hash d.password_hash body.password)
        (tm.create (record { login = body.login; id = d.id }) t).0

  create_code :
      (text : String) (r : Result String)
      → token_code encoder (map_error (wrapf text) r) ≡ token_code encoder r
  unfolding error_status wrapf
  create_code text (ok token) = refl
  create_code text (fail e) = refl

  log_in-code :
      (body : LogInRequest) (m : MemoryStorage) (t : T)
      → let (r, s) = service.log_in body (m, t) in
        (token_code encoder r ≡ log_in_code (lookup body.login m.users) body t) × (s.0 ≡ m)
  unfolding log_in Memory.log_in compare error_status wrapf wrapv
  log_in-code body m t = elim (Option-cases (lookup body.login m.users)) [
    | inl e ↦ rw (log_in, Memory.log_in, e) (refl, refl)
    | inr (d, e) ↦ elim (Option-cases (compare_hash d.password_hash body.password)) [
      | inr (x, f) ↦ rw (log_in, Memory.log_in, e, compare, f) (refl, refl)
      | inl f ↦
          rw (log_in, Memory.log_in, e, compare, f)
            (create_code _ (tm.create (record { login = body.login; id = d.id }) t).0, refl)
    ]
  ]

  -- The login over the in-memory storage with bcrypt, for a body that can be parsed and a request
  -- without an answer yet: 404 for a login that is not stored, 401 where bcrypt does not accept the
  -- password for the stored hash, and otherwise the status of the token manager's error, or 200 with
  -- the token, 500 if it cannot be encoded. It changes no storage.
  pub handle_log_in-code :
      (r : Request) (w : ResponseWriter) (m : MemoryStorage) (t : T) (bytes : List ℕ)
      (body : LogInRequest)
      → w.sent ≡ none
      → r.body ≡ ok bytes
      → encoder.unmarshal_log_in (some bytes) ≡ ok body
      → let (w', s') = handle_log_in encoder service r w (m, t) in
        (status_of w' ≡ log_in_code (lookup body.login m.users) body t) × (s'.0 ≡ m)
  unfolding handle_log_in
  handle_log_in-code r w m t bytes body fresh read parsed =
      let (code, same) = log_in-code body m t in
      rw (read, parsed)
        (write_token-status encoder (service.log_in body (m, t)).0 w fresh ∙ code, same)
