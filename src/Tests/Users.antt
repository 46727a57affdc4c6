-- ===== src/Tests/Users.antt =====
-- Users: registration, login and tokens, with a hasher, an encoder and a JWT library made up for
-- the tests.
use agreements_generator_api.Prelude.{
  ℕ, ◌≡◌, refl, sym, ◌∙◌, ap, String, [], ◌∷◌, none, some, arith, true, ◌<>◌,
}
use Prim.Native.Nat.{◌/◌}
use agreements_generator_api.Prelude.Dict.{lookup}
use agreements_generator_api.Effect.{Result, ok, fail, on_error}
use agreements_generator_api.Domain.Errors.{wrapf, foreign}
use agreements_generator_api.Domain.Generator.{User}
use agreements_generator_api.Dto.{RegisterRequest}
use agreements_generator_api.Encoder.{Encoder, UserClaims, text, number}
use agreements_generator_api.Storage.{users_beside}
use agreements_generator_api.Storage.Memory.{
  MemoryStorage, register, memory_user_storage, new_memory_storage,
}
use agreements_generator_api.Storage.Memory.Users.{
  HasUniqueIds, new_memory_storage-HasUniqueIds, register-HasUniqueIds,
}
use agreements_generator_api.Hasher.{Hasher}
use agreements_generator_api.TokenManager.{
  SigningMethod, hs256, alg, Token, Jwt, TokenManager, tokens_beside, token_maker, create, validate,
  parse,
}
use agreements_generator_api.TokenManager.RoundTrip.{
  IsEncoder, IsJwt, parse-create, validate-header_alg,
}
use agreements_generator_api.Service.Auth as Auth
use agreements_generator_api.Service.Auth.Laws.{IsHasher, log_in-register, register_memory}
use agreements_generator_api.Api.{ResponseWriter, Handler, fresh_writer}
use agreements_generator_api.Api.Token.{is_space, mw_auth}
use agreements_generator_api.Service.{string_value, int_value}
use agreements_generator_api.Api.Measure.{status_of}
use agreements_generator_api.Api.Users.{handle_log_in}
use agreements_generator_api.Api.Users.Login.{log_in_code, handle_log_in-code}
use agreements_generator_api.Service.Auth.{auth_service}
use agreements_generator_api.Hasher.{bcrypt_hasher}
use agreements_generator_api.Domain.Generator.{Bytes}
use agreements_generator_api.Dto.{LogInRequest}
use agreements_generator_api.Prelude.{Option}
use agreements_generator_api.Domain.Errors.{Err}
use agreements_generator_api.Api.Jobs.{handle_health_check}
use agreements_generator_api.Api.Token.Laws.{NoSpace, authorized}
use agreements_generator_api.Api.Token.Session.{mw_auth-register}
use agreements_generator_api.Tests.Fixtures.{no_jobs, one_job, request}

abbrev ann : User
ann = record { name = "Ann"; login = "ann"; password = some (1 ∷ []) }

abbrev empty : MemoryStorage
empty = new_memory_storage 300 5

register-HasUniqueIds_example : HasUniqueIds (register ann empty).1
unfolding new_memory_storage
register-HasUniqueIds_example =
    register-HasUniqueIds ann empty (omega arith) (new_memory_storage-HasUniqueIds 300 5)

-- A hasher with one hash, an encoder that gives one answer to each call, and a library that signs
-- with HS256 only, always "t", and accepts what it has a key for.
abbrev hasher : Hasher
hasher = record { hash = λ s. ok (some []); compare = λ b s. none }

hasher-IsHasher : IsHasher hasher
hasher-IsHasher = record { compare-hash = λ s b h. refl }

abbrev claims : UserClaims
claims = record { login = "ann"; id = 0 }

abbrev pub encoder : Encoder
encoder = record {
  marshal = λ o. ok (some []);
  unmarshal_claims = λ b. ok (("Login", text "ann") ∷ ("ID", number 0) ∷ []);
  unmarshal_user = λ b. ok (record { id = 0; login = "ann" });
  unmarshal_register = λ b. fail (foreign "not json");
  unmarshal_log_in = λ b. fail (foreign "not json");
}

encoder-IsEncoder : IsEncoder encoder claims
encoder-IsEncoder = record {
  read_claims = λ b h. refl;
  marshal_claims = λ c. (some [], refl);
  read_user = λ c b only id login h. refl;
}

-- The key function's verdict on the one algorithm of the library.
abbrev accept : Result String → Result Token
accept (ok key) = ok (record { claims = []; is_valid = true })
accept (fail e) = fail e

abbrev sign : SigningMethod → Result String
sign hs256 = ok "t"
sign m = fail (foreign "key is of invalid type")

abbrev pub jwt : Jwt
jwt = record {
  new_numeric_date = λ t. t / 1000000000;
  signed_string = λ m c secret. sign m;
  parse = λ token key now. accept (key "HS256");
}

abbrev header_alg : String → String
header_alg token = "HS256"

sign-hs256 : (m : SigningMethod) (token : String) → sign m ≡ ok token → alg m ≡ "HS256"
unfolding alg
sign-hs256 m token h = ground arith

accept_key : (r : Result String) (t : Token) → accept r ≡ ok t → (k : String) × (r ≡ ok k)
accept_key (ok k) t h = (k, refl)
accept_key (fail e) t h = absurd (ground arith)

jwt-IsJwt : IsJwt jwt encoder header_alg
jwt-IsJwt = record {
  new_numeric_date-seconds = λ t. refl;
  header_alg-signed_string = λ m c secret token h. sym (sign-hs256 m token h);
  needs_key = λ token key now t h. accept_key (key "HS256") t h;
  parse-signed_string = λ m c secret token key now seconds h k e before.
      ([], ap accept (ap key (sym (sign-hs256 m token h)) ∙ k), refl);
}

-- The clock is a number of nanoseconds, and a token lives for a minute.
abbrev pub clock : ℕ → ℕ × ℕ
clock t = (t, t)

created_token : (create jwt encoder clock 60000000000 hs256 "secret" "Bearer" claims 10).0 ≡ ok "t"
unfolding create
created_token = refl

parse-create_example :
    ((validate jwt encoder clock 60000000000 hs256 "secret" "Bearer" "t" 69).0 ≡ ok tt)
    × ((parse jwt encoder clock 60000000000 hs256 "secret" "Bearer" "t" 69).0
        ≡ ok (record { id = 0; login = "ann" }))
parse-create_example =
    parse-create jwt encoder clock 60000000000 hs256 "secret" "Bearer" header_alg claims 10 69 "t"
      encoder-IsEncoder jwt-IsJwt created_token (omega arith)

validate-header_alg_example : header_alg "t" ≡ alg hs256
validate-header_alg_example =
    validate-header_alg jwt encoder clock 60000000000 hs256 "secret" "Bearer" header_alg "t" 69
      jwt-IsJwt parse-create_example.0

abbrev pub tm : TokenManager ℕ
tm = token_maker jwt encoder clock 60000000000 hs256 "secret" "Bearer"

abbrev form : RegisterRequest
form = record { name = "Ann"; login = "ann"; password = "longenough" }

registered : (register_memory tm hasher 8 form (no_jobs, 10)).0 ≡ ok "t"
unfolding Auth.register register create lookup
registered = refl

log_in-register_example :
    let s = (register_memory tm hasher 8 form (no_jobs, 10)).1 in
    ((tm.create claims 10).0 ≡ ok "t")
    × (Auth.log_in
          (users_beside memory_user_storage)
          (tokens_beside tm)
          hasher
          8
          (record { login = "ann"; password = "longenough" })
          s
        ≡ on_error
            (wrapf ("can't create token for user with login " <> "ann"))
            ((tokens_beside tm).create claims)
            s)
log_in-register_example = log_in-register tm hasher 8 form no_jobs 10 "t" hasher-IsHasher registered

encoder-IsEncoder_ann :
    IsEncoder encoder (record { login = form.login; id = no_jobs.user_id_increment })
encoder-IsEncoder_ann = encoder-IsEncoder

NoSpace-t : NoSpace "t"
unfolding is_space
NoSpace-t = (refl, tt)

abbrev writer : ResponseWriter
writer = fresh_writer []

abbrev greet : Handler (MemoryStorage × ℕ)
greet = handle_health_check encoder

mw_auth-register_example :
    mw_auth
      (tokens_beside tm)
      encoder
      greet
      (authorized "Bearer" "t" (request "j1"))
      writer
      (one_job, 30)
    ≡ greet
        (record (authorized "Bearer" "t" (request "j1")) {
          ctx = record { login = string_value "ann"; user_id = int_value 0 };
        })
        writer
        (one_job, 30)
unfolding validate alg parse
mw_auth-register_example =
    mw_auth-register jwt encoder clock 60000000000 hs256 "secret" "Bearer" hasher 8 header_alg form
      no_jobs one_job 10 30 "t" greet (request "j1") writer registered encoder-IsEncoder_ann
      jwt-IsJwt NoSpace-t (omega arith) (omega arith)

-- A login with a password that bcrypt does not accept.
abbrev log_in_body : LogInRequest
log_in_body = record { login = "ann"; password = "guess" }

abbrev reading : Encoder
reading = record encoder { unmarshal_log_in = λ b. ok log_in_body }

abbrev never : Bytes → String → Option Err
never hashed password =
    some (foreign "crypto/bcrypt: hashedPassword is not the hash of the given password")

handle_log_in-code_example :
    let service =
      auth_service
        (users_beside memory_user_storage)
        (tokens_beside tm)
        (bcrypt_hasher (λ plain cost. ok none) never 10)
        8 in
    let (w', s') =
      handle_log_in reading service (request "j1") writer ((register ann empty).1, 10) in
    (status_of w'
      ≡ log_in_code tm
          (λ plain cost. ok none)
          never
          10
          8
          reading
          (lookup "ann" (register ann empty).1.users)
          log_in_body
          10)
    × (s'.0 ≡ (register ann empty).1)
handle_log_in-code_example =
    handle_log_in-code tm (λ plain cost. ok none) never 10 8 reading (request "j1") writer
      (register ann empty).1 10 [] log_in_body refl refl refl
