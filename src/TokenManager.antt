-- ===== src/TokenManager.antt =====
-- internal/token_manager/jwt.go. The JWT library and the clock are parameters; a time, and the
-- lifetime `ttl`, is a number of nanoseconds, as in package time.
pub mod RoundTrip
use agreements_generator_api.Prelude.{ℕ, ◌+◌, String, ◌==◌, ◌≡◌, Bool, true, false, if◌then◌else◌}
use agreements_generator_api.Prelude.Dict.{insert}
use agreements_generator_api.Effect.{
  Result, ok, fail, Proc, raise, lift, on_error, on_second, ◌>>=◌, ◌>>◌,
}
use agreements_generator_api.Domain.Errors.{
  Err, app, wrapv, internal, invalid_token, wrong_signing_method,
}
use agreements_generator_api.Encoder.{
  Encoder, UserClaims, TokenUser, MapClaims, user_claims, map_claims, numeric_date,
}

pub data SigningMethod : Type 0 where
  es256 hs256 rs256 : SigningMethod

-- `method.Alg()`
unfoldable pub alg : SigningMethod → String
alg es256 = "ES256"
alg hs256 = "HS256"
alg rs256 = "RS256"

-- `*jwt.Token`: what of a parsed token is read.
pub record Token : Type 0 where
  pub claims : MapClaims
  pub is_valid : Bool

-- `jwt.NewNumericDate`, from a time in nanoseconds to the seconds that the date is written as;
-- `token.SignedString(secret)` of `NewWithClaims(method, claims)`; and `jwt.Parse(token, keyFunc)`,
-- which calls the key function with the algorithm in the token's header and reads the time.
pub record Jwt : Type 0 where
  pub new_numeric_date : ℕ → ℕ
  pub signed_string : SigningMethod → MapClaims → String → Result String
  pub parse : String → (String → Result String) → ℕ → Result Token

-- `TokenManager`, over the state `S` that the clock is a part of.
pub record TokenManager (S : Type 0) : Type 0 where
  pub create : UserClaims → Proc S String
  pub validate : String → Proc S (Unit {0})
  pub parse : String → Proc S TokenUser
  pub get_prefix : String

-- `New`: the choice of the method.
unfoldable pub method_of : String → SigningMethod
method_of name =
    if name == "ES256"
    then es256
    else if name == "HS256"
    then hs256
    else if name == "RS256"
    then rs256
    else hs256

module _ {S : Type 0} (jwt : Jwt) (encoder : Encoder) (clock : S → ℕ × S) (ttl : ℕ)
    (signing_method : SigningMethod) (secret prefix : String) where
  -- `time.Now()`
  abbrev time_now : Proc S ℕ
  time_now s = let (t, s') = clock s in (ok t, s')

  -- `createKeyFunc`
  unfoldable pub key_func : String → Result String
  key_func token_alg =
      if token_alg == alg signing_method then ok secret else fail (app wrong_signing_method)

  unfoldable pub create : UserClaims → Proc S String
  create user = do
    bytes ←
        on_error (λ e. wrapv "can't marshal data" e (app internal))
          (lift (encoder.marshal (user_claims user)))
    claims ←
        on_error (λ e. wrapv "can't unmarshal data" e (app internal))
          (lift (encoder.unmarshal_claims bytes))
    issued ← time_now
    started ← time_now
    on_error (λ e. wrapv "can't sign token" e (app internal))
        (lift (
          jwt.signed_string signing_method
            (insert "exp" (numeric_date (jwt.new_numeric_date (started + ttl)))
              (insert "iat" (numeric_date (jwt.new_numeric_date issued)) claims))
            secret))

  abbrev parse_token : String → Proc S Token
  parse_token token_string = do
    now ← time_now
    on_error (λ e. wrapv "invalid token" e (app invalid_token))
        (lift (jwt.parse token_string key_func now))

  unfoldable pub validate : String → Proc S (Unit {0})
  unfolding key_func
  validate token_string = do parse_token token_string; lift (ok tt)

  unfoldable pub parse : String → Proc S TokenUser
  unfolding key_func
  parse token_string = do
    token ← parse_token token_string
    if token.is_valid then lift (ok tt) else raise (app invalid_token)
    bytes ← lift (encoder.marshal (map_claims token.claims))
    on_error (λ e. wrapv "invalid token" e (app invalid_token))
        (lift (encoder.unmarshal_user bytes))

  -- `New`
  abbrev pub token_maker : TokenManager S
  token_maker = record { create = create; validate = validate; parse = parse; get_prefix = prefix }

-- A token manager whose clock stands beside another component's state.
abbrev pub tokens_beside : {S T : Type 0} → TokenManager T → TokenManager (S × T)
tokens_beside tm = record {
  create = λ user. on_second (tm.create user);
  validate = λ token. on_second (tm.validate token);
  parse = λ token. on_second (tm.parse token);
  get_prefix = tm.get_prefix;
}
