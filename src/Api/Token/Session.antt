-- ===== src/Api/Token/Session.antt =====
-- From the registration to the handlers: the token of a registration gets its user past `MWAuth`.
use agreements_generator_api.Prelude.{ℕ, ◌<◌, ◌≡◌, String}
use agreements_generator_api.Effect.{ok}
use agreements_generator_api.Dto.{RegisterRequest}
use agreements_generator_api.Encoder.{Encoder, UserClaims, TokenUser}
use agreements_generator_api.Storage.Memory.{MemoryStorage}
use agreements_generator_api.Hasher.{Hasher}
use agreements_generator_api.TokenManager.{
  SigningMethod, Jwt, TokenManager, token_maker, tokens_beside,
}
use agreements_generator_api.TokenManager.RoundTrip.{IsEncoder, IsJwt, expiry_at, parse-create}
use agreements_generator_api.Service.Auth.Laws.{register_memory, register-Registered}
use agreements_generator_api.Api.{Request, ResponseWriter, Handler}
use agreements_generator_api.Api.Token.{mw_auth}
use agreements_generator_api.Service.{string_value, int_value}
use agreements_generator_api.Api.Token.Laws.{NoSpace, authorized, mw_auth-authorized}

module _ {T : Type 0} (jwt : Jwt) (encoder : Encoder) (clock : T → ℕ × T) (ttl : ℕ)
    (signing_method : SigningMethod) (secret prefix : String) (hasher : Hasher)
    (min_password_len : ℕ) where
  abbrev pub tm : TokenManager T
  tm = token_maker jwt encoder clock ttl signing_method secret prefix

  -- The user of the token that a registration in the storage `m` gives.
  abbrev pub token_user : RegisterRequest → MemoryStorage → TokenUser
  token_user user m = record { id = m.user_id_increment; login = user.login }

  -- Whoever registers gets in: a request with the token of a registration in its header, at a time
  -- before the token's expiry, is handed on by `MWAuth` with the id that the storage gave the user
  -- and the user's login in its context, whatever has become of the storage meanwhile. The token
  -- has no white space, and the clock shows such a time at both of its readings.
  pub mw_auth-register :
      (header_alg : String → String) (user : RegisterRequest) (m m' : MemoryStorage) (t later : T)
      (token : String) (next : Handler (MemoryStorage × T)) (r : Request) (w : ResponseWriter)
      → (register_memory tm hasher min_password_len user (m, t)).0 ≡ ok token
      → IsEncoder encoder (record { login = user.login; id = m.user_id_increment })
      → IsJwt jwt encoder header_alg
      → NoSpace token
      → (clock later).0 < expiry_at jwt encoder clock ttl signing_method secret prefix t
      → (clock (tm.validate token later).1).0
        < expiry_at jwt encoder clock ttl signing_method secret prefix t
      → mw_auth (tokens_beside tm) encoder next (authorized prefix token r) w (m', later)
        ≡ next
            (record (authorized prefix token r) {
              ctx = record {
                login = string_value user.login;
                user_id = int_value m.user_id_increment;
              };
            })
            w
            (m', (tm.parse token (tm.validate token later).1).1)
  mw_auth-register header_alg user m m' t later token next r w h json lib spaceless before still =
      let made = register-Registered tm hasher min_password_len user m t token h in
      let claims : UserClaims = record { login = user.login; id = m.user_id_increment } in
      let accepted =
        parse-create jwt encoder clock ttl signing_method secret prefix header_alg claims t later
          token json lib made.signed before in
      let read =
        parse-create jwt encoder clock ttl signing_method secret prefix header_alg claims t
          (tm.validate token later).1 token json lib made.signed still in
      mw_auth-authorized (tokens_beside tm) encoder next r w (m', later) token (token_user user m)
        spaceless accepted.0 read.1
