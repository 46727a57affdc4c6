-- ===== src/Service/Auth.antt =====
-- internal/service/auth.go, over any storage of users, hasher and token manager.
pub mod Laws
use agreements_generator_api.Prelude.{
  ℕ, String, ◌<>◌, ◌==◌, Bool, Option, none, some, ltb, if◌then◌else◌,
}
use agreements_generator_api.Effect.{Result, ok, fail, Proc, raise, lift, on_error, ◌>>=◌, ◌>>◌}
use agreements_generator_api.Domain.Errors.{Err, app, wrapf, bad_request}
use agreements_generator_api.Domain.Generator.{Bytes, User}
use agreements_generator_api.Dto.{RegisterRequest, LogInRequest}
use agreements_generator_api.Encoder.{UserClaims}
use agreements_generator_api.Storage.{UserStorage}
use agreements_generator_api.Hasher.{Hasher}
use agreements_generator_api.TokenManager.{TokenManager}
use Prim.Native.String.{len}

-- `Auth`
pub record Auth (S : Type 0) : Type 0 where
  pub register : RegisterRequest → Proc S String
  pub log_in : LogInRequest → Proc S String

-- A call that returns only an error.
abbrev pub check : {S : Type 0} → Option Err → Proc S (Unit {0})
check none s = (ok tt, s)
check (some e) s = (fail e, s)

module _ {S : Type 0} (storage : UserStorage S) (token_mng : TokenManager S) (hasher : Hasher)
    (min_password_len : ℕ) where
  -- `if test { return "", … }`
  abbrev refuse_if : Bool → String → Proc S (Unit {0})
  refuse_if test what = if test then raise (wrapf what (app bad_request)) else lift (ok tt)

  -- `len` of a Go string counts bytes.
  unfoldable pub register : RegisterRequest → Proc S String
  register user_data = do
    refuse_if (ltb (len user_data.password) min_password_len)
        "can't register user, password is too short"
    refuse_if (user_data.login == "") "can't register user, login is empty"
    hashed ←
        on_error (wrapf ("can't hash password of user with login " <> user_data.login))
          (lift (hasher.hash user_data.password))
    user_id ← on_error (wrapf ("can't register user with login " <> user_data.login)) (
        storage.register
          (record { name = user_data.name; login = user_data.login; password = hashed }))
    on_error (wrapf ("can't create token for user with login " <> user_data.login))
        (token_mng.create (record { login = user_data.login; id = user_id }))

  unfoldable pub log_in : LogInRequest → Proc S String
  log_in user_data = do
    found ←
        on_error (wrapf ("can't get password of user with login " <> user_data.login))
          (storage.log_in user_data.login)
    on_error (wrapf ("error during comparing passwords of user with login " <> user_data.login))
        (check (hasher.compare found.1 user_data.password))
    on_error (wrapf ("can't create token for user with login " <> user_data.login))
        (token_mng.create (record { login = user_data.login; id = found.0 }))

  -- `NewAuth`
  abbrev pub auth_service : Auth S
  auth_service = record { register = register; log_in = log_in }
