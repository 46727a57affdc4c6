-- ===== src/Service/Auth/Laws.antt =====
-- Registration and login: the guards, and that a registered user gets in with his password.
use agreements_generator_api.Prelude.{
  ℕ, ◌<◌, ◌≡◌, ◌⊎◌, inl, inr, String, ◌<>◌, eq_refl, eq_iff, none, some, ltb, if◌then◌else◌, arith,
}
use agreements_generator_api.Effect.{ok, fail, Proc, on_error, Result-cases}
use agreements_generator_api.Domain.Errors.{Err, app, as_app_err, wrapf, bad_request}
use agreements_generator_api.Domain.Generator.{Bytes, User}
use agreements_generator_api.Dto.{RegisterRequest, LogInRequest}
use agreements_generator_api.Encoder.{UserClaims}
use agreements_generator_api.Storage.{UserStorage, users_beside}
use agreements_generator_api.Storage.Memory.{MemoryStorage, UserData, memory_user_storage}
use agreements_generator_api.Storage.Memory as Memory
use agreements_generator_api.Storage.Memory.Users
use agreements_generator_api.Hasher.{Hasher}
use agreements_generator_api.TokenManager.{TokenManager, tokens_beside}
use agreements_generator_api.Service.Auth.{register, log_in}
use Prim.Native.String.{len}

-- The error of a registration that is refused.
abbrev pub refusal : ℕ → RegisterRequest → Err
refusal min_password_len user =
    if ltb (len user.password) min_password_len
    then wrapf "can't register user, password is too short" (app bad_request)
    else wrapf "can't register user, login is empty" (app bad_request)

-- A registration with a password of too few bytes or with an empty login is refused as a bad
-- request, and changes nothing: nothing is stored or signed.
pub register_refuses :
    {S : Type 0} (storage : UserStorage S) (token_mng : TokenManager S) (hasher : Hasher)
    (min_password_len : ℕ) (user : RegisterRequest) (s : S)
    → (len user.password < min_password_len) ⊎ (user.login ≡ "")
    → (register storage token_mng hasher min_password_len user s
        ≡ (fail (refusal min_password_len user), s))
      × (as_app_err (refusal min_password_len user) ≡ some bad_request)
unfolding register wrapf as_app_err
register_refuses storage token_mng hasher min_password_len user s bad =
    ground (arith, eq_iff user.login "")

-- What is assumed of the hasher: a hash that it made compares well with the hashed text.
pub record IsHasher (h : Hasher) : Type 0 where
  pub compare-hash : (text : String) (b : Bytes) → h.hash text ≡ ok b → h.compare b text ≡ none

module _ {T : Type 0} (tm : TokenManager T) (hasher : Hasher) (min_password_len : ℕ) where
  abbrev pub register_memory : RegisterRequest → Proc (MemoryStorage × T) String
  register_memory =
      register (users_beside memory_user_storage) (tokens_beside tm) hasher min_password_len

  abbrev pub log_in_memory : LogInRequest → Proc (MemoryStorage × T) String
  log_in_memory =
      log_in (users_beside memory_user_storage) (tokens_beside tm) hasher min_password_len

  abbrev pub claims_of : String → MemoryStorage → UserClaims
  claims_of login m = record { login = login; id = m.user_id_increment }

  abbrev pub user_of : RegisterRequest → Bytes → User
  user_of user hashed = record { name = user.name; login = user.login; password = hashed }

  -- What a registration with a token has done.
  pub record Registered (user : RegisterRequest) (m : MemoryStorage) (t : T) (token : String)
      : Type 0 where
    pub hashed : Bytes
    pub made : hasher.hash user.password ≡ ok hashed
    pub registered : (Memory.register (user_of user hashed) m).0 ≡ ok m.user_id_increment
    pub signed : (tm.create (claims_of user.login m) t).0 ≡ ok token
    pub after :
        (register_memory user (m, t)).1
        ≡ ((Memory.register (user_of user hashed) m).1, (tm.create (claims_of user.login m) t).1)

  pub register-Registered :
      (user : RegisterRequest) (m : MemoryStorage) (t : T) (token : String)
      → (register_memory user (m, t)).0 ≡ ok token
      → Registered user m t token
  unfolding register Memory.register
  register-Registered user m t token h = elim (Result-cases (hasher.hash user.password)) [
    | inr (e, bad) ↦ absurd (ground arith)
    | inl (hashed, made) ↦ record {
      hashed = hashed;
      made = made;
      registered = ground arith;
      signed = ground arith;
      after = ground arith;
    }
  ]

  log_in_found :
      (login password : String) (m : MemoryStorage) (t : T) (id : ℕ) (hashed : Bytes)
      → (Memory.log_in login m).0 ≡ ok (id, hashed)
      → hasher.compare hashed password ≡ none
      → log_in_memory (record { login = login; password = password }) (m, t)
        ≡ on_error
            (wrapf ("can't create token for user with login " <> login))
            ((tokens_beside tm).create (record { login = login; id = id }))
            (m, t)
  unfolding log_in Memory.log_in
  log_in_found login password m t id hashed found fits = ground arith

  -- A user whose registration gave a token gets in afterwards with the same login and password:
  -- the login answers with what the token manager creates for the very claims of the registration,
  -- the login and the id that the in-memory storage gave out.
  pub log_in-register :
      (user : RegisterRequest) (m : MemoryStorage) (t : T) (token : String)
      → IsHasher hasher
      → (register_memory user (m, t)).0 ≡ ok token
      → let s = (register_memory user (m, t)).1 in
        let claims : UserClaims = record { login = user.login; id = m.user_id_increment } in
        ((tm.create claims t).0 ≡ ok token)
        × (log_in_memory (record { login = user.login; password = user.password }) s
            ≡ on_error
                (wrapf ("can't create token for user with login " <> user.login))
                ((tokens_beside tm).create claims)
                s)
  log_in-register user m t token hashes h =
      let r = register-Registered user m t token h in
      let found =
        Users.log_in-register_stored (user_of user r.hashed) m m.user_id_increment user.login
          r.registered in
      (
        r.signed,
        rw r.after (
            log_in_found user.login user.password _ _ m.user_id_increment r.hashed
              (rw (eq_refl user.login) at found)
              (hashes.compare-hash user.password r.hashed r.made)),
      )
