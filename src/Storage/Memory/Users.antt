-- ===== src/Storage/Memory/Users.antt =====
-- The users of the in-memory storage: registration and login, and the uniqueness of user ids.
use agreements_generator_api.Prelude.{
  ℕ, ◌+◌, ◌^◌, ◌<◌, ◌≡◌, String, ◌==◌, eq_iff, some, if◌then◌else◌, arith,
}
use agreements_generator_api.Prelude.Dict.{lookup, lookup-insert}
use agreements_generator_api.Effect.{ok}
use agreements_generator_api.Domain.Generator.{User}
use agreements_generator_api.Storage.Memory.{
  UserData, MemoryStorage, register, log_in, new_memory_storage,
}

-- Each stored id is an old value of the counter, and no two logins share one.
pub record HasUniqueIds (s : MemoryStorage) : Type 0 where
  pub below : (a : String) (u : UserData) → lookup a s.users ≡ some u → u.id < s.user_id_increment
  pub distinct :
      (a b : String) (u v : UserData)
      → lookup a s.users ≡ some u
      → lookup b s.users ≡ some v
      → u.id ≡ v.id
      → a ≡ b

pub new_memory_storage-HasUniqueIds :
    (job_ttl now : ℕ) → HasUniqueIds (new_memory_storage job_ttl now)
unfolding new_memory_storage lookup
new_memory_storage-HasUniqueIds job_ttl now = record {
  below = λ a u e. cc;
  distinct = λ a b u v e f g. cc;
}

-- A registration keeps the ids unique, whether it succeeds or not, while the 64-bit counter has not
-- reached its last value.
pub register-HasUniqueIds :
    (user : User) (s : MemoryStorage)
    → s.user_id_increment + 1 < 2 ^ 64
    → HasUniqueIds s
    → HasUniqueIds (register user s).1
unfolding register
register-HasUniqueIds user s room h = record {
  below = λ a u e. grind (arith, lookup-insert, eq_iff, h.below);
  distinct = λ a b u v e f g. grind (arith, lookup-insert, eq_iff, h.below, h.distinct);
}

-- After a registration that succeeds with an id, a login with that name finds that id and the
-- registered hash, and a login with another name finds what it found before.
pub log_in-register_stored :
    (user : User) (s : MemoryStorage) (id : ℕ) (login : String)
    → (register user s).0 ≡ ok id
    → (log_in login (register user s).1).0
      ≡ (if user.login == login then ok (id, user.password) else (log_in login s).0)
unfolding register log_in
log_in-register_stored user s id login e = ground (
  arith,
  eq_iff user.login login,
  lookup-insert user.login login
      (record {
        id = s.user_id_increment;
        name = user.name;
        login = "";
        password_hash = user.password;
        created_at = s.now;
      })
      s.users,
)
