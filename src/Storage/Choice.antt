-- ===== src/Storage/Choice.antt =====
-- `New` of internal/storage/storage.go: the choice of the storage by the configuration. One value
-- is the storage of the generator and of the users. `open_pool` is pgxpool.New with the address that
-- `New` builds.
use agreements_generator_api.Prelude.{
  ℕ, String, ◌<>◌, ◌==◌, List, Option, none, some, if◌then◌else◌,
}
use agreements_generator_api.Effect.{Result, ok, fail}
use agreements_generator_api.Config.{Config}
use agreements_generator_api.Domain.Errors.{foreign, wrapf}
use agreements_generator_api.Domain.Generator.{Bytes, FilesErrors}
use agreements_generator_api.Storage.{GeneratorStorage, UserStorage, InputArchiveStorer}
use agreements_generator_api.Storage.Memory.{
  MemoryStorage, new_memory_storage, memory_generator_storage, memory_user_storage,
}
use agreements_generator_api.Storage.Postgres.{
  Pool, postgres_generator_storage, postgres_user_storage, postgres_input_storer,
}

-- A storage with its state. `storer` is what a type assertion to `InputArchiveStorer` finds.
pub record Opened : Type 1 where
  pub State : Type 0
  pub generator : GeneratorStorage State
  pub users : UserStorage State
  pub storer : Option (InputArchiveStorer State)
  pub state : State

unfoldable pub address : Config → String
address cfg =
    cfg.storage.driver
    <> ("://"
        <> (cfg.security.db_user
            <> (":"
                <> (cfg.security.db_password
                    <> ("@"
                        <> (cfg.storage.host
                            <> (":" <> (cfg.storage.port <> ("/" <> cfg.storage.database)))))))))

abbrev opened_memory : Config → ℕ → Opened
opened_memory cfg now = record {
  State = MemoryStorage;
  generator = memory_generator_storage;
  users = memory_user_storage;
  storer = none;
  state = new_memory_storage cfg.storage.job_ttl now;
}

module _ {D Tx : Type 0} (open_pool : String → Result (Pool D Tx × D))
    (unmarshal : Bytes → Result (List FilesErrors)) where
  abbrev opened_pool : Result (Pool D Tx × D) → Result Opened
  opened_pool (fail e) = fail (wrapf "can't create storage" e)
  opened_pool (ok (pool, d)) = ok (record {
    State = D;
    generator = postgres_generator_storage pool unmarshal;
    users = postgres_user_storage pool;
    storer = some (postgres_input_storer pool);
    state = d;
  })

  unfoldable pub new : Config → ℕ → Result Opened
  unfolding address
  new cfg now =
      if cfg.storage.kind == "in_memory"
      then ok (opened_memory cfg now)
      else if cfg.storage.kind == "postgres"
      then opened_pool (open_pool (address cfg))
      else fail (foreign "unvalid storage type in config")
