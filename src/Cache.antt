-- ===== src/Cache.antt =====
-- internal/cache/redis.go: the status cache. The Redis client is not code of this repository: its
-- commands are the fields of `Redis`, over the state `S` of the server.
use agreements_generator_api.Prelude.{◌≡◌, ℕ, String, ◌<>◌}
use agreements_generator_api.Effect.{ok, Proc, pure, ◌>>◌, on_second}

-- `Cacher`
pub record Cacher (S : Type 0) : Type 0 where
  pub set_job_status : String → String → Proc S (Unit {0})
  pub get_job_status : String → Proc S String
  pub delete_job_status : String → Proc S (Unit {0})
  pub close : Proc S (Unit {0})

-- `*redis.Client`, the methods that are called. `set` takes the key, the value and the lifetime.
pub record Redis (S : Type 0) : Type 0 where
  pub set : String → String → ℕ → Proc S String
  pub get : String → Proc S String
  pub del : String → Proc S ℕ
  pub close : Proc S (Unit {0})

abbrev job_key : String → String
job_key job_id = "job:" <> job_id

module _ {S : Type 0} (client : Redis S) (job_status_ttl : ℕ) where
  unfoldable pub set_job_status : String → String → Proc S (Unit {0})
  set_job_status job_id status = do client.set (job_key job_id) status job_status_ttl; pure tt

  unfoldable pub get_job_status : String → Proc S String
  get_job_status job_id = client.get (job_key job_id)

  unfoldable pub delete_job_status : String → Proc S (Unit {0})
  delete_job_status job_id = do client.del (job_key job_id); pure tt

  unfoldable pub close : Proc S (Unit {0})
  close = client.close

  -- `New`
  abbrev pub redis_cacher : Cacher S
  redis_cacher = record {
    set_job_status = set_job_status;
    get_job_status = get_job_status;
    delete_job_status = delete_job_status;
    close = close;
  }

-- A cache whose state stands beside another component's.
abbrev pub cacher_beside : {S T : Type 0} → Cacher T → Cacher (S × T)
cacher_beside ca = record {
  set_job_status = λ id status. on_second (ca.set_job_status id status);
  get_job_status = λ id. on_second (ca.get_job_status id);
  delete_job_status = λ id. on_second (ca.delete_job_status id);
  close = on_second ca.close;
}

-- What is assumed of a cache, for calls with nothing between them: it gives back what it took, and
-- reading does not change what the next read gives.
pub record IsCache {S : Type 0} (ca : Cacher S) : Type 0 where
  pub get-set :
      (id text : String) (s : S)
      → (ca.set_job_status id text s).0 ≡ ok tt
      → ca.get_job_status id (ca.set_job_status id text s).1
        ≡ (ok text, (ca.set_job_status id text s).1)
  pub get-get :
      (id text : String) (s : S)
      → (ca.get_job_status id s).0 ≡ ok text
      → ca.get_job_status id (ca.get_job_status id s).1 ≡ (ok text, (ca.get_job_status id s).1)
