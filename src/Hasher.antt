-- ===== src/Hasher.antt =====
-- internal/hasher/hasher.go: password hashing. bcrypt is a parameter: `generate` takes the text and
-- the cost, `compare` returns nil where the text fits the hash.
use agreements_generator_api.Prelude.{ℕ, String, Option, none, some}
use agreements_generator_api.Effect.{Result, ok, fail}
use agreements_generator_api.Domain.Errors.{Err, app, wrapv, internal, hash_comparing}
use agreements_generator_api.Domain.Generator.{Bytes}

-- `Hasher`
pub record Hasher : Type 0 where
  pub hash : String → Result Bytes
  pub compare : Bytes → String → Option Err

module _ (generate : String → ℕ → Result Bytes) (compare_hash : Bytes → String → Option Err)
    (cost : ℕ) where
  unfoldable pub hash : String → Result Bytes
  hash text = elim (generate text cost) [
    | ok bytes ↦ ok bytes
    | fail e ↦ fail (wrapv "error during hashing password" e (app internal))
  ]

  unfoldable pub compare : Bytes → String → Option Err
  compare stored text = elim (compare_hash stored text) [
    | none ↦ none
    | some e ↦ some (wrapv "error during hash comparing" e (app hash_comparing))
  ]

  -- `New`
  abbrev pub bcrypt_hasher : Hasher
  bcrypt_hasher = record { hash = hash; compare = compare }
