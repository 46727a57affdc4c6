-- ===== src/Config/Secrets.antt =====
-- When `loadEnvVars` succeeds, and what it sets.
use agreements_generator_api.Prelude.{
  Bool, false, ◌||◌, ◌≡◌, ◌≢◌, ◌↔◌, inl, inr, refl, String, ◌==◌, eq_iff, List, [], ◌∷◌, Option,
  some, if◌then◌else◌, arith, Option-cases, Bool-cases,
}
use agreements_generator_api.Prelude.Dict.{Dict, lookup, insert, lookup-insert}
use agreements_generator_api.Effect.{ok}
use agreements_generator_api.Config.{load_env_vars}

-- The variable has a value that is not empty.
abbrev pub HasValue : (String → Option String) → String → Type 0
HasValue lookup_env name = (value : String) × (lookup_env name ≡ some value) × (value ≢ "")

abbrev pub AreSet : (String → Option String) → List String → Type 0
AreSet lookup_env [] = Unit
AreSet lookup_env (name ∷ names) = HasValue lookup_env name × AreSet lookup_env names

-- The name is among the names.
unfoldable pub has : String → List String → Bool
has other [] = false
has other (name ∷ names) = other == name || has other names

module _ (lookup_env : String → Option String) where
  load-AreSet :
      (names : List String) (cfg : Dict String)
      → (load_env_vars lookup_env names cfg).0 ≡ ok tt
      → AreSet lookup_env names
  unfolding load_env_vars
  load-AreSet [] cfg h = tt
  load-AreSet (name ∷ names) cfg h = elim (Option-cases (lookup_env name)) [
    | inl e ↦ ground arith
    | inr (value, e) ↦ elim (Bool-cases (value == "")) [
      | inl b ↦ ground arith
      | inr b ↦ (
        (value, e, ground (arith, eq_iff value "")),
        load-AreSet names (insert name value cfg) (ground arith),
      )
    ]
  ]

  AreSet-load :
      (names : List String) (cfg : Dict String)
      → AreSet lookup_env names
      → (load_env_vars lookup_env names cfg).0 ≡ ok tt
  unfolding load_env_vars
  AreSet-load [] cfg h = refl
  AreSet-load (name ∷ names) cfg ((value, e, n), h) =
      ground (arith, AreSet-load names (insert name value cfg) h, eq_iff value "")

  -- The loading of the secrets succeeds exactly when each of the variables is set and not empty,
  -- whatever the order of the names and whatever was in the configuration.
  pub load_env_vars_iff :
      (names : List String) (cfg : Dict String)
      → ((load_env_vars lookup_env names cfg).0 ≡ ok tt) ↔ AreSet lookup_env names
  load_env_vars_iff names cfg = (load-AreSet names cfg, AreSet-load names cfg)

  -- A loading that succeeds sets each string that it has a name for to the variable's value and
  -- leaves the others as they were.
  pub lookup-load_env_vars :
      (names : List String) (cfg : Dict String) (other : String)
      → (load_env_vars lookup_env names cfg).0 ≡ ok tt
      → lookup other (load_env_vars lookup_env names cfg).1
        ≡ (if has other names then lookup_env other else lookup other cfg)
  unfolding load_env_vars has
  lookup-load_env_vars [] cfg other h = refl
  lookup-load_env_vars (name ∷ names) cfg other h = elim (Option-cases (lookup_env name)) [
    | inl e ↦ ground arith
    | inr (value, e) ↦ elim (Bool-cases (value == "")) [
      | inl b ↦ ground arith
      | inr b ↦ ground (
        arith,
        eq_iff name other,
        eq_iff other name,
        lookup-insert name other value cfg,
        lookup-load_env_vars names (insert name value cfg) other (ground arith),
      )
    ]
  ]
