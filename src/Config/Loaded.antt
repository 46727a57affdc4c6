-- ===== src/Config/Loaded.antt =====
-- When `Load` succeeds, and with what.
use agreements_generator_api.Prelude.{
  true, false, ◌≡◌, ◌≢◌, ◌↔◌, ◌⊎◌, inl, inr, refl, sym, ap, ◌∙◌, String, ◌==◌, eq_iff, List, [],
  ◌∷◌, Option, some, arith, Bool-cases, Option-cases,
}
use agreements_generator_api.Prelude.Dict.{Dict, lookup}
use agreements_generator_api.Effect.{Result, ok, Result-cases}
use agreements_generator_api.Config.{
  Config, Outside, pointed, secret_names, text_or_empty, with_secrets, after_env_vars,
  load_env_vars, fetch_config_path, load_secrets, load,
}
use agreements_generator_api.Config.Secrets.{
  HasValue, AreSet, has, load_env_vars_iff, lookup-load_env_vars,
}

-- The loop meets each key of the map, and no other.
abbrev pub IsOrder : List String → Type 0
IsOrder order = (name : String) → has name order ≡ has name secret_names

-- The secrets from the environment, and the rest as it is.
abbrev pub from_env : (String → Option String) → Config → Config
from_env lookup_env file = record file {
  security = record file.security {
    secret_key = text_or_empty (lookup_env "JWT_SECRET");
    db_user = text_or_empty (lookup_env "DB_USER");
    db_password = text_or_empty (lookup_env "DB_PASSWORD");
    redis_password = text_or_empty (lookup_env "REDIS_PASSWORD");
    rabbit_password = text_or_empty (lookup_env "RABBITMQ_PASSWORD");
  };
}

-- The path of the configuration: the flag, and CONFIG_PATH only where the flag is empty.
abbrev pub IsChosen : Outside → String → Type 0
IsChosen o path =
    ((o.flag ≢ "") × (path ≡ o.flag)) ⊎ ((o.flag ≡ "") × (o.lookup_env "CONFIG_PATH" ≡ some path))

fetched-IsChosen : (o : Outside) → fetch_config_path o ≢ "" → IsChosen o (fetch_config_path o)
unfolding fetch_config_path
fetched-IsChosen o given = elim (Bool-cases (o.flag == "")) [
  | inr b ↦ inl (ground (arith, b, eq_iff o.flag ""), ground (arith, b))
  | inl b ↦ elim (Option-cases (o.lookup_env "CONFIG_PATH")) [
    | inl missing ↦ absurd (given (rw (b, missing) refl))
    | inr (value, set) ↦ inr ((eq_iff o.flag "").0 b, rw (b, set) refl)
  ]
]

IsChosen-fetched : (o : Outside) (path : String) → IsChosen o path → fetch_config_path o ≡ path
unfolding fetch_config_path
IsChosen-fetched o path (inl (flag, same)) = ground (arith, eq_iff o.flag "")
IsChosen-fetched o path (inr (flag, set)) = rw (flag, set) refl

pub record IsLoaded (o : Outside) (cfg : Config) : Type 0 where
  pub file : Config
  pub path : String
  pub chosen : IsChosen o path
  pub given : path ≢ ""
  pub exists : o.is_not_exist path ≡ false
  pub read : o.read_config path ≡ ok file
  pub secrets : AreSet o.lookup_env secret_names
  pub same : cfg ≡ from_env o.lookup_env file

-- `AreSet` by the names instead of their list.
AreSet-has :
    (lookup_env : String → Option String) (names : List String) (name : String)
    → AreSet lookup_env names
    → has name names ≡ true
    → HasValue lookup_env name
unfolding has
AreSet-has lookup_env [] name h e = absurd (ground arith)
AreSet-has lookup_env (other ∷ names) name ((value, v, n), hs) e =
    elim (Bool-cases (name == other)) [
      | inl b ↦ (value, ap lookup_env ((eq_iff name other).0 b) ∙ v, n)
      | inr b ↦ AreSet-has lookup_env names name hs (ground (arith, e, b))
    ]

has-AreSet :
    (lookup_env : String → Option String) (names : List String)
    → ((name : String) → has name names ≡ true → HasValue lookup_env name)
    → AreSet lookup_env names
unfolding has
has-AreSet lookup_env [] h = tt
has-AreSet lookup_env (name ∷ names) h = (
  h name (ground (arith, eq_iff name name)),
  has-AreSet lookup_env names λ other e. h other (ground (arith, e)),
)

module _ (o : Outside) (order : IsOrder o.order) where
  set_iff : AreSet o.lookup_env o.order ↔ AreSet o.lookup_env secret_names
  set_iff = (
    λ h.
        has-AreSet o.lookup_env secret_names
          λ name e. AreSet-has o.lookup_env o.order name h (order name ∙ e),
    λ h.
        has-AreSet o.lookup_env o.order
          λ name e. AreSet-has o.lookup_env secret_names name h (sym (order name) ∙ e),
  )

  abbrev secrets_read : Config → Result (Unit {0})
  secrets_read file = (load_env_vars o.lookup_env o.order (pointed file.security)).0

  abbrev values : Config → Dict String
  values file = (load_env_vars o.lookup_env o.order (pointed file.security)).1

  value_of :
      (file : Config) (name : String)
      → secrets_read file ≡ ok tt
      → has name secret_names ≡ true
      → lookup name (values file) ≡ o.lookup_env name
  value_of file name h e =
      rw (lookup-load_env_vars o.lookup_env o.order (pointed file.security) name h, order name ∙ e)
        refl

  load_secrets-from_env :
      (file : Config)
      → secrets_read file ≡ ok tt
      → load_secrets o file ≡ ok (from_env o.lookup_env file)
  unfolding load_secrets with_secrets has
  load_secrets-from_env file h =
      rw
        (
          h,
          value_of file "JWT_SECRET" h refl,
          value_of file "DB_USER" h refl,
          value_of file "DB_PASSWORD" h refl,
          value_of file "REDIS_PASSWORD" h refl,
          value_of file "RABBITMQ_PASSWORD" h refl,
        )
        refl

  secrets_iff :
      (file cfg : Config)
      → (load_secrets o file ≡ ok cfg)
        ↔ (AreSet o.lookup_env secret_names × (cfg ≡ from_env o.lookup_env file))
  unfolding load_secrets
  secrets_iff file cfg =
      let all = load_env_vars_iff o.lookup_env o.order (pointed file.security) in
      (
        λ h. elim (Result-cases (secrets_read file)) [
          | inl (u, e) ↦ (set_iff.0 (all.0 e), ground (arith, load_secrets-from_env file e, h))
          | inr (x, e) ↦ absurd (ground (arith, ap (λ r. after_env_vars file r (values file)) e, h))
        ],
        λ (set, same). load_secrets-from_env file (all.1 (set_iff.1 set)) ∙ ap ok (sym same),
      )

reads : (o : Outside) (cfg : Config) → IsOrder o.order → load o ≡ ok cfg → IsLoaded o cfg
unfolding load
reads o cfg order h = elim (Bool-cases (fetch_config_path o == "")) [
  | inl p ↦ absurd (ground (arith, rw p at h))
  | inr p ↦ elim (Bool-cases (o.is_not_exist (fetch_config_path o))) [
    | inl n ↦ absurd (ground (arith, rw (p, n) at h))
    | inr n ↦ elim (Result-cases (o.read_config (fetch_config_path o))) [
      | inr (e, f) ↦ absurd (ground (arith, rw (p, n, f) at h))
      | inl (file, f) ↦
          let (set, same) = (secrets_iff o order file cfg).0 (rw (p, n, f) at h) in
          record {
            file = file;
            path = fetch_config_path o;
            chosen = fetched-IsChosen o (ground (arith, p, eq_iff (fetch_config_path o) ""));
            given = ground (arith, p, eq_iff (fetch_config_path o) "");
            exists = n;
            read = f;
            secrets = set;
            same = same;
          }
    ]
  ]
]

loads : (o : Outside) (cfg : Config) → IsOrder o.order → IsLoaded o cfg → load o ≡ ok cfg
unfolding load
loads o cfg order h =
    let some_path : (h.path == "") ≡ false = ground (arith, h.given, eq_iff h.path "") in
    rw (IsChosen-fetched o h.path h.chosen, some_path, h.exists, h.read)
      ((secrets_iff o order h.file cfg).1 (h.secrets, h.same))

-- The program gets a configuration exactly when a path is given, by the flag, or by CONFIG_PATH
-- where the flag is empty, the file exists and can be read, and the five secrets are set in the
-- environment and not empty; and it is then that of the file with the secrets of the environment,
-- in whichever order the loop meets the variables.
pub load_iff : (o : Outside) (cfg : Config) → IsOrder o.order → (load o ≡ ok cfg) ↔ IsLoaded o cfg
load_iff o cfg order = (reads o cfg order, loads o cfg order)
