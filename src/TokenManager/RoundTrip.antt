-- ===== src/TokenManager/RoundTrip.antt =====
-- A token that was created is accepted and read back until it expires, and no token of another
-- algorithm is accepted.
use agreements_generator_api.Prelude.{
  ℕ, ◌+◌, ◌*◌, ◌<◌, ◌≡◌, refl, ◌∙◌, ◌≢◌, inl, inr, String, eq_iff, eq_refl, [], ◌∷◌, none, some,
  true, arith,
}
use Prim.Native.Nat.{◌/◌}
use agreements_generator_api.Prelude.Dict.{lookup, insert}
use agreements_generator_api.Effect.{Result, ok, Result-cases}
use agreements_generator_api.Domain.Generator.{Bytes}
use agreements_generator_api.Encoder.{
  Encoder, UserClaims, TokenUser, MapClaims, user_claims, map_claims, text, number, numeric_date,
}
use agreements_generator_api.TokenManager.{
  SigningMethod, alg, Token, Jwt, key_func, create, validate, parse,
}

-- The keys of a token's claims.
abbrev pub OnlyClaims : MapClaims → Type 0
OnlyClaims c = (k : String) → k ≢ "ID" → k ≢ "Login" → k ≢ "iat" → k ≢ "exp" → lookup k c ≡ none

-- What is assumed of encoding/json, for the claims of one user whose id a float64 holds exactly, as
-- it does up to 2 ^ 53: the claims become a map of the two fields, a map of such values can be
-- encoded, and a structure with the fields id and login is filled from the keys "ID" and "Login"
-- where no other key competes.
pub record IsEncoder (encoder : Encoder) (u : UserClaims) : Type 0 where
  pub read_claims :
      (b : Bytes)
      → encoder.marshal (user_claims u) ≡ ok b
      → encoder.unmarshal_claims b ≡ ok (("Login", text u.login) ∷ ("ID", number u.id) ∷ [])
  pub marshal_claims : (c : MapClaims) → (b : Bytes) × (encoder.marshal (map_claims c) ≡ ok b)
  pub read_user :
      (c : MapClaims) (b : Bytes)
      → OnlyClaims c
      → lookup "ID" c ≡ some (number u.id)
      → lookup "Login" c ≡ some (text u.login)
      → encoder.marshal (map_claims c) ≡ ok b
      → encoder.unmarshal_user b ≡ ok (record { id = u.id; login = u.login })

-- What is assumed of the JWT library, where `header_alg` reads the algorithm in a token's header: a
-- date has whole seconds, the rest cut off; a signed token names its method; `jwt.Parse` accepts a
-- token only with a key for that algorithm; and it accepts a token it signed, with the key and
-- before its time of expiry, with claims that are encoded like those that were signed.
pub record IsJwt (jwt : Jwt) (encoder : Encoder) (header_alg : String → String) : Type 0 where
  pub new_numeric_date-seconds : (t : ℕ) → jwt.new_numeric_date t ≡ t / 1000000000
  pub header_alg-signed_string :
      (m : SigningMethod) (c : MapClaims) (secret token : String)
      → jwt.signed_string m c secret ≡ ok token
      → header_alg token ≡ alg m
  pub needs_key :
      (token : String) (key : String → Result String) (now : ℕ) (t : Token)
      → jwt.parse token key now ≡ ok t
      → (k : String) × (key (header_alg token) ≡ ok k)
  pub parse-signed_string :
      (m : SigningMethod) (c : MapClaims) (secret token : String) (key : String → Result String)
      (now seconds : ℕ)
      → jwt.signed_string m c secret ≡ ok token
      → key (alg m) ≡ ok secret
      → lookup "exp" c ≡ some (numeric_date seconds)
      → now < seconds * 1000000000
      → (c' : MapClaims) × (jwt.parse token key now ≡ ok (record { claims = c'; is_valid = true }))
        × (encoder.marshal (map_claims c') ≡ encoder.marshal (map_claims c))

abbrev pub signed_claims : UserClaims → ℕ → ℕ → MapClaims
signed_claims u issued expiry =
    insert "exp" (numeric_date expiry)
      (insert "iat" (numeric_date issued) (("Login", text u.login) ∷ ("ID", number u.id) ∷ []))

signed_claims_fields :
    (u : UserClaims) (issued expiry : ℕ)
    → OnlyClaims (signed_claims u issued expiry)
      × (lookup "ID" (signed_claims u issued expiry) ≡ some (number u.id))
      × (lookup "Login" (signed_claims u issued expiry) ≡ some (text u.login))
      × (lookup "exp" (signed_claims u issued expiry) ≡ some (numeric_date expiry))
unfolding lookup insert
signed_claims_fields u issued expiry = (
  λ k a b c d. ground (arith, eq_iff "Login" k, eq_iff "ID" k, eq_iff "iat" k, eq_iff "exp" k),
  refl,
  refl,
  refl,
)

module _ {S : Type 0} (jwt : Jwt) (encoder : Encoder) (clock : S → ℕ × S) (ttl : ℕ)
    (signing_method : SigningMethod) (secret prefix : String) where
  key_func_own :
      key_func jwt encoder clock ttl signing_method secret prefix (alg signing_method) ≡ ok secret
  unfolding key_func
  key_func_own = rw eq_refl

  key_func_sound :
      (a k : String)
      → key_func jwt encoder clock ttl signing_method secret prefix a ≡ ok k
      → a ≡ alg signing_method
  unfolding key_func
  key_func_sound a k h = ground (arith, eq_iff a (alg signing_method))

  -- The time of expiry of a token that is created in the state `s`: whole seconds.
  abbrev pub expiry_at : S → ℕ
  expiry_at s = ((clock (clock s).1).0 + ttl) / 1000000000 * 1000000000

  abbrev own_key : String → Result String
  own_key = key_func jwt encoder clock ttl signing_method secret prefix

  -- The claims of a token that is created in the state `s`.
  abbrev claims_at : UserClaims → S → MapClaims
  claims_at u s =
      signed_claims u (jwt.new_numeric_date (clock s).0)
        (jwt.new_numeric_date ((clock (clock s).1).0 + ttl))

  create_signed :
      (u : UserClaims) (s : S) (token : String)
      → IsEncoder encoder u
      → (create jwt encoder clock ttl signing_method secret prefix u s).0 ≡ ok token
      → jwt.signed_string signing_method (claims_at u s) secret ≡ ok token
  unfolding create
  create_signed u s token json h = elim (Result-cases (encoder.marshal (user_claims u))) [
    | inr (e, bad) ↦ absurd (ground arith)
    | inl (b, good) ↦ ground (arith, json.read_claims b good)
  ]

  parse_of_token :
      (token : String) (s : S) (t : Token) (b : Bytes) (user : TokenUser)
      → jwt.parse token own_key (clock s).0 ≡ ok t
      → t.is_valid ≡ true
      → encoder.marshal (map_claims t.claims) ≡ ok b
      → encoder.unmarshal_user b ≡ ok user
      → ((validate jwt encoder clock ttl signing_method secret prefix token s).0 ≡ ok tt)
        × ((parse jwt encoder clock ttl signing_method secret prefix token s).0 ≡ ok user)
  unfolding validate parse
  parse_of_token token s t b user p v m r = (ground arith, ground arith)

  -- A token that was created for a user passes validation and is read back as that user's id and
  -- login, in every state whose clock shows a time before the token's expiry.
  pub parse-create :
      (header_alg : String → String) (u : UserClaims) (s later : S) (token : String)
      → IsEncoder encoder u
      → IsJwt jwt encoder header_alg
      → (create jwt encoder clock ttl signing_method secret prefix u s).0 ≡ ok token
      → (clock later).0 < expiry_at s
      → ((validate jwt encoder clock ttl signing_method secret prefix token later).0 ≡ ok tt)
        × ((parse jwt encoder clock ttl signing_method secret prefix token later).0
            ≡ ok (record { id = u.id; login = u.login }))
  parse-create header_alg u s later token json lib h before =
      let claims = claims_at u s in
      let expiry = jwt.new_numeric_date ((clock (clock s).1).0 + ttl) in
      let (only, id, login, exp) =
        signed_claims_fields u (jwt.new_numeric_date (clock s).0) expiry in
      let in_time : (clock later).0 < expiry * 1000000000 =
        rw lib.new_numeric_date-seconds before in
      let (c, parsed, same) =
        lib.parse-signed_string signing_method claims secret token own_key (clock later).0 expiry
          (create_signed u s token json h) key_func_own exp in_time in
      let (b, encoded) = json.marshal_claims claims in
      parse_of_token token later _ b _ parsed refl (same ∙ encoded)
        (json.read_user claims b only id login encoded)

  -- A token that passes validation names the configured algorithm in its header.
  pub validate-header_alg :
      (header_alg : String → String) (token : String) (s : S)
      → IsJwt jwt encoder header_alg
      → (validate jwt encoder clock ttl signing_method secret prefix token s).0 ≡ ok tt
      → header_alg token ≡ alg signing_method
  unfolding validate
  validate-header_alg header_alg token s lib h =
      elim (Result-cases (jwt.parse token own_key (clock s).0)) [
        | inr (e, bad) ↦ absurd (ground arith)
        | inl (t, good) ↦
            let (k, accepted) = lib.needs_key token own_key (clock s).0 t good in
            key_func_sound (header_alg token) k accepted
      ]
