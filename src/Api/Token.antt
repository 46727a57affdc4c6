-- ===== src/Api/Token.antt =====
-- internal/api/api_v1/middleware.go: `MWAuth`, with the functions of package strings that it calls.
pub mod Laws
pub mod Session
use agreements_generator_api.Prelude.{
  ℕ, String, ◌==◌, Bool, true, false, ◌&&◌, ◌||◌, Option, none, some, ltb, not, if◌then◌else◌,
}
use agreements_generator_api.Effect.{Result, ok, fail}
use agreements_generator_api.Domain.Errors.{Err, app, wrapf, wrapv, unauthorized, invalid_token}
use agreements_generator_api.Encoder.{Encoder, TokenUser}
use agreements_generator_api.TokenManager.{TokenManager}
use agreements_generator_api.Service.{Context, string_value, int_value}
use agreements_generator_api.Api.{Request, Handler}
use agreements_generator_api.Api.Response.{write_error}
use Prim.Native.Char.{Char, code}
use Prim.Native.String.{len, slice}
use text.Mathlib.Text.{starts_with}

-- `strings.CutPrefix`
unfoldable pub cut_prefix : String → String → Option String
cut_prefix s prefix = if starts_with s prefix then some (slice s (len prefix) (len s)) else none

abbrev between : ℕ → ℕ → ℕ → Bool
between lo hi c = not (ltb c lo) && not (ltb hi c)

-- `unicode.IsSpace`
unfoldable pub is_space : ℕ → Bool
is_space c =
    between 0x09 0x0d c
    || between 0x20 0x20 c
    || between 0x85 0x85 c
    || between 0xa0 0xa0 c
    || between 0x1680 0x1680 c
    || between 0x2000 0x200a c
    || between 0x2028 0x2029 c
    || between 0x202f 0x202f c
    || between 0x205f 0x205f c
    || between 0x3000 0x3000 c

-- `strings.TrimSpace`
unfoldable pub trim_start : String → String
trim_start String.[] = String.[]
trim_start (String.◌∷◌ c s) =
    let rest = trim_start s in if is_space (code c) then rest else String.◌∷◌ c s

unfoldable pub trim_end : String → String
trim_end String.[] = String.[]
trim_end (String.◌∷◌ c s) =
    let rest = trim_end s in
    if (rest == "") && is_space (code c) then String.[] else String.◌∷◌ c rest

unfoldable pub trim_space : String → String
unfolding trim_start trim_end is_space
trim_space s = trim_end (trim_start s)

-- The context of the request that goes on.
abbrev pub with_user : TokenUser → Request → Request
with_user usr r = record r {
  ctx = record { login = string_value usr.login; user_id = int_value usr.id };
}

module _ {W : Type 0} (token_maker : TokenManager W) (enc : Encoder) (next : Handler W) where
  abbrev refuse : Err → Handler W
  refuse e r w s = (write_error enc e w, s)

  abbrev after_parse : Result TokenUser → Handler W
  after_parse (fail e) r w s = refuse (wrapv "invalid token" e (app invalid_token)) r w s
  after_parse (ok usr) r w s = next (with_user usr r) w s

  abbrev after_validate : String → Result (Unit {0}) → Handler W
  after_validate token (fail e) r w s = refuse (wrapv "invalid token" e (app invalid_token)) r w s
  after_validate token (ok _) r w s =
      let (parsed, s') = token_maker.parse token s in after_parse parsed r w s'

  abbrev after_cut : Option String → Handler W
  after_cut none r w s = refuse (wrapf "token without prefix" (app unauthorized)) r w s
  after_cut (some rest) r w s =
      let token = trim_space rest in
      let (valid, s') = token_maker.validate token s in after_validate token valid r w s'

  unfoldable pub mw_auth : Handler W
  mw_auth r w s =
      if r.authorization == ""
      then refuse (app unauthorized) r w s
      else after_cut (cut_prefix r.authorization token_maker.get_prefix) r w s
