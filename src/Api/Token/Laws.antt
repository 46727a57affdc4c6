-- ===== src/Api/Token/Laws.antt =====
-- `MWAuth`: who gets past it.
use agreements_generator_api.Prelude.{
  ◌≡◌, refl, ◌∙◌, ap, ◌≢◌, ◌⊎◌, inl, inr, String, ◌<>◌, ◌==◌, eq_iff, false, none, some, arith,
  Option-cases, Bool-cases,
}
use agreements_generator_api.Effect.{ok, fail, Result-cases}
use agreements_generator_api.Domain.Errors.{
  Err, AppErr, app, as_app_err, wrapf, wrapv, unauthorized, invalid_token,
}
use agreements_generator_api.Encoder.{Encoder, TokenUser}
use agreements_generator_api.TokenManager.{TokenManager}
use agreements_generator_api.Service.{string_value, int_value}
use agreements_generator_api.Api.{Request, ResponseWriter, Handler}
use agreements_generator_api.Api.Response.{write_error}
use agreements_generator_api.Api.Token.{
  cut_prefix, is_space, trim_start, trim_end, trim_space, mw_auth,
}
use Prim.Native.Char.{code}
use text.Mathlib.TextPositions.{starts_with-append, slice-append_right, len-append}
use text.Mathlib.TextLemmas.{nil-append, cons-append, cons-ne-nil, append-eq-nil_iff}

module _ {W : Type 0} (tm : TokenManager W) (enc : Encoder) (next : Handler W) (r : Request)
    (w : ResponseWriter) (s : W) where
  -- The request carries a token with the prefix that is validated and parsed, and is handed on with
  -- the token's login and id under their keys of the context.
  pub record IsAdmitted : Type 0 where
    pub rest : String
    pub user : TokenUser
    pub given : r.authorization ≢ ""
    pub cut : cut_prefix r.authorization tm.get_prefix ≡ some rest
    pub valid : (tm.validate (trim_space rest) s).0 ≡ ok tt
    pub parsed : (tm.parse (trim_space rest) (tm.validate (trim_space rest) s).1).0 ≡ ok user
    pub passed :
        mw_auth tm enc next r w s
        ≡ next
            (record r {
              ctx = record { login = string_value user.login; user_id = int_value user.id };
            })
            w
            (tm.parse (trim_space rest) (tm.validate (trim_space rest) s).1).1

  -- Why a request is refused, and the state of the refusal: that of the request where the header is
  -- missing or has no prefix, else the one that the token manager's own calls leave.
  abbrev pub Refusal : W → Type 0
  Refusal after =
      ((r.authorization ≡ "") × (after ≡ s))
      ⊎ ((cut_prefix r.authorization tm.get_prefix ≡ none) × (after ≡ s))
      ⊎ ((rest : String) × (e : Err) × (cut_prefix r.authorization tm.get_prefix ≡ some rest)
          × ((tm.validate (trim_space rest) s).0 ≡ fail e)
          × (after ≡ (tm.validate (trim_space rest) s).1))
      ⊎ ((rest : String) × (e : Err) × (cut_prefix r.authorization tm.get_prefix ≡ some rest)
          × ((tm.validate (trim_space rest) s).0 ≡ ok tt)
          × ((tm.parse (trim_space rest) (tm.validate (trim_space rest) s).1).0 ≡ fail e)
          × (after ≡ (tm.parse (trim_space rest) (tm.validate (trim_space rest) s).1).1))

  -- The request is answered with an error of the status 401, in the state of its refusal.
  pub record IsRefused : Type 0 where
    pub error : Err
    pub app_err : AppErr
    pub shown : as_app_err error ≡ some app_err
    pub status : app_err.http_status ≡ 401
    pub after : W
    pub reason : Refusal after
    pub answered : mw_auth tm enc next r w s ≡ (write_error enc error w, after)

  -- Every request is either handed on, with the login and the id of its token in the context, where
  -- the header has the prefix and the token manager validates and parses what follows it; or it is
  -- answered with an error of the status 401, in the state that the request found where the header
  -- is missing or lacks the prefix, and in the state after the token manager's calls where it
  -- refuses the token, so that the handler has not run.
  pub mw_auth_cases : IsAdmitted ⊎ IsRefused
  unfolding mw_auth as_app_err wrapf wrapv
  mw_auth_cases = elim (Bool-cases (r.authorization == "")) [
    | inl empty ↦ inr (record {
      error = app unauthorized;
      app_err = unauthorized;
      shown = refl;
      status = refl;
      after = s;
      reason = inl ((eq_iff r.authorization "").0 empty, refl);
      answered = ground arith;
    })
    | inr given ↦ elim (Option-cases (cut_prefix r.authorization tm.get_prefix)) [
      | inl bare ↦ inr (record {
        error = wrapf "token without prefix" (app unauthorized);
        app_err = unauthorized;
        shown = refl;
        status = refl;
        after = s;
        reason = inr (inl (bare, refl));
        answered = ground arith;
      })
      | inr (rest, cut) ↦ elim (Result-cases (tm.validate (trim_space rest) s).0) [
        | inr (e, bad) ↦ inr (record {
          error = wrapv "invalid token" e (app invalid_token);
          app_err = invalid_token;
          shown = refl;
          status = refl;
          after = (tm.validate (trim_space rest) s).1;
          reason = inr (inr (inl (rest, e, cut, bad, refl)));
          answered = ground arith;
        })
        | inl (u, valid) ↦
            elim (Result-cases (tm.parse (trim_space rest) (tm.validate (trim_space rest) s).1).0) [
              | inr (e, bad) ↦ inr (record {
                error = wrapv "invalid token" e (app invalid_token);
                app_err = invalid_token;
                shown = refl;
                status = refl;
                after = (tm.parse (trim_space rest) (tm.validate (trim_space rest) s).1).1;
                reason = inr (inr (inr (rest, e, cut, ground arith, bad, refl)));
                answered = ground arith;
              })
              | inl (user, parsed) ↦ inl (record {
                rest = rest;
                user = user;
                given = ground (arith, eq_iff r.authorization "");
                cut = cut;
                valid = ground arith;
                parsed = parsed;
                passed = ground arith;
              })
            ]
      ]
    ]
  ]

-- A text without white space, as a signed token is.
abbrev pub NoSpace : String → Type 0
NoSpace String.[] = Unit
NoSpace (String.◌∷◌ c s) = (is_space (code c) ≡ false) × NoSpace s

trim_start-NoSpace : (s : String) → NoSpace s → trim_start s ≡ s
unfolding trim_start
trim_start-NoSpace String.[] h = refl
trim_start-NoSpace (String.◌∷◌ c s) (h, hs) = rw h

trim_end-NoSpace : (s : String) → NoSpace s → trim_end s ≡ s
unfolding trim_end
trim_end-NoSpace String.[] h = refl
trim_end-NoSpace (String.◌∷◌ c s) (h, hs) = ground (arith, trim_end-NoSpace s hs)

trim_space-space : (s : String) → NoSpace s → trim_space (" " <> s) ≡ s
unfolding trim_space
trim_space-space s h =
    rw (cons-append, nil-append) (ap trim_end (trim_start-NoSpace s h) ∙ trim_end-NoSpace s h)

cut_prefix-append : (p s : String) → cut_prefix (p <> s) p ≡ some s
unfolding cut_prefix
cut_prefix-append p s =
    rw starts_with-append (ap some (rw (len-append p s) (slice-append_right p s)))

append-ne-nil : (p token : String) → p <> (" " <> token) ≢ ""
append-ne-nil p token e =
    let none_left : " " <> token ≡ "" = ((append-eq-nil_iff {p = p} {q = " " <> token}).0 e).1 in
    cons-ne-nil _ _ (rw cons-append at none_left)

-- A token with its prefix and one space in the header.
abbrev pub authorized : String → String → Request → Request
authorized prefix token r = record r { authorization = prefix <> (" " <> token) }

-- A request whose header is the prefix, a space and a token that the token manager validates and
-- parses is handed on with the token's login and id in its context.
pub mw_auth-authorized :
    {W : Type 0} (tm : TokenManager W) (enc : Encoder) (next : Handler W) (r : Request)
    (w : ResponseWriter) (s : W) (token : String) (user : TokenUser)
    → NoSpace token
    → (tm.validate token s).0 ≡ ok tt
    → (tm.parse token (tm.validate token s).1).0 ≡ ok user
    → mw_auth tm enc next (authorized tm.get_prefix token r) w s
      ≡ next
          (record (authorized tm.get_prefix token r) {
            ctx = record { login = string_value user.login; user_id = int_value user.id };
          })
          w
          (tm.parse token (tm.validate token s).1).1
unfolding mw_auth
mw_auth-authorized tm enc next r w s token user spaceless valid parsed = ground (
  arith,
  eq_iff (tm.get_prefix <> (" " <> token)) "",
  append-ne-nil tm.get_prefix token,
  cut_prefix-append tm.get_prefix (" " <> token),
  trim_space-space token spaceless,
)
