-- ===== src/Storage/Postgres/Errors.antt =====
-- `newDomainErrFromPgx`: which error of the application it gives.
use agreements_generator_api.Prelude.{
  ◌≡◌, refl, ◌⊎◌, Bool, true, false, Bool-cases, inl, inr, String, ◌==◌, Option, none, some,
  if◌then◌else◌, arith,
}
use agreements_generator_api.Domain.Errors.{
  AppErr, Err, app, app_over, errorf, no_rows, pg_error, foreign, as_app_err, internal, bad_request,
  not_found, conflict, wrapv,
}
use agreements_generator_api.Storage.Postgres.{new_domain_err, is_no_rows, as_pg_code, of_pg_code}

-- The error at the end of a chain.
abbrev pub root : Err → Err
root (app a) = app a
root (app_over a e) = root e
root (errorf text e) = root e
root no_rows = no_rows
root (pg_error code text) = pg_error code text
root (foreign text) = foreign text

-- The application's error for an error of the driver.
abbrev pub meaning : Err → AppErr
meaning (app a) = internal
meaning (app_over a e) = internal
meaning (errorf text e) = internal
meaning no_rows = not_found
meaning (pg_error code text) = if code == "23505" then conflict else bad_request
meaning (foreign text) = internal

is_no_rows-root : (e : Err) → is_no_rows e ≡ is_no_rows (root e)
unfolding is_no_rows
is_no_rows-root (app a) = refl
is_no_rows-root (app_over a e) = is_no_rows-root e
is_no_rows-root (errorf text e) = is_no_rows-root e
is_no_rows-root no_rows = refl
is_no_rows-root (pg_error code text) = refl
is_no_rows-root (foreign text) = refl

as_pg_code-root : (e : Err) → as_pg_code e ≡ as_pg_code (root e)
unfolding as_pg_code
as_pg_code-root (app a) = refl
as_pg_code-root (app_over a e) = as_pg_code-root e
as_pg_code-root (errorf text e) = as_pg_code-root e
as_pg_code-root no_rows = refl
as_pg_code-root (pg_error code text) = refl
as_pg_code-root (foreign text) = refl

abbrev by_tests : Bool → Option String → AppErr
by_tests true code = not_found
by_tests false none = internal
by_tests false (some code) = if code == "23505" then conflict else bad_request

tests-root : (e : Err) → by_tests (is_no_rows (root e)) (as_pg_code (root e)) ≡ meaning (root e)
unfolding is_no_rows as_pg_code
tests-root (app a) = refl
tests-root (app_over a e) = tests-root e
tests-root (errorf text e) = tests-root e
tests-root no_rows = refl
tests-root (pg_error code text) = refl
tests-root (foreign text) = refl

of_pg_code-by_tests :
    (e : Err) (code : Option String) → as_app_err (of_pg_code e code) ≡ some (by_tests false code)
unfolding as_app_err of_pg_code wrapv
of_pg_code-by_tests e none = refl
of_pg_code-by_tests e (some code) = ground arith

tested :
    (e : Err) (missing : Bool) (code : Option String)
    → as_app_err (
        if missing
        then wrapv "resource not found in storage" e (app not_found)
        else of_pg_code e code)
      ≡ some (by_tests missing code)
unfolding as_app_err wrapv
tested e true code = refl
tested e false code = of_pg_code-by_tests e code

new_domain_err-by_tests :
    (e : Err) → as_app_err (new_domain_err e) ≡ some (by_tests (is_no_rows e) (as_pg_code e))
unfolding new_domain_err
new_domain_err-by_tests e = tested e (is_no_rows e) (as_pg_code e)

-- The application's error that `newDomainErrFromPgx` gives depends on the root of the chain only,
-- and no wrapping of the driver's error hides it: no rows are not found, a unique violation is a
-- conflict, another error of the server a bad request, and all else internal.
pub new_domain_err-root : (e : Err) → as_app_err (new_domain_err e) ≡ some (meaning (root e))
new_domain_err-root e =
    ground (arith, new_domain_err-by_tests e, is_no_rows-root e, as_pg_code-root e, tests-root e)

-- An error with one of the application's four errors that the storage can mean.
abbrev pub IsStorageErr : Err → Type 0
IsStorageErr e =
    (as_app_err e ≡ some not_found)
    ⊎ (as_app_err e ≡ some conflict)
    ⊎ (as_app_err e ≡ some bad_request)
    ⊎ (as_app_err e ≡ some internal)

meaning-IsStorageErr : (x e : Err) → as_app_err e ≡ some (meaning x) → IsStorageErr e
meaning-IsStorageErr (app a) e h = inr (inr (inr h))
meaning-IsStorageErr (app_over a x) e h = inr (inr (inr h))
meaning-IsStorageErr (errorf text x) e h = inr (inr (inr h))
meaning-IsStorageErr no_rows e h = inl h
meaning-IsStorageErr (pg_error code text) e h = elim (Bool-cases (code == "23505")) [
  | inl c ↦ inr (inl (ground arith))
  | inr c ↦ inr (inr (inl (ground arith)))
]
meaning-IsStorageErr (foreign text) e h = inr (inr (inr h))

pub new_domain_err-IsStorageErr : (e : Err) → IsStorageErr (new_domain_err e)
new_domain_err-IsStorageErr e =
    meaning-IsStorageErr (root e) (new_domain_err e) (new_domain_err-root e)
