-- ===== src/Effect.antt =====
-- Go functions that return `(A, error)` and act on a state `S`: what they return, and how their
-- calls are chained.
use agreements_generator_api.Prelude.{◌≡◌, refl, ◌⊎◌, inl, inr, Option, none, some}
use agreements_generator_api.Domain.Errors.{Err}

pub data Result {ℓ} (A : Type ℓ) : Type ℓ where
  ok : A → Result A
  fail : Err → Result A

abbrev pub Proc : Type 0 → Type 0 → Type 0
Proc S A = S → Result A × S

-- The value of `err` after a call.
abbrev pub error_of {ℓ} : {A : Type ℓ} → Result A → Option Err
error_of (ok a) = none
error_of (fail e) = some e

abbrev pub map_error {ℓ} : {A : Type ℓ} → (Err → Err) → Result A → Result A
map_error f (ok a) = ok a
map_error f (fail e) = fail (f e)

module _ {S A : Type 0} where
  abbrev pub pure : A → Proc S A
  pure a s = (ok a, s)

  abbrev pub raise : Err → Proc S A
  raise e s = (fail e, s)

  -- A pure call inside of a chain.
  abbrev pub lift : Result A → Proc S A
  lift r s = (r, s)

  -- `return …, f(err)`: the error is wrapped on its way out.
  abbrev pub on_error : (Err → Err) → Proc S A → Proc S A
  on_error f m s = let (r, s') = m s in (map_error f r, s')

  -- `if err := m; err != nil { log }`: the error goes to the log only.
  abbrev pub ignore : Proc S A → Proc S (Unit {0})
  ignore m s = (ok tt, (m s).1)

module _ {S A B : Type 0} where
  abbrev pub continue : Result A → (A → Proc S B) → (Err → Proc S B) → Proc S B
  continue (ok a) f g s = f a s
  continue (fail e) f g s = g e s

  -- `a, err := m; if err != nil { g } ; f`
  abbrev pub handle : Proc S A → (A → Proc S B) → (Err → Proc S B) → Proc S B
  handle m f g s = let (r, s') = m s in continue r f g s'

  infixl 5 ◌>>=◌ ◌>>◌
  abbrev pub ◌>>=◌ : Proc S A → (A → Proc S B) → Proc S B
  m >>= f = handle m f raise

  abbrev pub ◌>>◌ : Proc S A → Proc S B → Proc S B
  m >> n = m >>= λ _. n

-- A component's state beside another's.
module _ {S T A : Type 0} where
  abbrev pub on_first : Proc S A → Proc (S × T) A
  on_first m (s, t) = let (r, s') = m s in (r, (s', t))

  abbrev pub on_second : Proc T A → Proc (S × T) A
  on_second m (s, t) = let (r, t') = m t in (r, (s, t'))

pub Result-cases {ℓ} :
    {A : Type ℓ} (r : Result A) → ((a : A) × (r ≡ ok a)) ⊎ ((e : Err) × (r ≡ fail e))
Result-cases (ok a) = inl (a, refl)
Result-cases (fail e) = inr (e, refl)

pub Call-cases :
    {S A : Type 0} (m : Proc S A) (s : S)
    → ((a : A) × (s' : S) × (m s ≡ (ok a, s'))) ⊎ ((e : Err) × (s' : S) × (m s ≡ (fail e, s')))
Call-cases m s = elim (Result-cases (m s).0) [
  | inl (a, e) ↦ inl (a, (m s).1, λ i. (e i, (m s).1))
  | inr (x, e) ↦ inr (x, (m s).1, λ i. (e i, (m s).1))
]
