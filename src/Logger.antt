-- ===== src/Logger.antt =====
-- internal/logger/logger.go: the loggers, and how the arguments of a log call become fields. What
-- zap does with the fields is output, here a parameter.
pub mod Calls
pub mod Pairs
use agreements_generator_api.Prelude.{
  ℕ, String, ◌==◌, Bool, List, [], ◌∷◌, Option, none, some, if◌then◌else◌,
}
use agreements_generator_api.Effect.{Result, map_error}
use agreements_generator_api.Config.{Config}
use agreements_generator_api.Domain.Errors.{Err, wrapf}

-- The calls of zap.String, zap.Int, zap.Int64, zap.Float64, zap.Bool, zap.Error and zap.Any.
pub data Field : Type 0 where
  string_field : String → String → Field
  int_field : String → ℕ → Field
  int64_field : String → ℕ → Field
  float64_field : String → ℕ → Field
  bool_field : String → Bool → Field
  error_field : Err → Field
  any_field : String → ℕ → Field

-- An argument of type `any`, by the cases of the source's `switch`; a float64 is its bit pattern,
-- `other` a value of any other type, by a number that stands for it.
pub data Arg : Type 0 where
  text : String → Arg
  int : ℕ → Arg
  int64 : ℕ → Arg
  float64 : ℕ → Arg
  bool : Bool → Arg
  err : Err → Arg
  field : Field → Arg
  other : ℕ → Arg

-- The `switch` on the value.
unfoldable pub field_of : String → Arg → Field
field_of key (text v) = string_field key v
field_of key (int v) = int_field key v
field_of key (int64 v) = int64_field key v
field_of key (float64 v) = float64_field key v
field_of key (bool v) = bool_field key v
field_of key (err e) = error_field e
field_of key (field f) = f
field_of key (other v) = any_field key v

abbrev pub put : Field → Option (List Field) → Option (List Field)
put f none = none
put f (some fields) = some (f ∷ fields)

-- `toZapFields`; `none` is a panic. Where the key is the last argument, the field for the missing
-- value is appended and `args[i+1]` is read all the same, out of range.
unfoldable pub to_zap_fields : List Arg → Option (List Field)
to_zap_fields [] = some []
to_zap_fields (text key ∷ []) = none
to_zap_fields (_ ∷ []) = some []
to_zap_fields (text key ∷ value ∷ args) = put (field_of key value) (to_zap_fields args)
to_zap_fields (_ ∷ _ ∷ args) = to_zap_fields args

pub data Level : Type 0 where
  fatal error warn debug info : Level

-- How a call ends: it returns, it ends the program, as zap does after a message of level fatal, or
-- it panics.
pub data Outcome (S : Type 0) : Type 0 where
  returned exited : S → Outcome S
  panicked : Outcome S

-- `Logger`: the method of a level takes the message and the arguments.
abbrev pub Logger : Type 0 → Type 0
Logger S = Level → String → List Arg → S → Outcome S

-- zap.Logger
abbrev pub Zap : Type 0 → Type 0
Zap S = Level → String → List Field → S → S

module _ {S : Type 0} where
  abbrev pub written : Level → S → Outcome S
  written fatal s = exited s
  written _ s = returned s

  abbrev pub hand_over : Zap S → Level → String → Option (List Field) → S → Outcome S
  hand_over zap level msg none s = panicked
  hand_over zap level msg (some fields) s = written level (zap level msg fields s)

  -- The methods of `zapLogger`.
  unfoldable pub zap_logger : Zap S → Logger S
  unfolding to_zap_fields
  zap_logger zap level msg args s = hand_over zap level msg (to_zap_fields args) s

  -- The methods of `NoOpLogger`.
  unfoldable pub new_noop : Logger S
  new_noop level msg args s = returned s

  abbrev pub with_methods : Result (Zap S) → Result (Logger S)
  with_methods (Result.ok zap) = Result.ok (zap_logger zap)
  with_methods (Result.fail e) = Result.fail (wrapf "can't init logger" e)

  -- `newZap`, over zap.NewProduction and zap.NewDevelopment.
  unfoldable pub new_zap : Result (Zap S) → Result (Zap S) → Config → Result (Logger S)
  new_zap production development cfg =
      if cfg.log.level == "production"
      then with_methods production
      else if cfg.log.level == "development"
      then with_methods development
      else with_methods development

  -- `Load`
  unfoldable pub load : Result (Zap S) → Result (Zap S) → Config → Result (Logger S)
  unfolding new_zap
  load production development cfg =
      if cfg.log.kind == "zap"
      then new_zap production development cfg
      else new_zap production development cfg
