-- ===== src/Logger/Calls.antt =====
-- The calls of the logger that `Load` gives.
use agreements_generator_api.Prelude.{
  ◌≡◌, refl, sym, ap, ◌∙◌, ◌⊎◌, inl, inr, String, ◌==◌, List, if◌then◌else◌, arith, Option-cases,
}
use mathlib.Core.Path.{subst}
use agreements_generator_api.Effect.{Result, ok, fail}
use agreements_generator_api.Config.{Config}
use agreements_generator_api.Logger.{
  Arg, Field, to_zap_fields, Level, Outcome, panicked, Logger, Zap, written, hand_over, zap_logger,
  with_methods, new_zap, load,
}
use agreements_generator_api.Logger.Pairs.{
  HasDanglingKey, AreFields, to_zap_fields-AreFields, to_zap_fields-HasDanglingKey,
}

module _ {S : Type 0} where
  with_methods-ok :
      (r : Result (Zap S)) (logger : Logger S)
      → with_methods r ≡ ok logger
      → (zap : Zap S) × (r ≡ ok zap) × (logger ≡ zap_logger zap)
  with_methods-ok (ok zap) logger h = (zap, refl, ground (arith, h))
  with_methods-ok (fail e) logger h = absurd (ground (arith, h))

  -- A call panics on pairs followed by a string without a value; else the fields of its pairs are
  -- written.
  abbrev pub Logs : Zap S → Level → String → List Arg → S → Outcome S → Type 0
  Logs zap level msg args s outcome =
      (HasDanglingKey args × (outcome ≡ panicked))
      ⊎ ((fields : List Field) × AreFields args fields
          × (outcome ≡ written level (zap level msg fields s)))

  zap_logger-Logs :
      (zap : Zap S) (level : Level) (msg : String) (args : List Arg) (s : S)
      → Logs zap level msg args s (zap_logger zap level msg args s)
  unfolding zap_logger
  zap_logger-Logs zap level msg args s = elim (Option-cases (to_zap_fields args)) [
    | inl e ↦ inl ((to_zap_fields-HasDanglingKey args).0 e, ap (λ o. hand_over zap level msg o s) e)
    | inr (fields, e) ↦
        inr (fields, to_zap_fields-AreFields args fields e, ap (λ o. hand_over zap level msg o s) e)
  ]

module _ {S : Type 0} (production development : Result (Zap S)) where
  -- The one of the two that the level of the configuration chooses.
  abbrev pub chosen : Config → Result (Zap S)
  chosen cfg = if cfg.log.level == "production" then production else development

  load-chosen : (cfg : Config) → load production development cfg ≡ with_methods (chosen cfg)
  unfolding load new_zap
  load-chosen cfg = ground arith

  -- A logger that `Load` gives is zap's production logger exactly for the level production of the
  -- configuration, and zap's development logger for every other; a call of one of its methods
  -- panics where its arguments are pairs followed by a string without a value, and otherwise writes
  -- one field for each pair whose key is a string, in the order of the pairs, whereupon a message
  -- of level fatal ends the program and any other call returns.
  pub load-Logs :
      (cfg : Config) (logger : Logger S) (level : Level) (msg : String) (args : List Arg) (s : S)
      → load production development cfg ≡ ok logger
      → (zap : Zap S) × ((if cfg.log.level == "production" then production else development)
          ≡ ok zap)
        × Logs zap level msg args s (logger level msg args s)
  load-Logs cfg logger level msg args s h =
      let (zap, e, same) = with_methods-ok (chosen cfg) logger (sym (load-chosen cfg) ∙ h) in
      (
        zap,
        e,
        subst (λ l. Logs zap level msg args s (l level msg args s)) (sym same)
            (zap_logger-Logs zap level msg args s),
      )
