-- ===== src/Prelude/Dict.antt =====
-- Go's `map[string]V` as an association list. The program never depends on the order of a map, and
-- the proofs outside of this file go by the laws of `lookup`.
use agreements_generator_api.Prelude.Tests.{if◌then◌else◌}
use Prim.Native.String.{String}
use mathlib.Core.Path.{◌≡◌, refl}
use mathlib.Core.Bool.{Bool}
use mathlib.Core.Option.{Option, none, some}
use mathlib.Core.List.{List, [], ◌∷◌}
use native.Mathlib.Omega.{arith}
use text.Mathlib.Text.{◌==◌}
use text.Mathlib.TextEquality.{eq_iff}

abbrev pub Dict {ℓ} : Type ℓ → Type ℓ
Dict V = List (String × V)

module _ {ℓ} {V : Type ℓ} where
  -- `v, exists := m[key]`
  unfoldable pub lookup : String → Dict V → Option V
  lookup key [] = none
  lookup key (entry ∷ rest) = if entry.0 == key then some entry.1 else lookup key rest

  -- `m[key] = new`
  unfoldable pub insert : String → V → Dict V → Dict V
  insert key new [] = (key, new) ∷ []
  insert key new (entry ∷ rest) =
      if entry.0 == key then (entry.0, new) ∷ rest else entry ∷ insert key new rest

  -- The loop `for k, v := range m { if drop(v) { delete(m, k) } }`.
  unfoldable pub delete_if : (V → Bool) → Dict V → Dict V
  delete_if drop [] = []
  delete_if drop ((j, w) ∷ m) =
      let rest = delete_if drop m in if drop w then rest else (j, w) ∷ rest

  -- A map holds a key once.
  abbrev pub NodupKeys : Dict V → Type ℓ
  NodupKeys [] = Unit
  NodupKeys ((k, v) ∷ m) = (lookup k m ≡ none) × NodupKeys m

  pub lookup-insert :
      (key other : String) (new : V) (m : Dict V)
      → lookup other (insert key new m) ≡ (if key == other then some new else lookup other m)
  unfolding insert lookup
  lookup-insert key other new [] = refl
  lookup-insert key other new (entry ∷ rest) = ground (
    arith,
    lookup-insert key other new rest,
    eq_iff entry.0 key,
    eq_iff entry.0 other,
    eq_iff key other,
  )

  pub insert-NodupKeys : (k : String) (v : V) (m : Dict V) → NodupKeys m → NodupKeys (insert k v m)
  unfolding insert lookup
  insert-NodupKeys k v [] h = (refl, tt)
  insert-NodupKeys k v ((j, w) ∷ m) (fresh, h) =
      ground (arith, eq_iff j k, eq_iff k j, lookup-insert k j v m, insert-NodupKeys k v m h)

  lookup-delete_if_missing :
      (drop : V → Bool) (k : String) (m : Dict V)
      → lookup k m ≡ none
      → lookup k (delete_if drop m) ≡ none
  unfolding lookup delete_if
  lookup-delete_if_missing drop k [] h = refl
  lookup-delete_if_missing drop k ((j, w) ∷ m) h =
      ground (arith, eq_iff j k, lookup-delete_if_missing drop k m)

  pub delete_if-NodupKeys :
      (drop : V → Bool) (m : Dict V) → NodupKeys m → NodupKeys (delete_if drop m)
  unfolding delete_if
  delete_if-NodupKeys drop [] h = tt
  delete_if-NodupKeys drop ((j, w) ∷ m) (fresh, h) =
      ground (arith, delete_if-NodupKeys drop m h, lookup-delete_if_missing drop j m)

  -- What `v` becomes: gone if the loop drops it.
  abbrev pub keep : (V → Bool) → Option V → Option V
  keep drop none = none
  keep drop (some v) = if drop v then none else some v

  pub lookup-delete_if :
      (drop : V → Bool) (k : String) (m : Dict V)
      → NodupKeys m
      → lookup k (delete_if drop m) ≡ keep drop (lookup k m)
  unfolding lookup delete_if
  lookup-delete_if drop k [] h = refl
  lookup-delete_if drop k ((j, w) ∷ m) (fresh, h) =
      ground (arith, eq_iff j k, lookup-delete_if drop k m h, lookup-delete_if_missing drop k m)
