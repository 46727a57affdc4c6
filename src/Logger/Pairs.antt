-- ===== src/Logger/Pairs.antt =====
-- Calls of the logger with pairs of a key and a value, and with a key too many.
use agreements_generator_api.Prelude.{
  ◌≡◌, ◌↔◌, refl, ap, ◌∙◌, String, List, [], ◌∷◌, ◌++◌, Option, none, some, arith,
}
use agreements_generator_api.Logger.{Arg, text, Field, field_of, put, to_zap_fields}

-- The arguments of a call, from its pairs.
abbrev pub flat : List (Arg × Arg) → List Arg
flat [] = []
flat ((key, value) ∷ pairs) = key ∷ value ∷ flat pairs

-- The field of a pair: none if the key is not a string.
abbrev pub fields_of : List (Arg × Arg) → List Field
fields_of [] = []
fields_of ((text key, value) ∷ pairs) = field_of key value ∷ fields_of pairs
fields_of ((_, value) ∷ pairs) = fields_of pairs

-- Pairs never make the logger panic: it gets one field for each pair whose key is a string, in the
-- order of the pairs.
pub to_zap_fields-flat :
    (pairs : List (Arg × Arg)) → to_zap_fields (flat pairs) ≡ some (fields_of pairs)
unfolding to_zap_fields
to_zap_fields-flat [] = refl
to_zap_fields-flat ((text key, value) ∷ pairs) =
    ap (put (field_of key value)) (to_zap_fields-flat pairs)
to_zap_fields-flat ((_, value) ∷ pairs) = to_zap_fields-flat pairs

-- Pairs, and then a string without a value.
abbrev pub HasDanglingKey : List Arg → Type 0
HasDanglingKey args =
    (pairs : List (Arg × Arg)) × (key : String) × (args ≡ flat pairs ++ (text key ∷ []))

dangling :
    (pairs : List (Arg × Arg)) (key : String) → to_zap_fields (flat pairs ++ (text key ∷ [])) ≡ none
unfolding to_zap_fields
dangling [] key = refl
dangling ((text k, value) ∷ pairs) key = ap (put (field_of k value)) (dangling pairs key)
dangling ((_, value) ∷ pairs) key = dangling pairs key

put-none : (f : Field) (r : Option (List Field)) → put f r ≡ none → r ≡ none
put-none f none h = refl
put-none f (some fields) h = ground arith

more : (a b : Arg) (args : List Arg) → HasDanglingKey args → HasDanglingKey (a ∷ b ∷ args)
more a b args (pairs, key, e) = ((a, b) ∷ pairs, key, ap (λ l. a ∷ b ∷ l) e)

panics-HasDanglingKey : (args : List Arg) → to_zap_fields args ≡ none → HasDanglingKey args
unfolding to_zap_fields
panics-HasDanglingKey [] h = ground arith
panics-HasDanglingKey (text key ∷ []) h = ([], key, refl)
panics-HasDanglingKey (_ ∷ []) h = ground arith
panics-HasDanglingKey (text key ∷ value ∷ args) h =
    more (text key) value args
      (panics-HasDanglingKey args (put-none (field_of key value) (to_zap_fields args) h))
panics-HasDanglingKey (a ∷ b ∷ args) h = more a b args (panics-HasDanglingKey args h)

-- A log call panics exactly when its arguments are pairs followed by a string without a value.
pub to_zap_fields-HasDanglingKey :
    (args : List Arg) → (to_zap_fields args ≡ none) ↔ HasDanglingKey args
to_zap_fields-HasDanglingKey args =
    (panics-HasDanglingKey args, λ (pairs, key, e). ap to_zap_fields e ∙ dangling pairs key)

-- At most one argument that is left over, no string.
abbrev pub IsKeyless : List Arg → Type 0
IsKeyless [] = Unit
IsKeyless (text key ∷ []) = ⊥
IsKeyless (_ ∷ []) = Unit
IsKeyless (_ ∷ _ ∷ _) = ⊥

-- The fields are those of the pairs of the arguments.
abbrev pub AreFields : List Arg → List Field → Type 0
AreFields args fields =
    (pairs : List (Arg × Arg)) × (rest : List Arg) × IsKeyless rest
    × (args ≡ flat pairs ++ rest)
    × (fields ≡ fields_of pairs)

put-some :
    (f : Field) (r : Option (List Field)) (fields : List Field)
    → put f r ≡ some fields
    → (tail : List Field) × (r ≡ some tail) × (fields ≡ f ∷ tail)
put-some f none fields h = absurd (ground arith)
put-some f (some tail) fields h = (tail, refl, ground (arith, h))

pub to_zap_fields-AreFields :
    (args : List Arg) (fields : List Field)
    → to_zap_fields args ≡ some fields
    → AreFields args fields
unfolding to_zap_fields
to_zap_fields-AreFields [] fields h = ([], [], tt, refl, ground (arith, h))
to_zap_fields-AreFields (text key ∷ []) fields h = absurd (ground arith)
to_zap_fields-AreFields (a ∷ []) fields h = ([], a ∷ [], tt, refl, ground (arith, h))
to_zap_fields-AreFields (text key ∷ value ∷ args) fields h =
    let (tail, r, e) = put-some (field_of key value) (to_zap_fields args) fields h in
    let (pairs, rest, keyless, d, f) = to_zap_fields-AreFields args tail r in
    (
      (text key, value) ∷ pairs,
      rest,
      keyless,
      ap (λ l. text key ∷ value ∷ l) d,
      e ∙ ap (λ l. field_of key value ∷ l) f,
    )
to_zap_fields-AreFields (a ∷ b ∷ args) fields h =
    let (pairs, rest, keyless, d, f) = to_zap_fields-AreFields args fields h in
    ((a, b) ∷ pairs, rest, keyless, ap (λ l. a ∷ b ∷ l) d, f)
