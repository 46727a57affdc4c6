-- ===== src/GenClient/Bounds.antt =====
-- The numbers of a response: the client's 64-bit integers stand for the message's 32-bit ones.
use agreements_generator_api.Prelude.{ℕ, ◌^◌, ◌<◌, ◌≡◌, refl, List, [], ◌∷◌, map, arith}
use agreements_generator_api.Prelude.Int.{signed}
use agreements_generator_api.Domain.Generator.{FileError, FilesErrors}
use agreements_generator_api.GenClient.{
  ProtoFileError, ProtoFileErrors, GenerateResponse, int_of_int32, file_error, files_errors,
  convert,
}

-- A message off the wire: each int32 is a pattern of 32 bits.
abbrev pub AreCodes : List ProtoFileError → Type 0
AreCodes [] = Unit
AreCodes (e ∷ es) = (e.code < 2 ^ 32) × AreCodes es

abbrev pub AreFiles : List ProtoFileErrors → Type 0
AreFiles [] = Unit
AreFiles (f ∷ fs) = AreCodes f.errors × AreFiles fs

abbrev pub IsMessage : GenerateResponse → Type 0
IsMessage a = (a.generated_count < 2 ^ 32) × AreFiles a.errors

-- The pattern `y` of an int stands for the same integer as the pattern `x` of an int32.
abbrev pub SameInteger : ℕ → ℕ → Type 0
SameInteger x y = (y < 2 ^ 64) × (signed 63 y ≡ signed 31 x)

abbrev pub SameErrors : List ProtoFileError → List FileError → Type 0
SameErrors [] [] = Unit
SameErrors (e ∷ es) (f ∷ fs) = SameInteger e.code f.code × (f.msg ≡ e.message) × SameErrors es fs
SameErrors _ _ = ⊥

abbrev pub SameFiles : List ProtoFileErrors → List FilesErrors → Type 0
SameFiles [] [] = Unit
SameFiles (e ∷ es) (f ∷ fs) =
    (f.name ≡ e.file_name) × SameErrors e.errors f.errors × SameFiles es fs
SameFiles _ _ = ⊥

int_of_int32-SameInteger : (x : ℕ) → x < 2 ^ 32 → SameInteger x (int_of_int32 x)
unfolding int_of_int32 signed
int_of_int32-SameInteger x h = ground arith

map-SameErrors : (es : List ProtoFileError) → AreCodes es → SameErrors es (map file_error es)
unfolding file_error
map-SameErrors [] h = tt
map-SameErrors (e ∷ es) (h, hs) = (int_of_int32-SameInteger e.code h, refl, map-SameErrors es hs)

map-SameFiles : (fs : List ProtoFileErrors) → AreFiles fs → SameFiles fs (map files_errors fs)
unfolding files_errors
map-SameFiles [] h = tt
map-SameFiles (f ∷ fs) (h, hs) = (refl, map-SameErrors f.errors h, map-SameFiles fs hs)

-- The conversion of the worker's response loses nothing: the archive is the message's, the count
-- and the code of each error are 64-bit patterns of the integers in the message, also where these
-- are negative, and the files and their errors come in the same order, with their names and texts.
pub convert_bounds :
    (a : GenerateResponse)
    → IsMessage a
    → ((convert a).archive ≡ a.zip_archive)
      × SameInteger a.generated_count (convert a).gen_count
      × SameFiles a.errors (convert a).errors
unfolding convert
convert_bounds a (h, hs) =
    (refl, int_of_int32-SameInteger a.generated_count h, map-SameFiles a.errors hs)
