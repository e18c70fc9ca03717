-- ===== src/Vectors/Directory.antt =====
-- The files of a directory of vectors. Reading them is Python's and the file system's: what they
-- hold is an argument of the model.
use specora_verify.Base.{
  ℕ, String, Bool, ◌&&◌, ◌==◌, true, false, Option, List, [], ◌∷◌, if◌then◌else◌, Char,
}
use specora_verify.Platform.{Platform}
use specora_verify.Json.{Value}

-- A file that is read as JSON; its bytes are UTF-8.
pub data JsonFile : Type 0 where
  absent malformed : JsonFile
  parsed : Value → JsonFile

pub record Directory : Type 0 where
  pub exists : Bool
  pub json : String → JsonFile
  pub bytes : String → Option (List ℕ)
  pub text : String → Option String

-- `a == b` on bytes
abbrev pub bytes_eq : List ℕ → List ℕ → Bool
bytes_eq [] [] = true
bytes_eq (a ∷ xs) (b ∷ ys) = a == b && bytes_eq xs ys
bytes_eq xs ys = false

abbrev strip_left : Platform → String → String
strip_left P String.[] = String.[]
strip_left P (String.◌∷◌ c s) = if P.is_space c then strip_left P s else String.◌∷◌ c s

abbrev in_front : Platform → Char → String → String
in_front P c String.[] = if P.is_space c then String.[] else String.◌∷◌ c String.[]
in_front P c (String.◌∷◌ d s) = String.◌∷◌ c (String.◌∷◌ d s)

abbrev strip_right : Platform → String → String
strip_right P String.[] = String.[]
strip_right P (String.◌∷◌ c s) = in_front P c (strip_right P s)

-- `s.strip()`
abbrev pub strip : Platform → String → String
strip P s = strip_right P (strip_left P s)
