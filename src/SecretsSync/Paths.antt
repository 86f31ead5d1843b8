-- ===== src/SecretsSync/Paths.antt =====
-- `safe_relpath` of secrets-sync/app/engine/writer.py.
pub mod Laws
use Prim.Native.Char.{Char, code}
use Prim.Native.String.{String, [] as nil, ◌∷◌ as ◌∷ˢ◌}
use homeassistant_addons.Common.{
  ℕ, Bool, true, false, ◌||◌, List, [], ◌∷◌, eqb, any, contains, ◌==◌, string_eq, Result, ok, err,
  if◌then◌else◌,
}

-- `"c" in s`, for a character given by its code
unfoldable pub has_char : ℕ → String → Bool
has_char c String.[] = false
has_char c (String.◌∷◌ d s) = if eqb (code d) c then true else has_char c s

-- `s.startswith("/")`
unfoldable pub is_absolute : String → Bool
is_absolute String.[] = false
is_absolute (String.◌∷◌ d s) = eqb (code d) b'/'

-- What `split` has when a character `d` is put in front of the text.
abbrev push : Char → List String → List String
push d [] = String.◌∷◌ d String.[] ∷ []
push d (part ∷ parts) = String.◌∷◌ d part ∷ parts

-- `s.split("/")`
unfoldable pub split : String → List String
split String.[] = String.[] ∷ []
split (String.◌∷◌ d s) =
    let rest = split s in if eqb (code d) b'/' then String.[] ∷ rest else push d rest

-- `p in ("", ".", "..")`
unfoldable pub is_dots : String → Bool
is_dots p = contains ("" ∷ "." ∷ ".." ∷ []) p

pub data UnsafePath : Type 0 where
  unsafe_path : UnsafePath

-- The argument is a string, so the test of its type is true.
unfoldable pub safe_relpath : String → Result UnsafePath (List String)
safe_relpath rel =
    if rel == "" || (is_absolute rel || (has_char b'\\' rel || has_char 0 rel))
    then err unsafe_path
    else if any is_dots (split rel)
    then err unsafe_path
    else ok (split rel)
