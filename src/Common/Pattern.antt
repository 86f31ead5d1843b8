-- ===== src/Common/Pattern.antt =====
-- The shapes of Python's `re` that the programs use, over single characters. In `re.match`, `$`
-- stands at the end of a text or in front of a newline that ends it.
use Prim.Native.Nat.{ℕ, zero, suc, ◌-◌}
use Prim.Native.Char.{Char, code}
use Prim.Native.String.{String}
use mathlib.Core.Bool.{Bool, true, false, ◌&&◌, ◌||◌}
use homeassistant_addons.Common.Tests.{leb, ltb, eqb}

-- `[lo-hi]`
abbrev pub between : ℕ → ℕ → Char → Bool
between lo hi c = leb lo (code c) && leb (code c) hi

abbrev pub is_char : ℕ → Char → Bool
is_char n c = eqb (code c) n

abbrev pub is_digit : Char → Bool
is_digit c = between b'0' b'9' c

-- `[a-zA-Z0-9]`
unfoldable pub is_alnum : Char → Bool
is_alnum c = between b'a' b'z' c || (between b'A' b'Z' c || is_digit c)

-- `[a-z0-9]`
unfoldable pub is_lower_alnum : Char → Bool
is_lower_alnum c = between b'a' b'z' c || is_digit c

-- `$`
unfoldable pub at_end : String → Bool
at_end String.[] = true
at_end (String.◌∷◌ c String.[]) = is_char b'\n' c
at_end (String.◌∷◌ c (String.◌∷◌ d s)) = false

-- `[p]{0,n}$`
unfoldable pub within : (Char → Bool) → ℕ → String → Bool
within p n String.[] = true
within p n (String.◌∷◌ c s) = at_end (String.◌∷◌ c s) || (ltb 0 n && (p c && within p (n - 1) s))

-- `[p]{n}$`
unfoldable pub exactly : (Char → Bool) → ℕ → String → Bool
exactly p zero s = at_end s
exactly p (suc n) String.[] = false
exactly p (suc n) (String.◌∷◌ c s) = p c && exactly p n s

-- `^[first][rest]{0,n}$`
unfoldable pub shaped : (Char → Bool) → (Char → Bool) → ℕ → String → Bool
shaped first rest n String.[] = false
shaped first rest n (String.◌∷◌ c s) = first c && within rest n s
