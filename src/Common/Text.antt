-- ===== src/Common/Text.antt =====
-- Python's operations on `str`, over the characters of the native texts.
pub mod Replace
use Prim.Native.Nat.{ℕ, zero, suc, ◌+◌, ◌-◌, ◌/◌, ◌%◌}
use Prim.Native.Char.{Char, code}
use Prim.Native.String.{String, ◌++◌, char_at}
use mathlib.Core.Path.{◌≡◌, refl}
use mathlib.Core.Bool.{Bool, true, false, ◌&&◌, ◌||◌}
use mathlib.Core.List.{List, [], ◌∷◌}
use homeassistant_addons.Common.Tests.{eqb, leb, ltb, if◌then◌else◌}

-- `len(s)`
unfoldable pub len : String → ℕ
len String.[] = 0
len (String.◌∷◌ c s) = suc (len s)

-- `s[:n]`
unfoldable pub prefix : ℕ → String → String
prefix zero s = ""
prefix (suc n) String.[] = ""
prefix (suc n) (String.◌∷◌ c s) = String.◌∷◌ c (prefix n s)

abbrev pub same_char : Char → Char → Bool
same_char c d = eqb (code c) (code d)

-- `s.startswith(v)`
unfoldable pub starts : String → String → Bool
starts String.[] s = true
starts (String.◌∷◌ a v) String.[] = false
starts (String.◌∷◌ a v) (String.◌∷◌ c s) = same_char a c && starts v s

-- `v in s`
unfoldable pub includes : String → String → Bool
includes v String.[] = starts v ""
includes v (String.◌∷◌ c s) = starts v (String.◌∷◌ c s) || includes v s

-- The code of a character in `s.lower()`, for ASCII texts.
unfoldable pub lower_code : Char → ℕ
lower_code c = if leb b'A' (code c) && leb (code c) b'Z' then code c + 32 else code c

-- `s.upper()`, for ASCII texts
abbrev upper_char : Char → Char
upper_char c =
    if leb b'a' (code c) && leb (code c) b'z'
    then char_at "ABCDEFGHIJKLMNOPQRSTUVWXYZ" (code c - b'a')
    else c

unfoldable pub upper : String → String
upper String.[] = ""
upper (String.◌∷◌ c s) = String.◌∷◌ (upper_char c) (upper s)

-- `s.lower().startswith(v)`
unfoldable pub starts_lower : String → String → Bool
starts_lower String.[] s = true
starts_lower (String.◌∷◌ a v) String.[] = false
starts_lower (String.◌∷◌ a v) (String.◌∷◌ c s) = eqb (lower_code c) (code a) && starts_lower v s

-- `v in s.lower()`
unfoldable pub includes_lower : String → String → Bool
includes_lower v String.[] = starts_lower v ""
includes_lower v (String.◌∷◌ c s) = starts_lower v (String.◌∷◌ c s) || includes_lower v s

-- `s[n:]`
unfoldable pub drop : ℕ → String → String
drop zero s = s
drop (suc n) String.[] = ""
drop (suc n) (String.◌∷◌ c s) = drop n s

-- A character in front of the parts of what follows.
abbrev pub before : ℕ → Char → List String → List String
before n c [] = []
before n c (part ∷ parts) = if eqb (code c) n then "" ∷ part ∷ parts else String.◌∷◌ c part ∷ parts

-- `s.split(c)` for a separator of one character, by its code
unfoldable pub split_on : ℕ → String → List String
split_on n String.[] = "" ∷ []
split_on n (String.◌∷◌ c s) = before n c (split_on n s)

-- `if s.endswith("\r"): s = s[:-1]`
unfoldable pub without_return : String → String
without_return String.[] = ""
without_return (String.◌∷◌ c String.[]) = if eqb (code c) 13 then "" else String.◌∷◌ c ""
without_return (String.◌∷◌ c (String.◌∷◌ d s)) = String.◌∷◌ c (without_return (String.◌∷◌ d s))

-- `s.strip(c)` for one character, by its code: from the left, and from the right
unfoldable pub left_strip : ℕ → String → String
left_strip n String.[] = ""
left_strip n (String.◌∷◌ c s) =
    let rest = left_strip n s in if eqb (code c) n then rest else String.◌∷◌ c s

abbrev pub stripped_behind : ℕ → Char → String → String
stripped_behind n c String.[] = if eqb (code c) n then "" else String.◌∷◌ c ""
stripped_behind n c (String.◌∷◌ d s) = String.◌∷◌ c (String.◌∷◌ d s)

unfoldable pub right_strip : ℕ → String → String
right_strip n String.[] = ""
right_strip n (String.◌∷◌ c s) = stripped_behind n c (right_strip n s)

unfoldable pub strip : ℕ → String → String
unfolding left_strip right_strip
strip n s = right_strip n (left_strip n s)

-- `s[:-1]`
unfoldable pub without_last : String → String
without_last String.[] = ""
without_last (String.◌∷◌ c String.[]) = ""
without_last (String.◌∷◌ c (String.◌∷◌ d s)) = String.◌∷◌ c (without_last (String.◌∷◌ d s))

-- `s.endswith(c)` for one character, by its code
unfoldable pub ends_in : ℕ → String → Bool
ends_in n String.[] = false
ends_in n (String.◌∷◌ c String.[]) = eqb (code c) n
ends_in n (String.◌∷◌ c (String.◌∷◌ d s)) = ends_in n (String.◌∷◌ d s)

-- `replace_from v new k s` drops `k` characters, and replaces `v` from there on.
unfoldable pub replace_from : String → String → ℕ → String → String
replace_from v new k String.[] = ""
replace_from v new (suc k) (String.◌∷◌ c s) = replace_from v new k s
replace_from v new zero (String.◌∷◌ c s) =
    let after = new ++ replace_from v new (len v - 1) s in
    let keep = String.◌∷◌ c (replace_from v new zero s) in
    if starts v (String.◌∷◌ c s) then after else keep

-- `s.replace(v, new)`, for a `v` that is not empty
unfoldable pub replace : String → String → String → String
replace v new s = replace_from v new 0 s

-- The last digit of a number, as a text.
abbrev digit : ℕ → String
digit zero = "0"
digit (suc zero) = "1"
digit (suc (suc zero)) = "2"
digit (suc (suc (suc zero))) = "3"
digit (suc (suc (suc (suc zero)))) = "4"
digit (suc (suc (suc (suc (suc zero))))) = "5"
digit (suc (suc (suc (suc (suc (suc zero)))))) = "6"
digit (suc (suc (suc (suc (suc (suc (suc zero))))))) = "7"
digit (suc (suc (suc (suc (suc (suc (suc (suc zero)))))))) = "8"
digit _ = "9"

-- The digits of `n` in front of `acc`; a fuel above `n` is enough.
unfoldable pub digits_from : ℕ → ℕ → String → String
digits_from zero n acc = acc
digits_from (suc fuel) n acc =
    let more = digits_from fuel (n / 10) (digit (n % 10) ++ acc) in
    if ltb n 10 then digit n ++ acc else more

-- `str(n)`
unfoldable pub decimal : ℕ → String
unfolding digits_from
decimal n = digits_from (suc n) n ""

decimal_example : decimal 8099 ≡ "8099"
unfolding decimal
decimal_example = refl

-- `", ".join(names)`
abbrev pub join_names : List String → String
join_names [] = ""
join_names (n ∷ []) = n
join_names (n ∷ m ∷ ns) = n ++ (", " ++ join_names (m ∷ ns))
