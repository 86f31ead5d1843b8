-- ===== src/AdminUi/Router/Literal.antt =====
-- The paths of public routes have no parameters, and are routes for themselves.
use Prim.Native.Char.{Char, code}
use homeassistant_addons.Common.{
  ℕ, ◌≡◌, refl, Bool, true, false, not, ◌&&◌, String, List, [], ◌∷◌, All, Bool-cases, inl, inr, eqb,
  ==_refl, string_eq, arith,
}
use homeassistant_addons.Common.Text.{
  starts, left_strip, right_strip, stripped_behind, strip, before, split_on,
}
use homeassistant_addons.Common.Pattern.{at_end, is_alnum, is_char}
use homeassistant_addons.AdminUi.Router.{
  segments_end, public_path, may_be_public, segments_of, is_param,
}
use homeassistant_addons.AdminUi.Router.Matches.{part_fits, fits}

-- No character opens a parameter.
unfoldable plain : String → Bool
plain String.[] = true
plain (String.◌∷◌ c s) = not (is_char b'{' c) && plain s

at_end-plain : (s : String) → at_end s ≡ true → plain s ≡ true
unfolding at_end plain
at_end-plain String.[] h = refl
at_end-plain (String.◌∷◌ c String.[]) h = ground arith
at_end-plain (String.◌∷◌ c (String.◌∷◌ d s)) h = ground arith

segments_end-plain : (inside : Bool) (s : String) → segments_end inside s ≡ true → plain s ≡ true
unfolding segments_end plain is_alnum
segments_end-plain inside String.[] h = refl
segments_end-plain false (String.◌∷◌ c s) h = ground (arith, segments_end-plain true s)
segments_end-plain true (String.◌∷◌ c s) h =
    ground
      (arith, at_end-plain (String.◌∷◌ c s), segments_end-plain true s, segments_end-plain false s)

public_path-plain : (s : String) → public_path s ≡ true → plain s ≡ true
unfolding public_path plain
public_path-plain String.[] e = refl
public_path-plain (String.◌∷◌ c s) e = ground (arith, segments_end-plain false s)

may_be_public-plain : (pattern : String) → may_be_public pattern ≡ true → plain pattern ≡ true
unfolding may_be_public
may_be_public-plain pattern h = elim (Bool-cases (public_path pattern)) [
  | inl p ↦ public_path-plain pattern p
  | inr n ↦ ground (arith, n)
]

left_strip-plain : (n : ℕ) (s : String) → plain s ≡ true → plain (left_strip n s) ≡ true
unfolding left_strip plain
left_strip-plain n String.[] h = refl
left_strip-plain n (String.◌∷◌ c s) h = ground (arith, left_strip-plain n s)

stripped_behind-plain :
    (n : ℕ) (c : Char) (s : String)
    → plain (String.◌∷◌ c s) ≡ true
    → plain (stripped_behind n c s) ≡ true
unfolding plain
stripped_behind-plain n c String.[] h = elim (Bool-cases (eqb (code c) n)) [
  | inl e ↦ rw e refl
  | inr e ↦ rw e h
]
stripped_behind-plain n c (String.◌∷◌ d s) h = h

right_strip-plain : (n : ℕ) (s : String) → plain s ≡ true → plain (right_strip n s) ≡ true
unfolding right_strip plain
right_strip-plain n String.[] h = refl
right_strip-plain n (String.◌∷◌ c s) h =
    ground (arith, right_strip-plain n s, stripped_behind-plain n c (right_strip n s))

abbrev Plain : String → Type 0
Plain s = plain s ≡ true

before-Plain :
    (n : ℕ) (c : Char) (parts : List String)
    → not (is_char b'{' c) ≡ true
    → All Plain parts
    → All Plain (before n c parts)
unfolding plain
before-Plain n c [] h a = a
before-Plain n c (part ∷ parts) h a = elim (Bool-cases (eqb (code c) n)) [
  | inl e ↦ rw e (refl, a)
  | inr e ↦ rw e (rw h a.0, a.1)
]

split_on-plain : (n : ℕ) (s : String) → plain s ≡ true → All Plain (split_on n s)
unfolding split_on plain
split_on-plain n String.[] h = (refl, tt)
split_on-plain n (String.◌∷◌ c s) h =
    before-Plain n c (split_on n s) (ground arith) (split_on-plain n s (ground arith))

is_param-plain : (part : String) → plain part ≡ true → is_param part ≡ false
unfolding is_param starts plain
is_param-plain String.[] h = refl
is_param-plain (String.◌∷◌ c s) h = ground arith

fits_self : (parts : List String) → All Plain parts → fits parts parts ≡ true
unfolding fits part_fits
fits_self [] a = refl
fits_self (part ∷ parts) (p, a) = rw (is_param-plain part p, ==_refl part) (fits_self parts a)

-- A pattern of a public route fits itself as a path.
pub public-fits :
    (pattern : String)
    → may_be_public pattern ≡ true
    → fits (segments_of pattern) (segments_of pattern) ≡ true
unfolding segments_of strip
public-fits pattern h = fits_self (segments_of pattern) (
    split_on-plain b'/' (strip b'/' pattern) (
      right_strip-plain b'/' (left_strip b'/' pattern)
        (left_strip-plain b'/' pattern (may_be_public-plain pattern h))))
