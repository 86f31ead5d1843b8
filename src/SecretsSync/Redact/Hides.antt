-- ===== src/SecretsSync/Redact/Hides.antt =====
-- No registered value is left in a scrubbed text.
use Prim.Native.Char.{Char}
use text.Mathlib.TextLemmas.{cons-append, nil-append}
use homeassistant_addons.Common.{
  ℕ, zero, suc, ◌≡◌, ◌≤◌, refl, ap, ◌∙◌, ◌-◌, Bool, true, false, ◌||◌, String, List, [], ◌∷◌, ◌++◌,
  arith, leb, contains, string_eq, if◌then◌else◌, Bool-cases, inl, inr, ◌<>◌,
}
use homeassistant_addons.Common.Sort.{sort, contains-sort}
use homeassistant_addons.Common.Text.{len, starts, includes, replace_from, replace, same_char}
use homeassistant_addons.SecretsSync.Redact.{min_len, add_known, register, scrub}

abbrev star : Char
star = "*"

-- A text with a character, and no asterisk.
unfoldable pub starless : String → Bool
starless String.[] = true
starless (String.◌∷◌ c s) = if same_char c star then false else starless s

-- The replacement, character by character.
stars-append : (t : String) → "***" <> t ≡ String.◌∷◌ star (String.◌∷◌ star (String.◌∷◌ star t))
stars-append t =
    cons-append star "**" t
    ∙ ap (String.◌∷◌ star) (
        cons-append star "*" t
        ∙ ap (String.◌∷◌ star) (cons-append star "" t ∙ ap (String.◌∷◌ star) (nil-append t)))

module _ (w : String) (c : Char) (s : String) where
  replace-hit :
      starts w (String.◌∷◌ c s) ≡ true
      → replace_from w "***" zero (String.◌∷◌ c s)
        ≡ String.◌∷◌ star (String.◌∷◌ star (String.◌∷◌ star (replace_from w "***" (len w - 1) s)))
  unfolding replace_from
  replace-hit e = rw e (stars-append _)

  replace-miss :
      starts w (String.◌∷◌ c s) ≡ false
      → replace_from w "***" zero (String.◌∷◌ c s) ≡ String.◌∷◌ c (replace_from w "***" zero s)
  unfolding replace_from
  replace-miss e = rw e

  replace-drop : (k : ℕ) → replace_from w "***" (suc k) (String.◌∷◌ c s) ≡ replace_from w "***" k s
  unfolding replace_from
  replace-drop k = refl

module _ (w : String) where
  -- What starts a replaced text and has no asterisk starts the text itself.
  starts-replace :
      (v s : String)
      → starless v ≡ true
      → starts v (replace_from w "***" zero s) ≡ true
      → starts v s ≡ true
  unfolding starts starless
  starts-replace String.[] s p h = refl
  starts-replace (String.◌∷◌ a v) String.[] p h = unfold replace_from in h
  starts-replace (String.◌∷◌ a v) (String.◌∷◌ c s) p h =
      elim (Bool-cases (starts w (String.◌∷◌ c s))) [
        | inl e ↦ let h' = rw (replace-hit w c s e) at h in ground arith
        | inr e ↦ let h' = rw (replace-miss w c s e) at h in ground (arith, starts-replace v s)
      ]

  -- An occurrence in a replaced text is one in the text, if it has no asterisk.
  includes-replace :
      (a : Char) (v : String) (k : ℕ) (s : String)
      → starless (String.◌∷◌ a v) ≡ true
      → includes (String.◌∷◌ a v) (replace_from w "***" k s) ≡ true
      → includes (String.◌∷◌ a v) s ≡ true
  unfolding includes starts starless
  includes-replace a v k String.[] p h = unfold replace_from in h
  includes-replace a v (suc k) (String.◌∷◌ c s) p h =
      let h' = rw (replace-drop w c s k) at h in ground (arith, includes-replace a v k s p)
  includes-replace a v zero (String.◌∷◌ c s) p h = elim (Bool-cases (starts w (String.◌∷◌ c s))) [
    | inl e ↦
        let h' = rw (replace-hit w c s e) at h in
        ground (arith, includes-replace a v (len w - 1) s p)
    | inr e ↦
        let h' = rw (replace-miss w c s e) at h in
        ground (arith, starts-replace v s, includes-replace a v zero s p)
  ]

-- A value with no asterisk is gone from where it is replaced.
includes-replace_self :
    (a : Char) (v : String) (k : ℕ) (s : String)
    → starless (String.◌∷◌ a v) ≡ true
    → includes (String.◌∷◌ a v) (replace_from (String.◌∷◌ a v) "***" k s) ≡ false
unfolding includes starts starless
includes-replace_self a v k String.[] p = unfold replace_from in refl
includes-replace_self a v (suc k) (String.◌∷◌ c s) p =
    rw (replace-drop (String.◌∷◌ a v) c s k) (includes-replace_self a v k s p)
includes-replace_self a v zero (String.◌∷◌ c s) p =
    elim (Bool-cases (starts (String.◌∷◌ a v) (String.◌∷◌ c s))) [
      | inl e ↦
          rw (replace-hit (String.◌∷◌ a v) c s e)
            (ground (arith, includes-replace_self a v (len (String.◌∷◌ a v) - 1) s p))
      | inr e ↦
          rw (replace-miss (String.◌∷◌ a v) c s e) (
            ground (arith, starts-replace (String.◌∷◌ a v) v s, includes-replace_self a v zero s p))
    ]

module _ (a : Char) (v : String) (p : starless (String.◌∷◌ a v) ≡ true) where
  abbrev value : String
  value = String.◌∷◌ a v

  abbrev scrub_one : String → String → String
  scrub_one w text = if includes w text then replace w "***" text else text

  scrub_one_keeps :
      (w text : String) → includes value text ≡ false → includes value (scrub_one w text) ≡ false
  unfolding replace
  scrub_one_keeps w text h = elim (Bool-cases (includes w text)) [
    | inl e ↦ rw e (ground (arith, includes-replace w a v 0 text p))
    | inr e ↦ rw e h
  ]

  scrub_keeps :
      (values : List String) (text : String)
      → includes value text ≡ false
      → includes value (scrub values text) ≡ false
  unfolding scrub
  scrub_keeps [] text h = h
  scrub_keeps (w ∷ values) text h = scrub_keeps values (scrub_one w text) (scrub_one_keeps w text h)

  scrub_one_self : (text : String) → includes value (scrub_one value text) ≡ false
  unfolding replace
  scrub_one_self text = elim (Bool-cases (includes value text)) [
    | inl e ↦ rw e (includes-replace_self a v 0 text p)
    | inr e ↦ rw e e
  ]

  scrub_hides :
      (values : List String) (text : String)
      → contains values value ≡ true
      → includes value (scrub values text) ≡ false
  unfolding scrub
  scrub_hides [] text h = cc
  scrub_hides (w ∷ values) text h = elim (string_eq.dec value w) [
    | yes e ↦ scrub_keeps values (scrub_one w text) (rw (← e) (scrub_one_self text))
    | no n ↦ scrub_hides values (scrub_one w text) (ground arith)
  ]

contains-append :
    (v : String) (xs ys : List String) → contains (xs ++ ys) v ≡ (contains xs v || contains ys v)
contains-append v [] ys = refl
contains-append v (x ∷ xs) ys = ground (arith, contains-append v xs ys)

contains-add_known :
    (v : String) (known values : List String)
    → leb min_len (len v) ≡ true
    → contains (add_known known values) v ≡ (contains known v || contains values v)
unfolding add_known
contains-add_known v known [] h = ground arith
contains-add_known v known (w ∷ values) h = ground (
  arith,
  contains-add_known v
      (if leb min_len (len w) then (if contains known w then known else known ++ w ∷ []) else known)
      values h,
  contains-append v known (w ∷ []),
)

-- A value of four characters or more, none an asterisk, that was registered, now or before, is
-- not in any scrubbed text, whatever other values are registered.
pub scrub-register :
    (known values : List String) (v text : String)
    → min_len ≤ len v
    → starless v ≡ true
    → (contains known v || contains values v) ≡ true
    → includes v (scrub (register known values) text) ≡ false
unfolding register
scrub-register known values String.[] text l p h = absurd (unfold len in omega arith)
scrub-register known values (String.◌∷◌ a v) text l p h =
    scrub_hides a v p (sort _ (add_known known values)) text
      (rw contains-sort (rw (contains-add_known (String.◌∷◌ a v) known values (ground arith)) h))
