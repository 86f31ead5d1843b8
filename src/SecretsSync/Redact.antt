-- ===== src/SecretsSync/Redact.antt =====
-- secrets-sync/app/engine/redact.py: known secret values are scrubbed from texts.
pub mod Hides
use homeassistant_addons.Common.{
  ℕ, Bool, String, List, [], ◌∷◌, ◌++◌, leb, contains, string_eq, if◌then◌else◌,
}
use homeassistant_addons.Common.Sort.{sort}
use homeassistant_addons.Common.Text.{len, includes, replace}

abbrev pub min_len : ℕ
min_len = 4

-- `known.update(...)`: the values that are long enough and not known yet.
unfoldable pub add_known : List String → List String → List String
add_known known [] = known
add_known known (v ∷ values) =
    add_known
      (if leb min_len (len v) then (if contains known v then known else known ++ v ∷ []) else known)
      values

-- `len(v) >= len(w)`: longer values come first.
abbrev longer : String → String → Bool
longer v w = leb (len w) (len v)

-- `self._values` after `register`. A set has no order, so values of one length stand in an
-- unspecified order; here it is that of their registration.
unfoldable pub register : List String → List String → List String
register known values = sort longer (add_known known values)

-- `scrub`, over the registered values
unfoldable pub scrub : List String → String → String
scrub [] text = text
scrub (value ∷ values) text =
    scrub values (if includes value text then replace value "***" text else text)
