-- ===== src/Common/Text/Replace.antt =====
-- `s.replace(v, new)`, character by character.
use Prim.Native.Nat.{ℕ, zero, suc, ◌-◌}
use Prim.Native.Char.{Char}
use Prim.Native.String.{String, ◌++◌}
use mathlib.Core.Path.{◌≡◌, refl}
use mathlib.Core.Bool.{true, false}
use homeassistant_addons.Common.Text.{len, starts, replace_from}

module _ (v new : String) (c : Char) (s : String) where
  pub replace-hit :
      starts v (String.◌∷◌ c s) ≡ true
      → replace_from v new zero (String.◌∷◌ c s) ≡ new ++ replace_from v new (len v - 1) s
  unfolding replace_from
  replace-hit e = rw e

  pub replace-miss :
      starts v (String.◌∷◌ c s) ≡ false
      → replace_from v new zero (String.◌∷◌ c s) ≡ String.◌∷◌ c (replace_from v new zero s)
  unfolding replace_from
  replace-miss e = rw e

  pub replace-drop : (k : ℕ) → replace_from v new (suc k) (String.◌∷◌ c s) ≡ replace_from v new k s
  unfolding replace_from
  replace-drop k = refl
