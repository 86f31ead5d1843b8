-- ===== src/SecretsSync/Guard.antt =====
-- secrets-sync/app/engine/guard.py: the shrink guard.
use homeassistant_addons.Common.{
  ℕ, ◌<◌, ◌*◌, ◌-◌, ◌≡◌, Bool, true, false, ◌||◌, Option, none, some, arith, ltb, leb,
  if◌then◌else◌,
}

-- The float comparison `items < last_items * (1 - percent / 100)`: the language's floats are a
-- parameter, of which nothing is assumed.
pub record Floats : Type 0 where
  pub below : ℕ → ℕ → ℕ → Bool

-- `last_items is None or last_items <= 0`
no_reference : Option ℕ → Bool
no_reference none = true
no_reference (some last) = leb last 0

shrunk : Floats → ℕ → Option ℕ → ℕ → Bool
shrunk F items none percent = false
shrunk F items (some last) percent = F.below items last percent

-- True where the code returns "shrink_guard", its only error code.
unfoldable pub check_shrink : Floats → ℕ → Option ℕ → ℕ → Bool → Bool
unfolding no_reference shrunk
check_shrink F items last_items percent force =
    if leb items 0
    then true
    else if force || no_reference last_items
    then false
    else shrunk F items last_items percent

-- The comparison in exact arithmetic, for tests. It is not the program's: with 41 percent, a last count
-- of 100 and 59 items, floats say that there are too few.
abbrev pub exact_floats : Floats
exact_floats = record { below = λ items last percent. ltb (items * 100) (last * (100 - percent)) }

-- Whatever the percentage, the history and `force`, an empty set is refused.
pub check_shrink-pos :
    (F : Floats) (items : ℕ) (last_items : Option ℕ) (percent : ℕ) (force : Bool)
    → check_shrink F items last_items percent force ≡ false
    → 0 < items
unfolding check_shrink
check_shrink-pos F items last_items percent force h = ground arith
