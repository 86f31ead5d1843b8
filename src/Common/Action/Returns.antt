-- ===== src/Common/Action/Returns.antt =====
-- Actions that never raise: one rule for each way to build an action.
use mathlib.Core.Path.{◌≡◌, refl}
use mathlib.Core.Bool.{Bool, true, false}
use homeassistant_addons.Common.Tests.{if◌then◌else◌}
use homeassistant_addons.Common.Results.{Result, ok, err}
use homeassistant_addons.Common.Action.{Raises, pure, gets, resume, ◌>>=◌, recover, catch}

pub record Returns {E S A : Type 0} (m : Raises E S A) : Type 0 where
  pub at : (s : S) → (a : A) × ((m s).0 ≡ ok a)

module _ {E S A : Type 0} where
  pub Returns-pure : (a : A) → Returns {E = E} {S = S} (pure a)
  Returns-pure a = record { at = λ s. (a, refl) }

  pub Returns-gets : (f : S → A) → Returns {E = E} (gets f)
  Returns-gets f = record { at = λ s. (f s, refl) }

  pub Returns-if :
      (b : Bool) (m n : Raises E S A) → Returns m → Returns n → Returns (if b then m else n)
  Returns-if true m n rm rn = rm
  Returns-if false m n rm rn = rn

module _ {E S A B : Type 0} where
  resume-Returns :
      (r : Result E A) (f : A → Raises E S B) (s : S) (a : A)
      → r ≡ ok a
      → ((a : A) → Returns (f a))
      → (b : B) × ((resume r f s).0 ≡ ok b)
  resume-Returns r f s a e rf = rw e ((rf a).at s)

  pub Returns-bind :
      (m : Raises E S A) (f : A → Raises E S B)
      → Returns m
      → ((a : A) → Returns (f a))
      → Returns (m >>= f)
  unfolding ◌>>=◌
  Returns-bind m f rm rf = record {
    at = λ s. let (a, e) = rm.at s in resume-Returns (m s).0 f (m s).1 a e rf;
  }

module _ {E S A : Type 0} where
  recover-Returns :
      (r : Result E A) (f : E → Raises E S A) (s : S)
      → ((e : E) → Returns (f e))
      → (a : A) × ((recover r f s).0 ≡ ok a)
  recover-Returns (ok a) f s rf = (a, refl)
  recover-Returns (err e) f s rf = (rf e).at s

  -- A handler that returns is enough.
  pub Returns-catch :
      (m : Raises E S A) (f : E → Raises E S A) → ((e : E) → Returns (f e)) → Returns (catch m f)
  unfolding catch
  Returns-catch m f rf = record { at = λ s. recover-Returns (m s).0 f (m s).1 rf }

pub ruleset returns_rules = (Returns-pure, Returns-gets, Returns-if, Returns-bind, Returns-catch)
