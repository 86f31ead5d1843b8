-- ===== src/Common/Action/Keeps.antt =====
-- What an action keeps, however it ends, by a rule per way to build it.
use mathlib.Core.Bool.{Bool, true, false}
use homeassistant_addons.Common.Tests.{if◌then◌else◌}
use homeassistant_addons.Common.Results.{Result, ok, err}
use homeassistant_addons.Common.Action.{
  Raises, pure, raise, gets, modify, resume, ◌>>=◌, recover, catch,
}

-- Both ends of `m`, a value and an exception, leave a state with `P`.
pub record Keeps {E S A : Type 0} (P : S → Type 0) (m : Raises E S A) : Type 0 where
  pub at : (s : S) → P s → P (m s).1

module _ {E S A : Type 0} {P : S → Type 0} where
  pub Keeps-if :
      (b : Bool) (m n : Raises E S A) → Keeps P m → Keeps P n → Keeps P (if b then m else n)
  Keeps-if false m n km kn = kn
  Keeps-if true m n km kn = km

  pub Keeps-gets : (read : S → A) → Keeps {E = E} P (gets read)
  Keeps-gets read = record { at = λ s kept. kept }

  pub Keeps-raise : (exception : E) → Keeps P (raise {A = A} exception)
  Keeps-raise exception = record { at = λ s kept. kept }

  pub Keeps-pure : (value : A) → Keeps {E = E} P (pure value)
  Keeps-pure value = record { at = λ s kept. kept }

module _ {E S : Type 0} {P : S → Type 0} where
  pub Keeps-modify : (f : S → S) → ((s : S) → P s → P (f s)) → Keeps {E = E} P (modify f)
  Keeps-modify f h = record { at = h }

module _ {E S A B : Type 0} {P : S → Type 0} where
  resume-keeps :
      (r : Result E A) (f : A → Raises E S B) (s : S)
      → ((a : A) → Keeps P (f a))
      → P s
      → P (resume r f s).1
  resume-keeps (ok a) f s kf h = (kf a).at s h
  resume-keeps (err e) f s kf h = h

  pub Keeps-bind :
      (m : Raises E S A) (f : A → Raises E S B)
      → Keeps P m
      → ((a : A) → Keeps P (f a))
      → Keeps P (m >>= f)
  unfolding ◌>>=◌
  Keeps-bind m f km kf = record { at = λ s h. resume-keeps (m s).0 f (m s).1 kf (km.at s h) }

module _ {E S A : Type 0} {P : S → Type 0} where
  recover-keeps :
      (r : Result E A) (f : E → Raises E S A) (s : S)
      → ((e : E) → Keeps P (f e))
      → P s
      → P (recover r f s).1
  recover-keeps (ok a) f s kf h = h
  recover-keeps (err e) f s kf h = (kf e).at s h

  pub Keeps-catch :
      (m : Raises E S A) (f : E → Raises E S A)
      → Keeps P m
      → ((e : E) → Keeps P (f e))
      → Keeps P (catch m f)
  unfolding catch
  Keeps-catch m f km kf = record { at = λ s h. recover-keeps (m s).0 f (m s).1 kf (km.at s h) }

pub ruleset keeps_rules = (Keeps-pure, Keeps-raise, Keeps-gets, Keeps-if, Keeps-bind, Keeps-catch)
