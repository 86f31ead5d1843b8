-- ===== src/Common/Action.antt =====
-- A method that changes an object and may raise: what was changed before a raise stays changed.
pub mod Keeps
pub mod Returns
use mathlib.Core.Path.{◌≡◌, refl}
use Prim.Native.String.{String}
use homeassistant_addons.Common.Results.{Result, ok, err}

-- `Raises E S A`: a method over the state `S` that returns an `A` or raises an `E`.
abbrev pub Raises : Type 0 → Type 0 → Type 0 → Type 0
Raises E S A = S → Result E A × S

-- A method whose exceptions are known by the names of their types.
abbrev pub Action : Type 0 → Type 0 → Type 0
Action S A = Raises String S A

module _ {E S A : Type 0} where
  abbrev pub pure : A → Raises E S A
  pure a s = (ok a, s)

  abbrev pub gets : (S → A) → Raises E S A
  gets f s = (ok (f s), s)

-- `raise e`
abbrev pub raise : {E S A : Type 0} → E → Raises E S A
raise e s = (err e, s)

abbrev pub modify : {E S : Type 0} → (S → S) → Raises E S (Unit {0})
modify f s = (ok tt, f s)

module _ {E S A B : Type 0} where
  abbrev pub resume : Result E A → (A → Raises E S B) → Raises E S B
  resume (ok a) f s = f a s
  resume (err e) f s = (err e, s)

  infixl 5 ◌>>=◌ ◌>>◌
  unfoldable pub ◌>>=◌ : Raises E S A → (A → Raises E S B) → Raises E S B
  ◌>>=◌ m f s = let (r, s') = m s in resume r f s'

  abbrev pub ◌>>◌ : Raises E S A → Raises E S B → Raises E S B
  m >> n = m >>= λ _. n

-- `try: m; except Exception as exc: handler(exc)`
abbrev pub recover : {E S A : Type 0} → Result E A → (E → Raises E S A) → Raises E S A
recover (ok a) handler s = (ok a, s)
recover (err e) handler s = handler e s

unfoldable pub catch : {E S A : Type 0} → Raises E S A → (E → Raises E S A) → Raises E S A
catch m handler s = let (r, s') = m s in recover r handler s'
