-- ===== src/Common/Dict.antt =====
-- Python's `dict`: an association list in insertion order.
use mathlib.Core.Path.{◌≡◌, refl}
use mathlib.Core.Bool.{Bool, true, false}
use mathlib.Core.Option.{Option, none, some}
use mathlib.Core.List.{List, [], ◌∷◌}
use native.Mathlib.Omega.{arith}
use homeassistant_addons.Common.Tests.{is_some, if◌then◌else◌}
use homeassistant_addons.Common.Equality.{Eq, ◌==◌, contains}

abbrev pub Dict {ℓ κ} : Type ℓ → Type κ → Type (ℓ ⊔ κ)
Dict K V = List (K × V)

module _ {ℓ κ} {K : Type ℓ} {V : Type κ} where
  -- `list(d)`, in insertion order
  unfoldable pub keys : Dict K V → List K
  keys [] = []
  keys ((k, _) ∷ d) = k ∷ keys d

  -- `d.values()`
  unfoldable pub values : Dict K V → List V
  values [] = []
  values ((_, v) ∷ d) = v ∷ values d

module _ {ℓ κ} {K : Type ℓ} {V : Type κ} ⦃e : Eq K⦄ where
  -- `d.get(k)`
  unfoldable pub get : K → Dict K V → Option V
  get k [] = none
  get k ((j, v) ∷ d) = if k == j then some v else get k d

  -- `k in d`
  unfoldable pub has : K → Dict K V → Bool
  has k [] = false
  has k ((j, v) ∷ d) = if k == j then true else has k d

  -- `d[k] = v`: a known key keeps its place.
  unfoldable pub set : K → V → Dict K V → Dict K V
  set k v [] = (k, v) ∷ []
  set k v ((j, w) ∷ d) = if k == j then (k, v) ∷ d else (j, w) ∷ set k v d

  -- `d.pop(k, None)`
  unfoldable pub remove : K → Dict K V → Dict K V
  remove k [] = []
  remove k ((j, w) ∷ d) = let rest = remove k d in if k == j then rest else (j, w) ∷ rest

  -- `d.update(other)`
  unfoldable pub update : Dict K V → Dict K V → Dict K V
  unfolding set
  update d [] = d
  update d ((k, v) ∷ other) = update (set k v d) other

  abbrev pub NodupKeys : Dict K V → Type κ
  NodupKeys [] = Unit
  NodupKeys ((k, _) ∷ d) = (get k d ≡ none) × NodupKeys d

  pub get-cons :
      (j k : K) (v : V) (d : Dict K V) → get j ((k, v) ∷ d) ≡ (if j == k then some v else get j d)
  unfolding get
  get-cons j k v d = refl

  pub get-set :
      (j k : K) (v : V) (d : Dict K V) → get j (set k v d) ≡ (if j == k then some v else get j d)
  unfolding set get
  get-set j k v [] = refl
  get-set j k v (_ ∷ d) = ground (arith, get-set j k v d)

  pub get-remove :
      (j k : K) (d : Dict K V) → get j (remove k d) ≡ (if j == k then none else get j d)
  unfolding remove get
  get-remove j k [] = ground arith
  get-remove j k (_ ∷ d) = ground (arith, get-remove j k d)

  pub has_lem : (k : K) (d : Dict K V) → has k d ≡ is_some (get k d)
  unfolding has get
  has_lem k [] = refl
  has_lem k (_ ∷ d) = ground (arith, has_lem k d)

  pub contains-keys : (k : K) (d : Dict K V) → contains (keys d) k ≡ has k d
  unfolding keys has
  contains-keys k [] = refl
  contains-keys k (_ ∷ d) = ground (arith, contains-keys k d)

  pub set-NodupKeys : (k : K) (v : V) (d : Dict K V) → NodupKeys d → NodupKeys (set k v d)
  unfolding set get
  set-NodupKeys k v [] _ = (refl, tt)
  set-NodupKeys k v ((j, _) ∷ d) (fresh, u) = ground (arith, set-NodupKeys k v d u, get-set j k v d)
