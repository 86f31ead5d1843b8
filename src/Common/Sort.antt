-- ===== src/Common/Sort.antt =====
-- Python's `sorted`: a stable sort, here by insertion, for a test `le` on the keys.
use mathlib.Core.Bool.{Bool, true}
use mathlib.Core.Path.{◌≡◌, refl}
use mathlib.Core.Logic.{◌⊎◌, ◌↔◌, inl, inr}
use mathlib.Core.List.{List, [], ◌∷◌}
use native.Mathlib.Omega.{arith}
use Prim.Native.Nat.{suc}
use Prim.Native.String.{String, compare}
use text.Mathlib.Text.{is_le}
use homeassistant_addons.Common.Tests.{Bool-cases, if◌then◌else◌}
use homeassistant_addons.Common.Equality.{Eq, contains}
use homeassistant_addons.Common.Lists.{length, All}

-- `s <= t` on strings, by code points
abbrev pub str_le : String → String → Bool
str_le s t = is_le (compare s t)

module _ {ℓ} {A : Type ℓ} (le : A → A → Bool) where
  -- `x` goes in front of the first item that it does not exceed.
  insert : A → List A → List A
  insert x [] = x ∷ []
  insert x (y ∷ ys) = if le x y then x ∷ y ∷ ys else y ∷ insert x ys

  unfoldable pub sort : List A → List A
  unfolding insert
  sort [] = []
  sort (x ∷ xs) = insert x (sort xs)

  length-insert : (x : A) (xs : List A) → length (insert x xs) ≡ suc (length xs)
  unfolding insert
  length-insert x [] = refl
  length-insert x (y ∷ ys) = ground (arith, length-insert x ys)

  pub length-sort : (xs : List A) → length (sort xs) ≡ length xs
  unfolding sort
  length-sort [] = refl
  length-sort (x ∷ xs) = ground (arith, length-sort xs, length-insert x (sort xs))

module _ {ℓ} {A : Type ℓ} ⦃e : Eq A⦄ (le : A → A → Bool) where
  contains-insert : (a x : A) (xs : List A) → contains (insert le x xs) a ≡ contains (x ∷ xs) a
  unfolding insert
  contains-insert a x [] = refl
  contains-insert a x (y ∷ ys) = ground (arith, contains-insert a x ys)

  -- Sorting keeps the items.
  pub contains-sort : (a : A) (xs : List A) → contains (sort le xs) a ≡ contains xs a
  unfolding sort
  contains-sort a [] = refl
  contains-sort a (x ∷ xs) = ground (arith, contains-sort a xs, contains-insert a x (sort le xs))

-- Sorting by a total and transitive test: the first item is not behind any other.
module _ {ℓ} {A : Type ℓ} (le : A → A → Bool)
    (total : (a b : A) → (le a b ≡ true) ⊎ (le b a ≡ true))
    (trans : (a b c : A) → le a b ≡ true → le b c ≡ true → le a c ≡ true) where
  abbrev pub AllBehind : A → List A → Type 0
  AllBehind a xs = All (λ x. le a x ≡ true) xs

  abbrev pub IsSorted : List A → Type 0
  IsSorted [] = Unit
  IsSorted (x ∷ xs) = AllBehind x xs × IsSorted xs

  behind_all : (a b : A) (xs : List A) → le a b ≡ true → AllBehind b xs → AllBehind a xs
  behind_all a b [] h k = tt
  behind_all a b (x ∷ xs) h (p, k) = (trans a b x h p, behind_all a b xs h k)

  insert-AllBehind :
      (a x : A) (xs : List A) → le a x ≡ true → AllBehind a xs → AllBehind a (insert le x xs)
  unfolding insert
  insert-AllBehind a x [] h k = (h, tt)
  insert-AllBehind a x (y ∷ ys) h (p, k) = ground (arith, insert-AllBehind a x ys h k)

  insert-IsSorted : (x : A) (xs : List A) → IsSorted xs → IsSorted (insert le x xs)
  unfolding insert
  insert-IsSorted x [] s = (tt, tt)
  insert-IsSorted x (y ∷ ys) (b, s) = elim (Bool-cases (le x y)) [
    | inl e ↦ rw e ((e, behind_all x y ys e b), (b, s))
    | inr e ↦ rw e (insert-AllBehind y x ys (ground (arith, total x y)) b, insert-IsSorted x ys s)
  ]

  pub sort-IsSorted : (xs : List A) → IsSorted (sort le xs)
  unfolding sort
  sort-IsSorted [] = tt
  sort-IsSorted (x ∷ xs) = insert-IsSorted x (sort le xs) (sort-IsSorted xs)

module _ {ℓ κ} {A : Type ℓ} (le : A → A → Bool) (P : A → Type κ) where
  All-insert : (x : A) (xs : List A) → All P (insert le x xs) ↔ (P x × All P xs)
  unfolding insert
  All-insert x [] = (λ h. h, λ h. h)
  All-insert x (y ∷ ys) = elim (Bool-cases (le x y)) [
    | inl e ↦ rw e (λ h. h, λ h. h)
    | inr e ↦ rw e (
      λ (p, h). let (q, r) = (All-insert x ys).0 h in (q, (p, r)),
      λ (q, (p, r)). (p, (All-insert x ys).1 (q, r)),
    )
  ]

  -- A property of all items, sorted or not.
  pub All-sort : (xs : List A) → All P (sort le xs) ↔ All P xs
  unfolding sort
  All-sort [] = (λ h. h, λ h. h)
  All-sort (x ∷ xs) = (
    λ h. let (p, r) = (All-insert x (sort le xs)).0 h in (p, (All-sort xs).0 r),
    λ (p, r). (All-insert x (sort le xs)).1 (p, (All-sort xs).1 r),
  )
