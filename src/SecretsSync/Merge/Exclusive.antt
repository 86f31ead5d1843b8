-- ===== src/SecretsSync/Merge/Exclusive.antt =====
-- Under the policy `error`, no key and no file path has two providers.
use homeassistant_addons.Common.{
  ℕ, ◌+◌, ◌≤◌, ◌≡◌, refl, Bool, true, false, ◌&&◌, String, List, [], ◌∷◌, ok, ◌==◌, string_eq,
  arith, is_some, Option-cases, inl, inr, >>=-eq-ok,
}
use homeassistant_addons.Common.Dict
use homeassistant_addons.Common.Dict.{Dict, get-set}
use homeassistant_addons.SecretsSync.Contract.{Snapshot}
use homeassistant_addons.SecretsSync.Merge.{
  Taken, Merged, Progress, take_all, merge_one, merge_loop, merge, no_progress,
}
use homeassistant_addons.SecretsSync.Merge.Laws.{Agrees, merge_one-Steps, merge_one-Extended}

module _ {V : Type 0} (kind policy provider : String) (strict : policy == "priority" ≡ false) where
  -- A strict loop that succeeds met no key that was there.
  take_all-disjoint :
      (d : Dict String V) (t u : Taken V)
      → Agrees t.items t.source
      → take_all kind policy provider d t ≡ ok u
      → (k : String) → (is_some (Dict.get k t.items) && is_some (Dict.get k d)) ≡ false
  unfolding take_all Dict.get
  take_all-disjoint [] t u a h k = ground arith
  take_all-disjoint ((key, v) ∷ d) t u a h k = elim (Option-cases (Dict.get key t.source)) [
    | inl e ↦ ground (
      arith,
      a key,
      a k,
      get-set k key v t.items,
      take_all-disjoint d
          (record t { items = Dict.set key v t.items; source = Dict.set key provider t.source }) u
          (λ k. ground (arith, a k, get-set k key v t.items, get-set k key provider t.source))
          (rw (e, take_all) at h) k,
    )
    | inr (w, e) ↦ cc (rw (e, take_all, strict) at h)
  ]

abbrev pub one_if : Bool → ℕ
one_if true = 1
one_if false = 0

-- How many contributions have the key, and how many have the file.
abbrev pub secret_count : String → List (String × Snapshot) → ℕ
secret_count k [] = 0
secret_count k ((_, snap) ∷ cs) = one_if (is_some (Dict.get k snap.secrets)) + secret_count k cs

abbrev pub file_count : String → List (String × Snapshot) → ℕ
file_count k [] = 0
file_count k ((_, snap) ∷ cs) = one_if (is_some (Dict.get k snap.files)) + file_count k cs

record Fits (cs : List (String × Snapshot)) (p : Progress) : Type 0 where
  secrets : (k : String) → one_if (is_some (Dict.get k p.secrets)) + secret_count k cs ≤ 1
  files : (k : String) → one_if (is_some (Dict.get k p.files)) + file_count k cs ≤ 1

one_if-le : (b : Bool) → one_if b ≤ 1
one_if-le b = ground arith

merge_loop-Fits :
    (policy : String) (cs : List (String × Snapshot)) (p q : Progress)
    → policy == "priority" ≡ false
    → Agrees p.secrets p.secret_src
    → Agrees p.files p.file_src
    → merge_loop policy cs p ≡ ok q
    → Fits cs p
unfolding merge_loop
merge_loop-Fits policy [] p q strict a b h = record {
  secrets = λ k. ground arith;
  files = λ k. ground arith;
}
merge_loop-Fits policy ((provider, snap) ∷ cs) p q strict a b h =
    let (r, e, h1) = >>=-eq-ok (merge_one policy provider snap p) _ h in
    let st = merge_one-Steps policy provider snap p r e in
    let x = merge_one-Extended policy provider snap p r a b st in
    let rest = merge_loop-Fits policy cs r q strict x.secrets.agrees x.files.agrees h1 in
    let ds = take_all-disjoint "key" policy provider strict snap.secrets _ st.s a st.keys_taken in
    let df = take_all-disjoint "file" policy provider strict snap.files _ st.f b st.files_taken in
    record {
      secrets = λ k. ground (arith, rest.secrets k, x.secrets.gets k, ds k);
      files = λ k. ground (arith, rest.files k, x.files.gets k, df k);
    }

-- A merge that succeeds under a policy other than `priority` met no key and no path twice.
pub merge-exclusive :
    (cs : List (String × Snapshot)) (policy : String) (m : Merged)
    → policy == "priority" ≡ false
    → merge cs policy ≡ ok m
    → (k : String) → (secret_count k cs ≤ 1) × (file_count k cs ≤ 1)
unfolding merge Dict.get
merge-exclusive cs policy m strict h k =
    let (q, e, h1) = >>=-eq-ok (merge_loop policy cs no_progress) _ h in
    let x = merge_loop-Fits policy cs no_progress q strict (λ k. refl) (λ k. refl) e in
    (omega (arith, x.secrets k), omega (arith, x.files k))
