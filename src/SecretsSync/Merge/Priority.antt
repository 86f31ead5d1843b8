-- ===== src/SecretsSync/Merge/Priority.antt =====
-- When a merge under the policy `priority` succeeds.
use homeassistant_addons.Common.{
  ◌≡◌, refl, true, String, List, [], ◌∷◌, Result, ok, err, ◌==◌, string_eq, ◌⊎◌, ◌↔◌, Option-cases,
  inl, inr, All, >>=-eq-ok,
}
use homeassistant_addons.Common.Dict
use homeassistant_addons.Common.Dict.{Dict, get-set}
use homeassistant_addons.SecretsSync.Contract.{Snapshot}
use homeassistant_addons.SecretsSync.Paths.{safe_relpath, UnsafePath}
use homeassistant_addons.SecretsSync.Merge.{
  Taken, Merged, Progress, take_all, check_paths, merge_one, merge_loop, merge, no_progress,
}
use homeassistant_addons.SecretsSync.Merge.Laws.{merge_one-Steps}

-- Every path is one that `safe_relpath` accepts.
abbrev pub AllSafe : List String → Type 0
AllSafe = All (λ path. (parts : List String) × (safe_relpath path ≡ ok parts))

abbrev pub SafeFiles : List (String × Snapshot) → Type 0
SafeFiles [] = Unit
SafeFiles ((_, snap) ∷ cs) = AllSafe (Dict.keys snap.files) × SafeFiles cs

safe-cases :
    (path : String)
    → ((parts : List String) × (safe_relpath path ≡ ok parts))
      ⊎ ((x : UnsafePath) × (safe_relpath path ≡ err x))
safe-cases path = go (safe_relpath path) refl
  where
    go :
        (r : Result UnsafePath (List String))
        → safe_relpath path ≡ r
        → ((parts : List String) × (safe_relpath path ≡ ok parts))
          ⊎ ((x : UnsafePath) × (safe_relpath path ≡ err x))
    go (ok parts) e = inl (parts, e)
    go (err x) e = inr (x, e)

check_paths_total :
    (provider : String) (paths : List String)
    → AllSafe paths
    → (r : List String) × (check_paths provider paths ≡ ok r)
unfolding check_paths
check_paths_total provider [] h = ([], refl)
check_paths_total provider (path ∷ paths) ((parts, e), hs) =
    rw (e, check_paths) (check_paths_total provider paths hs)

check_paths-AllSafe :
    (provider : String) (paths r : List String) → check_paths provider paths ≡ ok r → AllSafe paths
unfolding check_paths
check_paths-AllSafe provider [] r h = tt
check_paths-AllSafe provider (path ∷ paths) r h = elim (safe-cases path) [
  | inl (parts, e) ↦ ((parts, e), check_paths-AllSafe provider paths r (rw (e, check_paths) at h))
  | inr (x, e) ↦ cc (rw (e, check_paths) at h)
]

take_all_total :
    {V : Type 0} (kind policy provider : String) (d : Dict String V) (t : Taken V)
    → policy == "priority" ≡ true
    → (u : Taken V) × (take_all kind policy provider d t ≡ ok u)
unfolding take_all
take_all_total kind policy provider [] t p = (t, refl)
take_all_total kind policy provider ((key, v) ∷ d) t p =
    elim (Option-cases (Dict.get key t.source)) [
      | inl e ↦ rw (e, take_all) (take_all_total kind policy provider d _ p)
      | inr (w, e) ↦ rw (e, take_all, p) (take_all_total kind policy provider d _ p)
    ]

merge_one_total :
    (policy provider : String) (snap : Snapshot) (p : Progress)
    → policy == "priority" ≡ true
    → AllSafe (Dict.keys snap.files)
    → (q : Progress) × (merge_one policy provider snap p ≡ ok q)
unfolding merge_one
merge_one_total policy provider snap p e h =
    let (r, checked) = check_paths_total provider (Dict.keys snap.files) h in
    let (s, keys) =
      take_all_total "key" policy provider snap.secrets
        (record { items = p.secrets; source = p.secret_src; shadowed = p.shadowed }) e in
    let (f, files) =
      take_all_total "file" policy provider snap.files
        (record { items = p.files; source = p.file_src; shadowed = s.shadowed }) e in
    (
      record {
        secrets = s.items;
        files = f.items;
        shadowed = f.shadowed;
        secret_src = s.source;
        file_src = f.source;
      },
      rw (checked, keys, files),
    )

merge_loop_total :
    (policy : String) (cs : List (String × Snapshot)) (p : Progress)
    → policy == "priority" ≡ true
    → SafeFiles cs
    → (q : Progress) × (merge_loop policy cs p ≡ ok q)
unfolding merge_loop
merge_loop_total policy [] p e h = (p, refl)
merge_loop_total policy ((provider, snap) ∷ cs) p e (h, hs) =
    let (q, one) = merge_one_total policy provider snap p e h in
    rw one (merge_loop_total policy cs q e hs)

merge_loop-SafeFiles :
    (policy : String) (cs : List (String × Snapshot)) (p q : Progress)
    → merge_loop policy cs p ≡ ok q
    → SafeFiles cs
unfolding merge_loop
merge_loop-SafeFiles policy [] p q h = tt
merge_loop-SafeFiles policy ((provider, snap) ∷ cs) p q h =
    let (r, e, h1) = >>=-eq-ok (merge_one policy provider snap p) _ h in
    let st = merge_one-Steps policy provider snap p r e in
    (
      check_paths-AllSafe provider (Dict.keys snap.files) st.paths st.checked,
      merge_loop-SafeFiles policy cs r q h1,
    )

-- Under the policy `priority` a merge succeeds exactly when every file path of every
-- contribution is accepted by `safe_relpath`: no collision stops it.
pub merge-priority :
    (cs : List (String × Snapshot)) (policy : String)
    → policy == "priority" ≡ true
    → ((m : Merged) × (merge cs policy ≡ ok m)) ↔ SafeFiles cs
unfolding merge
merge-priority cs policy e = (
  λ x.
      let (q, e, h1) = >>=-eq-ok (merge_loop policy cs no_progress) _ x.1 in
      merge_loop-SafeFiles policy cs no_progress q e,
  λ safe.
      let (q, e) = merge_loop_total policy cs no_progress e safe in
      (record { secrets = q.secrets; files = q.files; shadowed = q.shadowed }, rw e),
)
