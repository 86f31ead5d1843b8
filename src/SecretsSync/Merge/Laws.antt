-- ===== src/SecretsSync/Merge/Laws.antt =====
-- What a merge that succeeds returns, and when it succeeds.
use homeassistant_addons.Common.{
  ◌≡◌, refl, true, false, String, List, [], ◌∷◌, ◌++◌, Option, none, some, ok, ◌==◌, string_eq,
  arith, is_some, Bool-cases, Option-cases, inl, inr, >>=-eq-ok,
}
use homeassistant_addons.Common.Dict
use homeassistant_addons.Common.Dict.{Dict, get-set}
use homeassistant_addons.SecretsSync.Contract.{Snapshot, Bytes}
use homeassistant_addons.SecretsSync.Merge.{
  Taken, Merged, Progress, take_all, check_paths, merge_one, merge_loop, merge, no_progress,
}

abbrev pub or_else : {V : Type 0} → Option V → Option V → Option V
or_else (some v) o = some v
or_else none o = o

-- The sources name the keys that the output holds.
abbrev pub Agrees : {V : Type 0} → Dict String V → Dict String String → Type 0
Agrees items source = (k : String) → is_some (Dict.get k source) ≡ is_some (Dict.get k items)

-- What the loop over `d` makes of the items `before`: the first value of a key stays.
pub record Extends {V : Type 0} (d before after : Dict String V) (source : Dict String String)
    : Type 0 where
  pub agrees : Agrees after source
  pub gets : (k : String) → Dict.get k after ≡ or_else (Dict.get k before) (Dict.get k d)

Extends-refl :
    {V : Type 0} (before : Dict String V) (source : Dict String String)
    → Agrees before source
    → Extends [] before before source
unfolding Dict.get
Extends-refl before source a = record { agrees = a; gets = λ k. ground arith }

module _ {V : Type 0} (key : String) (v : V) (d before after : Dict String V)
    (source : Dict String String) where
  -- A key that is there is passed over.
  Extends-skip :
      is_some (Dict.get key before) ≡ true
      → Extends d before after source
      → Extends ((key, v) ∷ d) before after source
  unfolding Dict.get
  Extends-skip e x = record { agrees = x.agrees; gets = λ k. ground (arith, x.gets k) }

  -- A new key is taken.
  Extends-take :
      is_some (Dict.get key before) ≡ false
      → Extends d (Dict.set key v before) after source
      → Extends ((key, v) ∷ d) before after source
  unfolding Dict.get
  Extends-take e x = record {
    agrees = x.agrees;
    gets = λ k. ground (arith, x.gets k, get-set k key v before);
  }

module _ {V : Type 0} (kind policy provider : String) where
  take_all-Extends :
      (d : Dict String V) (t u : Taken V)
      → Agrees t.items t.source
      → take_all kind policy provider d t ≡ ok u
      → Extends d t.items u.items u.source
  unfolding take_all
  take_all-Extends [] t u a h = rw (← t_eq) (Extends-refl t.items t.source a)
    where
      t_eq : t ≡ u
      t_eq = cc
  take_all-Extends ((key, v) ∷ d) t u a h = elim (Option-cases (Dict.get key t.source)) [
    | inl e ↦ Extends-take key v d t.items u.items u.source (ground (arith, a key)) (
        take_all-Extends d
          (record t { items = Dict.set key v t.items; source = Dict.set key provider t.source }) u
          (λ k. ground (arith, a k, get-set k key v t.items, get-set k key provider t.source))
          (rw (e, take_all) at h))
    | inr (w, e) ↦ elim (Bool-cases (policy == "priority")) [
      | inl p ↦ Extends-skip key v d t.items u.items u.source (ground (arith, a key)) (
          take_all-Extends d (record t { shadowed = t.shadowed ++ (key, w, provider) ∷ [] }) u a
            (rw (e, take_all, p) at h))
      | inr n ↦ cc (rw (e, take_all, n) at h)
    ]
  ]

-- The first contribution that has the key gives its value.
abbrev pub first_secret : String → List (String × Snapshot) → Option String
first_secret k [] = none
first_secret k ((_, snap) ∷ cs) = or_else (Dict.get k snap.secrets) (first_secret k cs)

abbrev pub first_file : String → List (String × Snapshot) → Option Bytes
first_file k [] = none
first_file k ((_, snap) ∷ cs) = or_else (Dict.get k snap.files) (first_file k cs)

pub record Extended (snap : Snapshot) (p q : Progress) : Type 0 where
  pub secrets : Extends snap.secrets p.secrets q.secrets q.secret_src
  pub files : Extends snap.files p.files q.files q.file_src

-- The three steps of a `merge_one` that succeeds.
pub record Steps (policy provider : String) (snap : Snapshot) (p q : Progress) : Type 0 where
  pub s : Taken String
  pub f : Taken Bytes
  pub paths : List String
  pub checked : check_paths provider (Dict.keys snap.files) ≡ ok paths
  pub keys_taken :
      take_all "key" policy provider snap.secrets
        (record { items = p.secrets; source = p.secret_src; shadowed = p.shadowed })
      ≡ ok s
  pub files_taken :
      take_all "file" policy provider snap.files
        (record { items = p.files; source = p.file_src; shadowed = s.shadowed })
      ≡ ok f
  pub result : q ≡ record {
    secrets = s.items;
    files = f.items;
    shadowed = f.shadowed;
    secret_src = s.source;
    file_src = f.source;
  }

pub merge_one-Steps :
    (policy provider : String) (snap : Snapshot) (p q : Progress)
    → merge_one policy provider snap p ≡ ok q
    → Steps policy provider snap p q
unfolding merge_one
merge_one-Steps policy provider snap p q h =
    let (paths, checked, h1) = >>=-eq-ok (check_paths provider (Dict.keys snap.files)) _ h in
    let (s, keys_taken, h2) = >>=-eq-ok (take_all "key" policy provider snap.secrets _) _ h1 in
    let (f, files_taken, h3) = >>=-eq-ok (take_all "file" policy provider snap.files _) _ h2 in
    record {
      s = s;
      f = f;
      paths = paths;
      checked = checked;
      keys_taken = keys_taken;
      files_taken = files_taken;
      result = cc h3;
    }

pub merge_one-Extended :
    (policy provider : String) (snap : Snapshot) (p q : Progress)
    → Agrees p.secrets p.secret_src
    → Agrees p.files p.file_src
    → Steps policy provider snap p q
    → Extended snap p q
merge_one-Extended policy provider snap p q a b x = rw x.result (record {
  secrets = take_all-Extends "key" policy provider snap.secrets _ x.s a x.keys_taken;
  files = take_all-Extends "file" policy provider snap.files _ x.f b x.files_taken;
})

record IsFirst (cs : List (String × Snapshot)) (p q : Progress) : Type 0 where
  secrets : (k : String) → Dict.get k q.secrets ≡ or_else (Dict.get k p.secrets) (first_secret k cs)
  files : (k : String) → Dict.get k q.files ≡ or_else (Dict.get k p.files) (first_file k cs)

merge_loop-IsFirst :
    (policy : String) (cs : List (String × Snapshot)) (p q : Progress)
    → Agrees p.secrets p.secret_src
    → Agrees p.files p.file_src
    → merge_loop policy cs p ≡ ok q
    → IsFirst cs p q
unfolding merge_loop
merge_loop-IsFirst policy [] p q a b h = record {
  secrets = λ k. ground arith;
  files = λ k. ground arith;
}
merge_loop-IsFirst policy ((provider, snap) ∷ cs) p q a b h =
    let (r, e, h1) = >>=-eq-ok (merge_one policy provider snap p) _ h in
    let x =
      merge_one-Extended policy provider snap p r a b
        (merge_one-Steps policy provider snap p r e) in
    let rest = merge_loop-IsFirst policy cs r q x.secrets.agrees x.files.agrees h1 in
    record {
      secrets = λ k. ground (arith, rest.secrets k, x.secrets.gets k);
      files = λ k. ground (arith, rest.files k, x.files.gets k);
    }

-- Under either policy, a merge that succeeds holds, for every key and every file path, what the
-- first contribution that has it says, and nothing for what no contribution has.
pub get-merge :
    (cs : List (String × Snapshot)) (policy : String) (m : Merged)
    → merge cs policy ≡ ok m
    → (k : String)
    → (Dict.get k m.secrets ≡ first_secret k cs) × (Dict.get k m.files ≡ first_file k cs)
unfolding merge Dict.get
get-merge cs policy m h k =
    let (q, e, h1) = >>=-eq-ok (merge_loop policy cs no_progress) _ h in
    let x = merge_loop-IsFirst policy cs no_progress q (λ k. refl) (λ k. refl) e in
    (ground (arith, x.secrets k), ground (arith, x.files k))
