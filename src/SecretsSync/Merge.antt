-- ===== src/SecretsSync/Merge.antt =====
-- secrets-sync/app/engine/merge.py: one secret set out of the providers' snapshots.
pub mod Laws
pub mod Exclusive
pub mod Priority
use homeassistant_addons.Common.{
  String, ◌<>◌, List, [], ◌∷◌, ◌++◌, Option, none, some, Result, ok, err, ◌>>=◌, ◌==◌, string_eq,
  if◌then◌else◌,
}
use homeassistant_addons.Common.Dict
use homeassistant_addons.Common.Dict.{Dict}
use homeassistant_addons.SecretsSync.Contract.{Snapshot, Bytes, CodedError}
use homeassistant_addons.SecretsSync.Paths.{safe_relpath}

-- (name, winner, loser)
abbrev pub Shadow : Type 0
Shadow = String × String × String

pub record Merged : Type 0 where
  pub secrets : Dict String String
  pub files : Dict String Bytes
  pub shadowed : List Shadow

-- The variables of one of the two inner loops: the output dict, the dict of sources, and the
-- shadowed names, which both loops write.
pub record Taken (V : Type 0) : Type 0 where
  pub items : Dict String V
  pub source : Dict String String
  pub shadowed : List Shadow

abbrev collision : String → String → String → String → CodedError
collision kind key winner provider = record {
  code = "key_collision";
  message = kind <> (" '" <> (key <> ("' provided by " <> (winner <> (" and " <> provider)))));
}

-- The loops over `snap.secrets.items()` ("key") and `snap.files.items()` ("file").
unfoldable pub take_all :
    {V : Type 0} → String → String → String → Dict String V → Taken V → Result CodedError (Taken V)
take_all kind policy provider [] t = ok t
take_all kind policy provider ((key, value) ∷ entries) t = elim (Dict.get key t.source) [
  | some winner ↦
      let rest =
        take_all kind policy provider entries
          (record t { shadowed = t.shadowed ++ (key, winner, provider) ∷ [] }) in
      if policy == "priority" then rest else err (collision kind key winner provider)
  | none ↦
      take_all kind policy provider entries
        (record t { items = Dict.set key value t.items; source = Dict.set key provider t.source })
]

-- The loop over `snap.files` that comes first: every path must be safe.
unfoldable pub check_paths : String → List String → Result CodedError (List String)
check_paths provider [] = ok []
check_paths provider (path ∷ paths) = elim (safe_relpath path) [
  | ok _ ↦ check_paths provider paths
  | err _ ↦ err (record {
    code = "unsafe_path";
    message = "provider " <> (provider <> " returned an unsafe file path");
  })
]

-- All variables of `merge`.
pub record Progress : Type 0 where
  pub secrets : Dict String String
  pub files : Dict String Bytes
  pub shadowed : List Shadow
  pub secret_src : Dict String String
  pub file_src : Dict String String

-- The body of the outer loop.
unfoldable pub merge_one : String → String → Snapshot → Progress → Result CodedError Progress
merge_one policy provider snap p = do
  _ ← check_paths provider (Dict.keys snap.files)
  s ←
      take_all "key" policy provider snap.secrets
        (record { items = p.secrets; source = p.secret_src; shadowed = p.shadowed })
  f ←
      take_all "file" policy provider snap.files
        (record { items = p.files; source = p.file_src; shadowed = s.shadowed })
  ok (record {
    secrets = s.items;
    files = f.items;
    shadowed = f.shadowed;
    secret_src = s.source;
    file_src = f.source;
  })

unfoldable pub merge_loop :
    String → List (String × Snapshot) → Progress → Result CodedError Progress
merge_loop policy [] p = ok p
merge_loop policy ((provider, snap) ∷ contributions) p =
    merge_one policy provider snap p >>= merge_loop policy contributions

abbrev pub no_progress : Progress
no_progress = record { secrets = []; files = []; shadowed = []; secret_src = []; file_src = [] }

unfoldable pub merge : List (String × Snapshot) → String → Result CodedError Merged
merge contributions policy = do
  p ← merge_loop policy contributions no_progress
  ok (record { secrets = p.secrets; files = p.files; shadowed = p.shadowed })
