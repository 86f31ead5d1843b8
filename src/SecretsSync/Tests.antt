-- ===== src/SecretsSync/Tests.antt =====
-- Runs of the Secrets Sync model, and its theorems at concrete data.
use homeassistant_addons.Common.{
  ℕ, ◌≤◌, ◌≡◌, ◌≢◌, refl, true, false, String, List, [], ◌∷◌, ok, err, arith, string_eq, All,
  contains, ◌||◌, ◌↔◌, ◌==◌,
}
use homeassistant_addons.Common.Dict
use homeassistant_addons.Common.Dict.{Dict, NodupKeys}
use homeassistant_addons.SecretsSync.Sops.{
  Items, no_items, item, scalar, flag, mapping, walk, visit, put, flat_name, flag_text, outcome,
  flatten,
}
use homeassistant_addons.SecretsSync.Sops.Leaves.{leaves, rejects}
use homeassistant_addons.SecretsSync.Sops.Flatten.{flatten-eq-ok}
use homeassistant_addons.Common.Text.{len, includes}
use homeassistant_addons.SecretsSync.Contract.{Snapshot}
use homeassistant_addons.SecretsSync.Paths.{
  unsafe_path, safe_relpath, has_char, is_absolute, split, is_dots,
}
use homeassistant_addons.SecretsSync.Paths.Laws.{
  IsSegment, join, safe_relpath-eq-ok, safe_relpath-join,
}
use homeassistant_addons.SecretsSync.Merge.{
  Merged, merge, merge_loop, merge_one, take_all, check_paths,
}
use homeassistant_addons.SecretsSync.Merge.Laws.{first_secret, first_file, get-merge}
use homeassistant_addons.SecretsSync.Merge.Exclusive.{secret_count, file_count, merge-exclusive}
use homeassistant_addons.SecretsSync.Merge.Priority.{SafeFiles, merge-priority}
use homeassistant_addons.SecretsSync.Redact.{min_len, register, scrub}
use homeassistant_addons.SecretsSync.Redact.Hides.{starless, scrub-register}

-- Paths.

segment_paths : safe_relpath "a/b.c" ≡ ok ("a" ∷ "b.c" ∷ [])
unfolding safe_relpath has_char is_absolute split is_dots string_eq
segment_paths = refl

parent_path : safe_relpath "a/../b" ≡ err unsafe_path
unfolding safe_relpath has_char is_absolute split is_dots string_eq
parent_path = refl

safe_relpath-eq-ok_example :
    (join ("a" ∷ "b.c" ∷ []) ≡ "a/b.c")
    × (◌≢◌ {A = List String} ("a" ∷ "b.c" ∷ []) [])
    × All IsSegment ("a" ∷ "b.c" ∷ [])
safe_relpath-eq-ok_example = safe_relpath-eq-ok "a/b.c" ("a" ∷ "b.c" ∷ []) segment_paths

two_segments : All IsSegment ("a" ∷ "b.c" ∷ [])
unfolding has_char is_dots string_eq
two_segments = (
  record { plain = refl; no_slash = refl; no_backslash = refl; no_nul = refl },
  (record { plain = refl; no_slash = refl; no_backslash = refl; no_nul = refl }, tt),
)

safe_relpath-join_example : safe_relpath "a/b.c" ≡ ok ("a" ∷ "b.c" ∷ [])
safe_relpath-join_example = safe_relpath-join "a" ("b.c" ∷ []) two_segments

-- Merging.

abbrev snapshot : Dict String String → Dict String (List ℕ) → Snapshot
snapshot secrets files = record {
  secrets = secrets;
  files = files;
  revision = "";
  check_token = "";
}

abbrev bitwarden : String × Snapshot
bitwarden = ("bitwarden", snapshot (("a", "1") ∷ ("b", "2") ∷ []) (("n/x.txt", 1 ∷ []) ∷ []))

abbrev sops : String × Snapshot
sops = ("sops", snapshot (("c", "3") ∷ []) [])

abbrev sops_again : String × Snapshot
sops_again = ("sops", snapshot (("b", "9") ∷ ("c", "3") ∷ []) [])

abbrev union : Merged
union = record {
  secrets = ("a", "1") ∷ ("b", "2") ∷ ("c", "3") ∷ [];
  files = ("n/x.txt", 1 ∷ []) ∷ [];
  shadowed = [];
}

merge_disjoint : merge (bitwarden ∷ sops ∷ []) "error" ≡ ok union
unfolding merge merge_loop merge_one take_all check_paths safe_relpath has_char is_absolute split
    is_dots string_eq Dict.get Dict.set Dict.keys
merge_disjoint = refl

merge_shadowed :
    merge (bitwarden ∷ sops_again ∷ []) "priority"
    ≡ ok (record union { shadowed = ("b", "bitwarden", "sops") ∷ [] })
unfolding merge merge_loop merge_one take_all check_paths safe_relpath has_char is_absolute split
    is_dots string_eq Dict.get Dict.set Dict.keys
merge_shadowed = refl

get-merge_example :
    (Dict.get "c" union.secrets ≡ first_secret "c" (bitwarden ∷ sops ∷ []))
    × (Dict.get "c" union.files ≡ first_file "c" (bitwarden ∷ sops ∷ []))
get-merge_example = get-merge (bitwarden ∷ sops ∷ []) "error" union merge_disjoint "c"

error_policy : ◌==◌ {A = String} "error" "priority" ≡ false
unfolding string_eq
error_policy = refl

priority_policy : ◌==◌ {A = String} "priority" "priority" ≡ true
unfolding string_eq
priority_policy = refl

merge-exclusive_example :
    (secret_count "c" (bitwarden ∷ sops ∷ []) ≤ 1) × (file_count "c" (bitwarden ∷ sops ∷ []) ≤ 1)
merge-exclusive_example =
    merge-exclusive (bitwarden ∷ sops ∷ []) "error" union error_policy merge_disjoint "c"

merge-priority_example :
    ((m : Merged) × (merge (bitwarden ∷ sops_again ∷ []) "priority" ≡ ok m))
    ↔ SafeFiles (bitwarden ∷ sops_again ∷ [])
merge-priority_example = merge-priority (bitwarden ∷ sops_again ∷ []) "priority" priority_policy

-- The redactor.

long_enough : min_len ≤ len "hunter22"
unfolding len
long_enough = omega arith

no_star : starless "hunter22" ≡ true
unfolding starless
no_star = refl

known_value :
    (contains {A = String} [] "hunter22"
      || contains {A = String} ("abc" ∷ "hunter22" ∷ []) "hunter22")
    ≡ true
unfolding string_eq
known_value = refl

scrub-register_example :
    includes "hunter22" (scrub (register [] ("abc" ∷ "hunter22" ∷ [])) "login with hunter22 failed")
    ≡ false
scrub-register_example =
    scrub-register [] ("abc" ∷ "hunter22" ∷ []) "hunter22" "login with hunter22 failed" long_enough
      no_star known_value

-- Flattening.

abbrev document : Items
document =
    item "db" (mapping (item "user" (scalar "ha") (item "tls" (flag true) no_items)))
      (item "pin" (scalar "1234") no_items)

abbrev flat : Dict String String
flat = ("db_user", "ha") ∷ ("db_tls", "true") ∷ ("pin", "1234") ∷ []

flattened : flatten "_" document ≡ ok flat
unfolding flatten outcome walk visit put flat_name flag_text string_eq Dict.has Dict.set
flattened = refl

flatten-eq-ok_example : (flatten "_" document ≡ ok flat) ↔ (
    (flat ≡ leaves "_" document "")
    × NodupKeys (leaves "_" document "")
    × (rejects "_" document "" ≡ []))
flatten-eq-ok_example = flatten-eq-ok "_" document flat
