-- ===== src/SecretsSync/Sops.antt =====
-- `_flatten` of secrets-sync/app/providers/sops.py: a decrypted document becomes flat keys.
pub mod Leaves
pub mod Flatten
use homeassistant_addons.Common.{
  Bool, true, false, String, ◌<>◌, List, [], ◌∷◌, ◌++◌, ◌==◌, contains, string_eq, Result, ok, err,
  is_empty, if◌then◌else◌,
}
use homeassistant_addons.Common.Dict
use homeassistant_addons.Common.Dict.{Dict}
use homeassistant_addons.Common.Sort.{sort, str_le}
use homeassistant_addons.Common.Text.{join_names}
use homeassistant_addons.SecretsSync.Contract.{CodedError}

-- A YAML value: a Boolean, another scalar by its `str(value)`, what is not supported (a list, a
-- tuple, a set or null), and a mapping, whose keys stand as `str(key)`.
mutual
  pub data Value : Type 0 where
    flag : Bool → Value
    scalar : String → Value
    unsupported : Value
    mapping : Items → Value

  pub data Items : Type 0 where
    no_items : Items
    item : (key : String) → Value → (rest : Items) → Items

-- The variables of `_flatten` that `walk` changes.
pub record Walk : Type 0 where
  pub out : Dict String String
  pub bad : List String
  pub collisions : List String

-- `_to_str` of a Boolean
unfoldable pub flag_text : Bool → String
flag_text b = if b then "true" else "false"

-- `name`
unfoldable pub flat_name : String → String → String → String
flat_name sep prefix key = if prefix == "" then key else prefix <> (sep <> key)

-- The branch of a scalar.
unfoldable pub put : String → String → Walk → Walk
put name text w = record w {
  collisions = if Dict.has name w.out then w.collisions ++ name ∷ [] else w.collisions;
  out = Dict.set name text w.out;
}

unfoldable mutual
  pub walk : String → Items → String → Walk → Walk
  walk sep no_items prefix w = w
  walk sep (item key value rest) prefix w =
      walk sep rest prefix (visit sep value (flat_name sep prefix key) w)

  -- The body of the loop.
  pub visit : String → Value → String → Walk → Walk
  visit sep (mapping items) name w = walk sep items name w
  visit sep unsupported name w = record w { bad = w.bad ++ name ∷ [] }
  visit sep (flag b) name w = put name (flag_text b) w
  visit sep (scalar text) name w = put name text w

-- `set(names)`, as a list
unfoldable pub unique : List String → List String
unique [] = []
unique (x ∷ xs) = let rest = unique xs in if contains rest x then rest else x ∷ rest

abbrev pub no_walk : Walk
no_walk = record { out = []; bad = []; collisions = [] }

unfoldable pub outcome : Walk → Result CodedError (Dict String String)
outcome w =
    if is_empty w.bad
    then if is_empty w.collisions
      then ok w.out
      else err (record {
        code = "key_collision";
        message = "flattened key collision: " <> join_names (sort str_le (unique w.collisions));
      })
    else err (record {
      code = "sops_unsupported_value";
      message = "unsupported value type for keys: " <> join_names (sort str_le w.bad);
    })

unfoldable pub flatten : String → Items → Result CodedError (Dict String String)
flatten sep data_items = outcome (walk sep data_items "" no_walk)
