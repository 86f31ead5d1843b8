-- ===== src/SecretsSync/Sops/Leaves.antt =====
-- The leaves of a document, and a walk as the puts of all leaves.
use mathlib.Core.List.{append_assoc, append-nil}
use homeassistant_addons.Common.{◌≡◌, refl, ap, ◌∙◌, sym, String, List, [], ◌∷◌, ◌++◌, string_eq}
use homeassistant_addons.Common.Dict.{Dict}
use homeassistant_addons.SecretsSync.Sops.{
  Value, flag, scalar, unsupported, mapping, Items, no_items, item, Walk, flag_text, flat_name, put,
  walk, visit,
}

-- The leaves of a document with their names and texts, and the names of what is not supported.
unfoldable mutual
  pub leaves : String → Items → String → Dict String String
  leaves sep no_items prefix = []
  leaves sep (item key value rest) prefix =
      leaves_at sep value (flat_name sep prefix key) ++ leaves sep rest prefix

  pub leaves_at : String → Value → String → Dict String String
  leaves_at sep (mapping items) name = leaves sep items name
  leaves_at sep unsupported name = []
  leaves_at sep (flag b) name = (name, flag_text b) ∷ []
  leaves_at sep (scalar text) name = (name, text) ∷ []

unfoldable mutual
  pub rejects : String → Items → String → List String
  rejects sep no_items prefix = []
  rejects sep (item key value rest) prefix =
      rejects_at sep value (flat_name sep prefix key) ++ rejects sep rest prefix

  pub rejects_at : String → Value → String → List String
  rejects_at sep (mapping items) name = rejects sep items name
  rejects_at sep unsupported name = name ∷ []
  rejects_at sep (flag b) name = []
  rejects_at sep (scalar text) name = []

-- All leaves put one after the other.
unfoldable pub put_all : Dict String String → Walk → Walk
put_all [] w = w
put_all ((name, text) ∷ rest) w = put_all rest (put name text w)

unfoldable pub add_bad : List String → Walk → Walk
add_bad names w = record w { bad = w.bad ++ names }

put_all-append :
    (xs ys : Dict String String) (w : Walk) → put_all (xs ++ ys) w ≡ put_all ys (put_all xs w)
unfolding put_all
put_all-append [] ys w = refl
put_all-append ((name, text) ∷ xs) ys w = put_all-append xs ys (put name text w)

put_all-add_bad :
    (xs : Dict String String) (names : List String) (w : Walk)
    → put_all xs (add_bad names w) ≡ add_bad names (put_all xs w)
unfolding put_all add_bad put
put_all-add_bad [] names w = refl
put_all-add_bad ((name, text) ∷ xs) names w = put_all-add_bad xs names (put name text w)

add_bad-append : (xs ys : List String) (w : Walk) → add_bad ys (add_bad xs w) ≡ add_bad (xs ++ ys) w
unfolding add_bad
add_bad-append xs ys w = ap (λ b. record w { bad = b }) (append_assoc w.bad xs ys)

add_bad-nil : (w : Walk) → add_bad [] w ≡ w
unfolding add_bad
add_bad-nil w = ap (λ b. record w { bad = b }) (append-nil w.bad)

add_bad_one :
    (name : String) (w : Walk) → record w { bad = w.bad ++ name ∷ [] } ≡ add_bad (name ∷ []) w
unfolding add_bad
add_bad_one name w = refl

mutual
  unfolding walk visit leaves leaves_at rejects rejects_at put_all

  pub walk_lem :
      (sep : String) (items : Items) (prefix : String) (w : Walk)
      → walk sep items prefix w
        ≡ add_bad (rejects sep items prefix) (put_all (leaves sep items prefix) w)
  walk_lem sep no_items prefix w = sym (add_bad-nil w)
  walk_lem sep (item key value rest) prefix w =
      let name = flat_name sep prefix key in
      let here = leaves_at sep value name in
      let bad = rejects_at sep value name in
      let more = leaves sep rest prefix in
      let worse = rejects sep rest prefix in
      walk_lem sep rest prefix (visit sep value name w)
      ∙ ap (λ v. add_bad worse (put_all more v)) (visit_lem sep value name w)
      ∙ ap (add_bad worse) (put_all-add_bad more bad (put_all here w))
      ∙ add_bad-append bad worse _
      ∙ ap (add_bad (bad ++ worse)) (sym (put_all-append here more w))

  visit_lem :
      (sep : String) (value : Value) (name : String) (w : Walk)
      → visit sep value name w
        ≡ add_bad (rejects_at sep value name) (put_all (leaves_at sep value name) w)
  visit_lem sep (mapping items) name w = walk_lem sep items name w
  visit_lem sep unsupported name w = add_bad_one name w
  visit_lem sep (flag b) name w = sym (add_bad-nil _)
  visit_lem sep (scalar text) name w = sym (add_bad-nil _)
