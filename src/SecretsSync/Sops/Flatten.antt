-- ===== src/SecretsSync/Sops/Flatten.antt =====
-- A flattened document has every leaf of the document, once, and in order.
use mathlib.Core.List.{append_assoc, append-nil}
use homeassistant_addons.Common.{
  ◌≡◌, refl, ap, ◌∙◌, ◌↔◌, ◌==◌, sym, true, false, String, List, [], ◌∷◌, ◌++◌, string_eq, ok,
  is_empty, arith, none,
}
use homeassistant_addons.Common.Dict
use homeassistant_addons.Common.Dict.{Dict, NodupKeys, set-NodupKeys, has_lem}
use homeassistant_addons.SecretsSync.Sops.{Items, Walk, put, walk, no_walk, outcome, flatten}
use homeassistant_addons.SecretsSync.Sops.Leaves.{leaves, rejects, put_all, add_bad, walk_lem}
use mathlib.Core.Path.{subst}

-- Puts without a collision append.
set-append :
    (name text : String) (d : Dict String String)
    → Dict.has name d ≡ false
    → Dict.set name text d ≡ d ++ (name, text) ∷ []
unfolding Dict.has Dict.set
set-append name text [] h = refl
set-append name text ((k, v) ∷ d) h = ground (arith, set-append name text d)

put_all-bad : (xs : Dict String String) (w : Walk) → (put_all xs w).bad ≡ w.bad
unfolding put_all put
put_all-bad [] w = refl
put_all-bad ((name, text) ∷ xs) w = put_all-bad xs (put name text w)

put_all-Nodup :
    (xs : Dict String String) (w : Walk) → NodupKeys w.out → NodupKeys ((put_all xs w).out)
unfolding put_all put
put_all-Nodup [] w u = u
put_all-Nodup ((name, text) ∷ xs) w u =
    put_all-Nodup xs (put name text w) (set-NodupKeys name text w.out u)

is_empty-snoc : (xs : List String) (x : String) → is_empty (xs ++ x ∷ []) ≡ false
is_empty-snoc [] x = refl
is_empty-snoc (y ∷ xs) x = refl

put-collisions :
    (name text : String) (w : Walk)
    → is_empty ((put name text w).collisions) ≡ true
    → (is_empty w.collisions ≡ true) × (Dict.has name w.out ≡ false)
unfolding put
put-collisions name text w h = ground (arith, is_empty-snoc w.collisions name)

put-out :
    (name text : String) (w : Walk)
    → Dict.has name w.out ≡ false
    → (put name text w).out ≡ w.out ++ (name, text) ∷ []
unfolding put
put-out name text w h = set-append name text w.out h

put_all-collisions :
    (xs : Dict String String) (w : Walk)
    → is_empty ((put_all xs w).collisions) ≡ true
    → (is_empty w.collisions ≡ true) × ((put_all xs w).out ≡ w.out ++ xs)
unfolding put_all
put_all-collisions [] w h = (h, sym (append-nil w.out))
put_all-collisions ((name, text) ∷ xs) w h =
    let (e, p) = put_all-collisions xs (put name text w) h in
    let (e', q) = put-collisions name text w e in
    (e', p ∙ ap (λ o. o ++ xs) (put-out name text w q) ∙ append_assoc w.out ((name, text) ∷ []) xs)

is_empty-nil : {A : Type 0} (xs : List A) → is_empty xs ≡ true → xs ≡ []
is_empty-nil [] h = refl
is_empty-nil (x ∷ xs) h = cc

outcome-eq-ok :
    (w : Walk) (out : Dict String String)
    → outcome w ≡ ok out
    → (is_empty w.bad ≡ true) × (is_empty w.collisions ≡ true) × (w.out ≡ out)
unfolding outcome
outcome-eq-ok w out h = ground arith

add_bad-bad : (names : List String) (w : Walk) → (add_bad names w).bad ≡ w.bad ++ names
unfolding add_bad
add_bad-bad names w = refl

add_bad-rest :
    (names : List String) (w : Walk)
    → ((add_bad names w).out ≡ w.out) × ((add_bad names w).collisions ≡ w.collisions)
unfolding add_bad
add_bad-rest names w = (refl, refl)

-- The final variables of a walk that starts with none.
module _ (sep : String) (items : Items) where
  abbrev puts : Walk
  puts = put_all (leaves sep items "") no_walk

  final-bad : (walk sep items "" no_walk).bad ≡ rejects sep items ""
  final-bad =
      ap (λ w. w.bad) (walk_lem sep items "" no_walk)
      ∙ add_bad-bad (rejects sep items "") puts
      ∙ ap (λ b. b ++ rejects sep items "") (put_all-bad (leaves sep items "") no_walk)

  final-collisions : (walk sep items "" no_walk).collisions ≡ puts.collisions
  final-collisions =
      ap (λ w. w.collisions) (walk_lem sep items "" no_walk)
      ∙ (add_bad-rest (rejects sep items "") puts).1

  final-out : (walk sep items "" no_walk).out ≡ puts.out
  final-out =
      ap (λ w. w.out) (walk_lem sep items "" no_walk) ∙ (add_bad-rest (rejects sep items "") puts).0

get-missing :
    (j k text : String) (d xs : Dict String String)
    → Dict.get j (d ++ (k, text) ∷ xs) ≡ none
    → (j == k) ≡ false
unfolding Dict.get
get-missing j k text [] xs h = ground arith
get-missing j k text ((i, v) ∷ d) xs h = ground (arith, get-missing j k text d xs)

Nodup-fresh :
    (name text : String) (d xs : Dict String String)
    → NodupKeys (d ++ (name, text) ∷ xs)
    → Dict.has name d ≡ false
unfolding Dict.has
Nodup-fresh name text [] xs u = refl
Nodup-fresh name text ((j, v) ∷ d) xs (fresh, u) =
    ground (arith, get-missing j name text d xs fresh, Nodup-fresh name text d xs u)

put_fresh :
    (name text : String) (w : Walk)
    → Dict.has name w.out ≡ false
    → (put name text w).collisions ≡ w.collisions
unfolding put
put_fresh name text w h = rw h refl

put_all_fresh :
    (xs : Dict String String) (w : Walk)
    → NodupKeys (w.out ++ xs)
    → (put_all xs w).collisions ≡ w.collisions
unfolding put_all
put_all_fresh [] w u = refl
put_all_fresh ((name, text) ∷ xs) w u =
    let fresh = Nodup-fresh name text w.out xs u in
    let e = put-out name text w fresh in
    put_all_fresh xs (put name text w) (
      subst (λ o. NodupKeys (o ++ xs)) (sym e)
        (subst NodupKeys (sym (append_assoc w.out ((name, text) ∷ []) xs)) u))
    ∙ put_fresh name text w fresh

outcome-ok :
    (w : Walk) (out : Dict String String)
    → w.bad ≡ []
    → w.collisions ≡ []
    → w.out ≡ out
    → outcome w ≡ ok out
unfolding outcome
outcome-ok w out bad collisions e = rw (bad, collisions, e) refl

flatten_sound :
    (sep : String) (items : Items) (out : Dict String String)
    → flatten sep items ≡ ok out
    → (out ≡ leaves sep items "") × NodupKeys (leaves sep items "") × (rejects sep items "" ≡ [])
unfolding flatten
flatten_sound sep items out h =
    let (bad, collisions, e) = outcome-eq-ok (walk sep items "" no_walk) out h in
    let (_, all) =
      put_all-collisions (leaves sep items "") no_walk
        (rw (← final-collisions sep items) collisions) in
    let nodup = put_all-Nodup (leaves sep items "") no_walk tt in
    (
      sym e ∙ final-out sep items ∙ all,
      rw all at nodup,
      is_empty-nil _ (rw (← final-bad sep items) bad),
    )

flatten_complete :
    (sep : String) (items : Items)
    → NodupKeys (leaves sep items "")
    → rejects sep items "" ≡ []
    → flatten sep items ≡ ok (leaves sep items "")
unfolding flatten
flatten_complete sep items u none_bad =
    let clear = final-collisions sep items ∙ put_all_fresh (leaves sep items "") no_walk u in
    let (_, all) =
      put_all-collisions (leaves sep items "") no_walk
        (ap is_empty (put_all_fresh (leaves sep items "") no_walk u)) in
    outcome-ok (walk sep items "" no_walk) (leaves sep items "") (final-bad sep items ∙ none_bad)
      clear (final-out sep items ∙ all)

-- A document is flattened without an error exactly when all its leaves have different flat names
-- and it has nothing that is not supported, and then the result is the list of all its leaves in
-- their order.
pub flatten-eq-ok :
    (sep : String) (items : Items) (out : Dict String String)
    → (flatten sep items ≡ ok out) ↔ (
        (out ≡ leaves sep items "") × NodupKeys (leaves sep items "") × (rejects sep items "" ≡ []))
flatten-eq-ok sep items out = (
  flatten_sound sep items out,
  λ (e, u, none_bad). flatten_complete sep items u none_bad ∙ ap ok (sym e),
)
