-- ===== src/Ntfy/Origins/Laws.antt =====
-- The records as a map from users and keys to origins: what each operation does to it.
use homeassistant_addons.Common.{
  ◌≡◌, refl, Bool, true, false, ◌&&◌, String, [], ◌∷◌, none, is_empty, ◌==◌, string_eq, arith,
  if◌then◌else◌, Bool-cases, inl, inr, All,
}
use homeassistant_addons.Common.Dict
use homeassistant_addons.Common.Dict.{Dict, NodupKeys, get-set, get-remove, has_lem, set-NodupKeys}
use homeassistant_addons.Ntfy.Origins.{
  default_origin, inner, origin_of, put_inner, drop_inner, live_names, live_section,
}

abbrev pub Section : Type 0
Section = Dict String (Dict String String)

get-is_empty :
    {V : Type 0} (k : String) (d : Dict String V) → is_empty d ≡ true → Dict.get k d ≡ none
unfolding Dict.get
get-is_empty k [] h = refl
get-is_empty k (x ∷ d) h = cc

get-unknown :
    {V : Type 0} (k : String) (d : Dict String V) → Dict.has k d ≡ false → Dict.get k d ≡ none
get-unknown k d h = ground (arith, has_lem k d)

if_same : {A : Type 0} (b : Bool) (a : A) → a ≡ (if b then a else a)
if_same true a = refl
if_same false a = refl

origin_of-absent :
    (user key u k : String) (s : Section)
    → Dict.has user s ≡ false
    → origin_of u k s ≡ (if u == user && k == key then default_origin else origin_of u k s)
unfolding origin_of Dict.get
origin_of-absent user key u k s h = elim (string_eq.dec u user) [
  | yes p ↦ rw (p, get-unknown user s h) (if_same (user == user && k == key) default_origin)
  | no n ↦ ground arith
]

module _ (user key u k : String) where
  origin_of-put :
      (origin : String) (s : Section)
      → origin_of u k (put_inner user key origin s)
        ≡ (if u == user && k == key then origin else origin_of u k s)
  unfolding origin_of put_inner
  origin_of-put origin s = ground (
    arith,
    get-set u user (Dict.set key origin (inner user s)) s,
    get-set k key origin (inner user s),
  )

  origin_of-drop :
      (s : Section)
      → origin_of u k (drop_inner user key s)
        ≡ (if u == user && k == key then default_origin else origin_of u k s)
  unfolding origin_of drop_inner
  origin_of-drop s = elim (Bool-cases (Dict.has user s)) [
    | inr e ↦ rw e (origin_of-absent user key u k s e)
    | inl e ↦ elim (Bool-cases (is_empty (Dict.remove key (inner user s)))) [
      | inl f ↦
          rw (e, f)
            (ground (
              arith,
              get-remove u user s,
              get-remove k key (inner user s),
              get-is_empty k (Dict.remove key (inner user s)),
            ))
      | inr f ↦
          rw (e, f)
            (ground (
              arith,
              get-set u user (Dict.remove key (inner user s)) s,
              get-remove k key (inner user s),
            ))
    ]
  ]

get-live_names :
    (live : String → Bool) (k : String) (d : Dict String String)
    → Dict.get k (live_names live d) ≡ (if live k then Dict.get k d else none)
unfolding live_names Dict.get
get-live_names live k [] = ground arith
get-live_names live k ((j, o) ∷ d) = ground (arith, get-live_names live k d)

origin_of-live :
    (live : String → String → Bool) (u k : String) (s : Section)
    → NodupKeys s
    → origin_of u k (live_section live s) ≡ (if live u k then origin_of u k s else default_origin)
unfolding live_section origin_of Dict.get
origin_of-live live u k [] n = ground arith
origin_of-live live u k ((j, d) ∷ s) n = ground (
  arith,
  origin_of-live live u k s n.1,
  get-live_names (live j) k d,
  get-is_empty k (live_names (live j) d),
)

abbrev Filled : Section → Type 0
Filled s = All (λ (e : String × Dict String String). is_empty e.1 ≡ false) s

-- A section names no user twice, and each of its users has a record.
abbrev pub IsSection : Section → Type 0
IsSection s = NodupKeys s × Filled s

set-Filled :
    (user : String) (d : Dict String String) (s : Section)
    → is_empty d ≡ false
    → Filled s
    → Filled (Dict.set user d s)
unfolding Dict.set
set-Filled user d [] f h = (f, tt)
set-Filled user d ((j, e) ∷ s) f h = ground (arith, set-Filled user d s f h.1)

remove-Filled : (user : String) (s : Section) → Filled s → Filled (Dict.remove user s)
unfolding Dict.remove
remove-Filled user [] h = tt
remove-Filled user ((j, e) ∷ s) h = ground (arith, remove-Filled user s h.1)

remove-NodupKeys :
    {V : Type 0} (k : String) (d : Dict String V) → NodupKeys d → NodupKeys (Dict.remove k d)
unfolding Dict.remove Dict.get
remove-NodupKeys k [] h = tt
remove-NodupKeys k ((j, v) ∷ d) h = ground (arith, remove-NodupKeys k d h.1, get-remove j k d)

set-is_empty : (k o : String) (d : Dict String String) → is_empty (Dict.set k o d) ≡ false
unfolding Dict.set
set-is_empty k o [] = refl
set-is_empty k o (x ∷ d) = ground arith

pub remove-IsSection : (user : String) (s : Section) → IsSection s → IsSection (Dict.remove user s)
remove-IsSection user s h = (remove-NodupKeys user s h.0, remove-Filled user s h.1)

pub put_inner-IsSection :
    (user key origin : String) (s : Section) → IsSection s → IsSection (put_inner user key origin s)
unfolding put_inner
put_inner-IsSection user key origin s h = (
  set-NodupKeys user (Dict.set key origin (inner user s)) s h.0,
  set-Filled user (Dict.set key origin (inner user s)) s (set-is_empty key origin (inner user s))
      h.1,
)

pub drop_inner-IsSection :
    (user key : String) (s : Section) → IsSection s → IsSection (drop_inner user key s)
unfolding drop_inner
drop_inner-IsSection user key s h =
    let left : Dict String String = Dict.remove key (inner user s) in
    elim (Bool-cases (Dict.has user s)) [
      | inr e ↦ rw e h
      | inl e ↦ elim (Bool-cases (is_empty left)) [
        | inl f ↦ rw (e, f) (remove-NodupKeys user s h.0, remove-Filled user s h.1)
        | inr f ↦ rw (e, f) (set-NodupKeys user left s h.0, set-Filled user left s f h.1)
      ]
    ]

get-live_section :
    (live : String → String → Bool) (u : String) (s : Section)
    → Dict.get u s ≡ none
    → Dict.get u (live_section live s) ≡ none
unfolding live_section Dict.get
get-live_section live u [] h = refl
get-live_section live u ((j, d) ∷ s) h = ground (arith, get-live_section live u s)

pub live_section-IsSection :
    (live : String → String → Bool) (s : Section) → IsSection s → IsSection (live_section live s)
unfolding live_section
live_section-IsSection live [] h = h
live_section-IsSection live ((j, d) ∷ s) ((n, ns), (f, fs)) =
    ground (arith, live_section-IsSection live s (ns, fs), get-live_section live j s n)

-- On a section with unique users, the operations are those of a map from users and keys to origins
-- in which what is not recorded is `gui`: a write sets one place, a removal puts one place back to
-- `gui`, and pruning puts back exactly the places that are not live.
pub section_refines :
    (user key origin u k : String) (live : String → String → Bool) (s : Section)
    → NodupKeys s
    → (origin_of u k (put_inner user key origin s)
        ≡ (if u == user && k == key then origin else origin_of u k s))
      × (origin_of u k (drop_inner user key s)
          ≡ (if u == user && k == key then default_origin else origin_of u k s))
      × (origin_of u k (live_section live s)
          ≡ (if live u k then origin_of u k s else default_origin))
section_refines user key origin u k live s n = (
  origin_of-put user key u k origin s,
  origin_of-drop user key u k s,
  origin_of-live live u k s n,
)
