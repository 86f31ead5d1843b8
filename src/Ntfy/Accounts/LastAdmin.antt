-- ===== src/Ntfy/Accounts/LastAdmin.antt =====
-- Deleting or demoting a user that is not protected leaves an admin.
use homeassistant_addons.Common.{
  ◌≡◌, refl, sym, true, false, String, List, [], ◌∷◌, Option, none, some, is_empty, is_some,
  contains, ◌==◌, string_eq, Bool-cases, inl, inr, arith, if◌then◌else◌,
}
use homeassistant_addons.Common.Dict
use homeassistant_addons.Common.Dict.{Dict, get-set}
use homeassistant_addons.Ntfy.Contract.{UserRow}
use homeassistant_addons.Ntfy.Accounts.{
  admins_of, is_only, reason_for, note_reason, protection_loop, protection,
}

-- The rows after the deletion of a user, and after its demotion.
unfoldable pub deleted : String → List UserRow → List UserRow
deleted name [] = []
deleted name (row ∷ rows) =
    let rest = deleted name rows in if row.name == name then rest else row ∷ rest

unfoldable pub demoted : String → List UserRow → List UserRow
demoted name [] = []
demoted name (row ∷ rows) =
    let rest = demoted name rows in
    if row.name == name then record row { role = "user" } ∷ rest else row ∷ rest

role_differs : ◌==◌ {A = String} "user" "admin" ≡ false
unfolding string_eq
role_differs = refl

-- The names without one.
unfoldable others : String → List String → List String
others name [] = []
others name (x ∷ xs) = let rest = others name xs in if x == name then rest else x ∷ rest

unfoldable pub names_of : List UserRow → List String
names_of [] = []
names_of (row ∷ rows) = row.name ∷ names_of rows

-- No text occurs twice.
abbrev pub Distinct : List String → Type 0
Distinct [] = Unit
Distinct (x ∷ xs) = (contains xs x ≡ false) × Distinct xs

admins_of-deleted :
    (name : String) (rows : List UserRow)
    → admins_of (deleted name rows) ≡ others name (admins_of rows)
unfolding admins_of deleted others
admins_of-deleted name [] = refl
admins_of-deleted name (row ∷ rows) = ground (arith, admins_of-deleted name rows)

admins_of-demoted :
    (name : String) (rows : List UserRow)
    → admins_of (demoted name rows) ≡ others name (admins_of rows)
unfolding admins_of demoted others
admins_of-demoted name [] = refl
admins_of-demoted name (row ∷ rows) = ground (arith, admins_of-demoted name rows, role_differs)

contains-admins_of :
    (x : String) (rows : List UserRow)
    → contains (names_of rows) x ≡ false
    → contains (admins_of rows) x ≡ false
unfolding admins_of names_of
contains-admins_of x [] h = refl
contains-admins_of x (row ∷ rows) h = ground (arith, contains-admins_of x rows)

admins_of-Distinct : (rows : List UserRow) → Distinct (names_of rows) → Distinct (admins_of rows)
unfolding admins_of names_of
admins_of-Distinct [] d = tt
admins_of-Distinct (row ∷ rows) (f, d) =
    ground (arith, admins_of-Distinct rows d, contains-admins_of row.name rows f)

-- A list with no other name than `name` has just that name.
others-is_only :
    (name : String) (xs : List String)
    → Distinct xs
    → is_empty xs ≡ false
    → is_empty (others name xs) ≡ true
    → (is_only xs name ≡ true) × (contains xs name ≡ true)
unfolding others
others-is_only name [] d n e = ground arith
others-is_only name (x ∷ []) d n e = ground arith
others-is_only name (x ∷ y ∷ xs) d n e = ground arith

note-keeps :
    (name key : String) (reason : Option String) (result : Dict String String)
    → is_some (Dict.get name result) ≡ true
    → is_some (Dict.get name (note_reason key reason result)) ≡ true
note-keeps name key none result h = h
note-keeps name key (some reason) result h = ground (arith, get-set name key reason result)

note-hits :
    (name : String) (reason : Option String) (result : Dict String String)
    → is_some reason ≡ true
    → is_some (Dict.get name (note_reason name reason result)) ≡ true
note-hits name none result h = ground arith
note-hits name (some reason) result h = ground (arith, get-set name name reason result)

reason-hits :
    (admin_user : String) (admins : List String) (row : UserRow)
    → row.role ≡ "admin"
    → is_only admins row.name ≡ true
    → is_some (reason_for admin_user admins row) ≡ true
unfolding reason_for
reason-hits admin_user admins row r o = ground arith

module _ (admin_user name : String) (admins : List String) where
  loop-keeps :
      (rows : List UserRow) (result : Dict String String)
      → is_some (Dict.get name result) ≡ true
      → is_some (Dict.get name (protection_loop admin_user admins rows result)) ≡ true
  unfolding protection_loop
  loop-keeps [] result h = h
  loop-keeps (row ∷ rows) result h =
      loop-keeps rows _ (note-keeps name row.name (reason_for admin_user admins row) result h)

  loop-hits :
      (rows : List UserRow) (result : Dict String String)
      → is_only admins name ≡ true
      → contains (admins_of rows) name ≡ true
      → is_some (Dict.get name (protection_loop admin_user admins rows result)) ≡ true
  unfolding protection_loop admins_of
  loop-hits [] result o h = ground arith
  loop-hits (row ∷ rows) result o h =
      let noted : Dict String String =
        note_reason row.name (reason_for admin_user admins row) result in
      elim (string_eq.dec row.name name) [
        | no n ↦ loop-hits rows noted o (ground arith)
        | yes p ↦ elim (string_eq.dec row.role "admin") [
          | no n ↦ loop-hits rows noted o (ground arith)
          | yes r ↦ loop-keeps rows noted (
              rw (sym p) (
                note-hits row.name (reason_for admin_user admins row) result
                  (reason-hits admin_user admins row r (rw p o))))
        ]
      ]

-- Where users have different names and one is an admin, the rows still have an admin after the deletion
-- of a user that is not protected, and after its demotion.
pub protection_leaves_admin :
    (admin_user name : String) (rows : List UserRow)
    → Distinct (names_of rows)
    → is_empty (admins_of rows) ≡ false
    → Dict.get name (protection admin_user rows) ≡ none
    → (is_empty (admins_of (deleted name rows)) ≡ false)
      × (is_empty (admins_of (demoted name rows)) ≡ false)
unfolding protection
protection_leaves_admin admin_user name rows d n p =
    elim (Bool-cases (is_empty (others name (admins_of rows)))) [
      | inr f ↦ (rw (admins_of-deleted name rows) f, rw (admins_of-demoted name rows) f)
      | inl e ↦
          let only = others-is_only name (admins_of rows) (admins_of-Distinct rows d) n e in
          let hit = loop-hits admin_user name (admins_of rows) rows [] only.0 only.1 in
          ground (arith, hit, p)
    ]
