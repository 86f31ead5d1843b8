-- ===== src/Ntfy/Rights/Best.antt =====
-- The rule that decides is the best one that applies.
use homeassistant_addons.Common.{
  ◌≡◌, sym, not, ◌⊎◌, ◌↔◌, ◌≤◌, refl, Bool, true, false, ◌&&◌, ◌||◌, Option, none, some, ◌∙◌,
  if◌then◌else◌, String, List, [], ◌∷◌, ok, All, arith, inl, inr, Bool-cases, ==_differ, ◌==◌,
  string_eq,
}
use mathlib.Core.Path.{subst}
use homeassistant_addons.Common.Action.{◌>>=◌}
use homeassistant_addons.Common.Sort.{sort, All-sort, sort-IsSorted, IsSorted}
use homeassistant_addons.Common.Text.{len}
use homeassistant_addons.Ntfy.Contract.{cli_topic_to_db, topic_match, AclRow, UserRow, Effective}
use homeassistant_addons.Ntfy.Host.{Host, Ctx}
use homeassistant_addons.Ntfy.AuthDb.{list_acl, list_users}
use homeassistant_addons.Ntfy.Rights.{
  applies, matching, is_foreign, pattern_len, tail_le, key_le, default_access, decide, by_rules,
  last_named, has_admin_role, of_user, effective,
}

-- `x` is one of the rows.
abbrev pub Member : AclRow → List AclRow → Type 0
Member x [] = ⊥
Member x (y ∷ ys) = (x ≡ y) ⊎ Member x ys

-- The rights that an access by default gives, by its name.
abbrev ByName : String → Bool × Bool → Type 0
ByName access rights =
    (rights.0 ≡ (access == "read-only" || access == "read-write"))
    × (rights.1 ≡ (access == "write-only" || access == "read-write"))

named_access :
    ByName "deny-all" (default_access "deny-all")
    × ByName "read-only" (default_access "read-only")
    × ByName "write-only" (default_access "write-only")
    × ByName "read-write" (default_access "read-write")
unfolding default_access string_eq
named_access = ((refl, refl), (refl, refl), (refl, refl), (refl, refl))

other_access :
    (access : String)
    → access == "deny-all" ≡ false
    → access == "read-only" ≡ false
    → access == "write-only" ≡ false
    → access == "read-write" ≡ false
    → ByName access (default_access access)
unfolding default_access
other_access access a b c d = (ground arith, ground arith)

default_access-ByName : (access : String) → ByName access (default_access access)
default_access-ByName access = elim (string_eq.dec access "deny-all") [
  | yes p ↦ rw p (named_access.0)
  | no a ↦ elim (string_eq.dec access "read-only") [
    | yes p ↦ rw p (named_access.1)
    | no b ↦ elim (string_eq.dec access "write-only") [
      | yes p ↦ rw p (named_access.2)
      | no c ↦ elim (string_eq.dec access "read-write") [
        | yes p ↦ rw p (named_access.3)
        | no d ↦
            other_access access (==_differ access "deny-all" a) (==_differ access "read-only" b)
              (==_differ access "write-only" c) (==_differ access "read-write" d)
      ]
    ]
  ]
]

decide-nil :
    (H : Host) (access user topic : String) (c : Ctx H) (e : Effective)
    → (decide H access user topic [] c).0 ≡ ok e
    → (e.read ≡ (access == "read-only" || access == "read-write"))
      × (e.write ≡ (access == "write-only" || access == "read-write"))
unfolding decide
decide-nil H access user topic c e h = ground (arith, default_access-ByName access)

decide-cons :
    (H : Host) (access user topic : String) (first : AclRow) (rest : List AclRow) (c : Ctx H)
    (e : Effective)
    → (decide H access user topic (first ∷ rest) c).0 ≡ ok e
    → (e.read ≡ first.read) × (e.write ≡ first.write)
unfolding decide ◌>>=◌
decide-cons H access user topic first rest c e h = ground arith

module _ (user : String) where
  key_le_total : (a b : AclRow) → (key_le user a b ≡ true) ⊎ (key_le user b a ≡ true)
  unfolding key_le tail_le
  key_le_total a b = elim (Bool-cases (key_le user a b)) [
    | inl e ↦ inl e
    | inr e ↦ inr (ground arith)
  ]

  self_le : (a : AclRow) → key_le user a a ≡ true
  unfolding key_le tail_le
  self_le a = ground arith

  key_le_trans :
      (a b c : AclRow) → key_le user a b ≡ true → key_le user b c ≡ true → key_le user a c ≡ true
  unfolding key_le tail_le
  key_le_trans a b c p q = ground arith

  -- No rule that applies precedes `row`.
  abbrev pub Leads : AclRow → String → List AclRow → Type 0
  Leads row topic rows = All (λ r. applies user topic r ≡ true → key_le user row r ≡ true) rows

  All-matching :
      (P : AclRow → Type 0) (topic : String) (rows : List AclRow)
      → All P (matching user topic rows)
      → All (λ r. applies user topic r ≡ true → P r) rows
  unfolding matching
  All-matching P topic [] h = tt
  All-matching P topic (r ∷ rows) h = elim (Bool-cases (applies user topic r)) [
    | inl e ↦ let (p, h') = rw e at h in (λ _. p, All-matching P topic rows h')
    | inr e ↦ (λ e'. cc, All-matching P topic rows (rw e at h))
  ]

  abbrev Chosen : List AclRow → String → AclRow → Type 0
  Chosen rows topic r = (applies user topic r ≡ true) × Member r rows

  matching-Chosen :
      (whole : List AclRow) (topic : String) (rows : List AclRow)
      → ((r : AclRow) → Member r rows → Member r whole)
      → All (Chosen whole topic) (matching user topic rows)
  unfolding matching
  matching-Chosen whole topic [] into = tt
  matching-Chosen whole topic (r ∷ rows) into =
      let rest = matching-Chosen whole topic rows (λ x m. into x (inr m)) in
      elim (Bool-cases (applies user topic r)) [
        | inl e ↦ rw e ((e, into r (inl refl)), rest)
        | inr e ↦ rw e rest
      ]

  sorted_matches : String → List AclRow → List AclRow
  sorted_matches topic rows = sort (key_le user) (matching user topic rows)

  first-Leads :
      (topic : String) (rows : List AclRow) (first : AclRow) (rest : List AclRow)
      → sorted_matches topic rows ≡ first ∷ rest
      → (applies user topic first ≡ true) × Member first rows × Leads first topic rows
  unfolding sorted_matches
  first-Leads topic rows first rest e =
      let chosen = subst (All (Chosen rows topic)) e (
        (All-sort (key_le user) (Chosen rows topic) (matching user topic rows)).1
          (matching-Chosen rows topic rows (λ r m. m))) in
      let sorted =
        subst (IsSorted (key_le user) key_le_total key_le_trans) e
          (sort-IsSorted (key_le user) key_le_total key_le_trans (matching user topic rows)) in
      let behind =
        subst (All (λ r. key_le user first r ≡ true)) (sym e) (self_le first, sorted.0) in
      (
        chosen.0.0,
        chosen.0.1,
        All-matching (λ r. key_le user first r ≡ true) topic rows
            ((All-sort (key_le user) (λ r. key_le user first r ≡ true) (matching user topic rows)).0
              behind),
      )

  none_applies :
      (topic : String) (rows : List AclRow)
      → sorted_matches topic rows ≡ []
      → All (λ r. applies user topic r ≡ true → ⊥) rows
  unfolding sorted_matches
  none_applies topic rows e =
      All-matching (λ r. ⊥) topic rows
        ((All-sort (key_le user) (λ r. ⊥) (matching user topic rows)).0
          (subst (All (λ r. ⊥)) (sym e) tt))

  -- A rule of the user, or of everyone, that matches the topic.
  abbrev pub Fits : String → AclRow → Type 0
  Fits topic r = ((r.user ≡ user) ⊎ (r.user ≡ "everyone")) × (topic_match r.topic topic ≡ true)

  -- `r` does not come before `row`: rules of the user come first, among the rules of one owner those with
  -- the longer stored pattern, and among these the ones that let write.
  abbrev pub NotBefore : AclRow → AclRow → Type 0
  NotBefore row r =
      (r.user ≡ user → row.user ≡ user)
      × (r.user ≡ row.user → len (cli_topic_to_db r.topic) ≤ len (cli_topic_to_db row.topic))
      × (r.user ≡ row.user
          → len (cli_topic_to_db r.topic) ≡ len (cli_topic_to_db row.topic)
          → r.write ≡ true
          → row.write ≡ true)

  applies-Fits : (topic : String) (r : AclRow) → (applies user topic r ≡ true) ↔ Fits topic r
  unfolding applies
  applies-Fits topic r = (λ h. ground arith, λ h. ground arith)

  key_le-NotBefore :
      (topic : String) (row r : AclRow)
      → applies user topic row ≡ true
      → applies user topic r ≡ true
      → key_le user row r ≡ true
      → NotBefore row r
  unfolding applies key_le tail_le is_foreign pattern_len
  key_le-NotBefore topic row r a b h = (λ e. ground arith, λ e. ground arith, λ e l w. ground arith)

  abbrev pub NoneBefore : String → List AclRow → AclRow → Type 0
  NoneBefore topic rows row = All (λ r. Fits topic r → NotBefore row r) rows

  Leads-NoneBefore :
      (topic : String) (row : AclRow) (rows : List AclRow)
      → applies user topic row ≡ true
      → Leads row topic rows
      → NoneBefore topic rows row
  Leads-NoneBefore topic row [] a l = tt
  Leads-NoneBefore topic row (r ∷ rows) a (h, l) = (
    λ fit. let b = (applies-Fits topic r).1 fit in key_le-NotBefore topic row r a b (h b),
    Leads-NoneBefore topic row rows a l,
  )

  no-Fits :
      (topic : String) (rows : List AclRow)
      → All (λ r. applies user topic r ≡ true → ⊥) rows
      → All (λ r. ¬ (Fits topic r)) rows
  no-Fits topic [] h = tt
  no-Fits topic (r ∷ rows) (n, h) = (λ fit. n ((applies-Fits topic r).1 fit), no-Fits topic rows h)

  -- What the rights of a user on a topic are, from the rules that are there.
  abbrev pub Decided : String → String → List AclRow → Effective → Type 0
  Decided access topic rows e =
      (All (λ r. ¬ (Fits topic r)) rows
        × (e.read ≡ (access == "read-only" || access == "read-write"))
        × (e.write ≡ (access == "write-only" || access == "read-write")))
      ⊎ ((row : AclRow) × Fits topic row
          × Member row rows
          × NoneBefore topic rows row
          × (e.read ≡ row.read)
          × (e.write ≡ row.write))

  decided :
      (H : Host) (access topic : String) (c : Ctx H) (rows sorted : List AclRow) (e : Effective)
      → sorted_matches topic rows ≡ sorted
      → (decide H access user topic sorted c).0 ≡ ok e
      → Decided access topic rows e
  decided H access topic c rows [] e s h =
      let (p, q) = decide-nil H access user topic c e h in
      inl (no-Fits topic rows (none_applies topic rows s), p, q)
  decided H access topic c rows (first ∷ rest) e s h =
      let (a, m, l) = first-Leads topic rows first rest s in
      let (p, q) = decide-cons H access user topic first rest c e h in
      inr (first, (applies-Fits topic first).0 a, m, Leads-NoneBefore topic first rows a l, p, q)

  pub by_rules-Decided :
      (H : Host) (access topic : String) (c : Ctx H) (rows : List AclRow) (e : Effective)
      → list_acl H c.env ≡ ok rows
      → (by_rules H access user topic c).0 ≡ ok e
      → Decided access topic rows e
  unfolding by_rules ◌>>=◌ sorted_matches
  by_rules-Decided H access topic c rows e read h =
      decided H access topic c rows _ e refl (rw read at h)

  effective-of_user :
      (H : Host) (access topic : String) (c : Ctx H) (users : List UserRow) (e : Effective)
      → list_users H c.env ≡ ok users
      → (effective H access user topic c).0 ≡ ok e
      → (of_user H access user topic (last_named user users) c).0 ≡ ok e
  unfolding effective ◌>>=◌
  effective-of_user H access topic c users e u h = ground arith

  -- The row of that name, the last one if there are several.
  abbrev pub row_of : List UserRow → Option UserRow → Option UserRow
  row_of [] found = found
  row_of (row ∷ rows) found = row_of rows (if row.name == user then some row else found)

  abbrev or_else : Option UserRow → Option UserRow → Option UserRow
  or_else none found = found
  or_else (some row) found = some row

  row_of_lem :
      (rows : List UserRow) (found : Option UserRow)
      → row_of rows found ≡ or_else (last_named user rows) found
  unfolding last_named
  row_of_lem [] found = refl
  row_of_lem (row ∷ rows) found = ground (arith, row_of_lem rows found, row_of_lem rows (some row))

  abbrev pub is_admin_row : Option UserRow → Bool
  is_admin_row none = false
  is_admin_row (some row) = row.role == "admin"

  abbrev pub is_admin : List UserRow → Bool
  is_admin users = not (user == "everyone") && is_admin_row (row_of users none)

  has_admin_role_lem : (row : Option UserRow) → has_admin_role row ≡ is_admin_row row
  unfolding has_admin_role
  has_admin_role_lem none = refl
  has_admin_role_lem (some row) = refl

  or_else-none : (found : Option UserRow) → or_else found none ≡ found
  or_else-none none = refl
  or_else-none (some row) = refl

  is_admin_lem :
      (users : List UserRow)
      → (not (user == "everyone") && has_admin_role (last_named user users)) ≡ is_admin users
  is_admin_lem users =
      rw
        (
          row_of_lem users none,
          or_else-none (last_named user users),
          has_admin_role_lem (last_named user users),
        )
        refl

  -- Both rights for an admin, and otherwise what the rules say.
  abbrev pub Right : Bool → String → String → List AclRow → Effective → Type 0
  Right true access topic rows e = (e.read ≡ true) × (e.write ≡ true)
  Right false access topic rows e = Decided access topic rows e

  -- The rights that are returned: both for a user other than everyone whose row, the last of that name,
  -- has the role `admin`, and for any other user, and for everyone, those of the rules. Of the rules of
  -- the user and of everyone that match the topic, one decides that no other comes before, where rules of
  -- the user come first, among the rules of one owner those with the longer stored pattern, and among
  -- these the ones that let write. If none matches, reading is right for the default accesses
  -- `read-only` and `read-write`, and writing for `write-only` and `read-write`.
  pub effective-Decided :
      (H : Host) (access topic : String) (c : Ctx H) (users : List UserRow) (rows : List AclRow)
      (e : Effective)
      → list_users H c.env ≡ ok users
      → list_acl H c.env ≡ ok rows
      → (effective H access user topic c).0 ≡ ok e
      → Right (is_admin users) access topic rows e
  unfolding of_user
  effective-Decided H access topic c users rows e u r h =
      let h' = effective-of_user H access topic c users e u h in
      elim (Bool-cases (is_admin users)) [
        | inl a ↦ rw a (ground (arith, is_admin_lem users ∙ a))
        | inr n ↦
            rw n (by_rules-Decided H access topic c rows e r (rw (is_admin_lem users ∙ n) at h'))
      ]
