-- ===== src/Ntfy/Accounts.antt =====
-- ntfy/app/accounts.py: users. Arguments are texts, so the tests of their types are true, and every
-- service runs under the lock of the context.
pub mod Rules
pub mod Refused
pub mod LastAdmin
pub mod Restored
use Prim.Native.String as Native
use homeassistant_addons.Common.{
  ℕ, zero, suc, ◌+◌, Bool, true, false, not, ◌&&◌, ◌||◌, String, ◌<>◌, List, [], ◌∷◌, ◌++◌, Option,
  none, some, or_default, is_empty, is_some, contains, ◌==◌, string_eq, ltb, length, Result, ok,
  err, if◌then◌else◌,
}
use homeassistant_addons.Common.Action.{pure, raise, catch, ◌>>=◌, ◌>>◌}
use homeassistant_addons.Common.Dict
use homeassistant_addons.Common.Dict.{Dict}
use homeassistant_addons.Common.Sort.{sort, str_le}
use homeassistant_addons.Ntfy.Contract.{
  Fault, api, is_username, is_topic_pattern, reserved_usernames, UserRow, AclRow, TokenRow, User,
}
use homeassistant_addons.Ntfy.Host.{Host, StashRule, M, query, call_raising}
use homeassistant_addons.Ntfy.AuthDb
use homeassistant_addons.Ntfy.Cli
use homeassistant_addons.Ntfy.Origins

abbrev pub max_password_bytes : ℕ
max_password_bytes = 72

abbrev pub bad_request : String → Fault
bad_request message = api "bad_request" message

-- The names of the rows with the role `admin`.
unfoldable pub admins_of : List UserRow → List String
admins_of [] = []
admins_of (row ∷ rows) =
    let rest = admins_of rows in if row.role == "admin" then row.name ∷ rest else rest

-- `admins == [name]`
abbrev is_only : List String → String → Bool
is_only (a ∷ []) name = a == name
is_only _ name = false

-- Why a row's user is protected, if it is.
unfoldable pub reason_for : String → List String → UserRow → Option String
reason_for admin_user admins row =
    if row.name == "everyone"
    then some "anonymous"
    else if row.name == admin_user
    then some "options_admin"
    else if row.role == "admin" && is_only admins row.name
    then some "last_admin"
    else none

abbrev note_reason : String → Option String → Dict String String → Dict String String
note_reason name none result = result
note_reason name (some reason) result = Dict.set name reason result

-- The loop of `_protection`.
unfoldable pub protection_loop :
    String → List String → List UserRow → Dict String String → Dict String String
protection_loop admin_user admins [] result = result
protection_loop admin_user admins (row ∷ rows) result =
    protection_loop admin_user admins rows
      (note_reason row.name (reason_for admin_user admins row) result)

unfoldable pub protection : String → List UserRow → Dict String String
protection admin_user rows = protection_loop admin_user (admins_of rows) rows []

-- `acl_counts` and `token_counts`: a dict of counters.
unfoldable pub count_names : List String → Dict String ℕ → Dict String ℕ
count_names [] counts = counts
count_names (name ∷ names) counts =
    count_names names (Dict.set name (or_default (Dict.get name counts) 0 + 1) counts)

unfoldable pub acl_users : List AclRow → List String
acl_users [] = []
acl_users (row ∷ rows) = row.user ∷ acl_users rows

unfoldable pub token_users : List TokenRow → List String
token_users [] = []
token_users (row ∷ rows) = row.user ∷ token_users rows

-- The order of `(name == "everyone", name)`.
abbrev user_le : User → User → Bool
user_le a b =
    if a.name == "everyone"
    then if b.name == "everyone" then str_le a.name b.name else false
    else if b.name == "everyone"
    then true
    else str_le a.name b.name

unfoldable pub find_user : String → List User → Option User
find_user name [] = none
find_user name (u ∷ us) = if u.name == name then some u else find_user name us

abbrev reason_text : Option String → String
reason_text none = "None"
reason_text (some reason) = reason

unfoldable pub is_new_name : String → Bool
is_new_name name = not (contains reserved_usernames name) && is_username name

-- The rows of a snapshot, as rules with their origins.
abbrev stash_rule : AclRow → String → StashRule
stash_rule row origin = record { topic = row.topic; permission = row.permission; origin = origin }

module _ (H : Host) where
  -- `raise ApiError("bad_request", message)` unless the test holds.
  abbrev pub require : Bool → String → M H (Unit {0})
  require test message = if test then pure tt else raise (bad_request message)

  abbrev pub supported : M H (Unit {0})
  supported = query H (AuthDb.ensure_supported H)

  unfoldable pub check_password : String → M H (Unit {0})
  check_password password = do
    require (not (password == "")) "password must not be empty"
    require (not (ltb max_password_bytes (Native.len password))) "password must be at most 72 bytes"

  abbrev pub check_role : String → M H (Unit {0})
  check_role role = require (contains ("user" ∷ "admin" ∷ []) role) "role must be user or admin"

  abbrev pub check_new_name : String → M H (Unit {0})
  check_new_name name = require (is_new_name name) "invalid user name"

  -- The loop over the rows.
  unfoldable pub build_rows :
      Dict String String → Dict String ℕ → Dict String ℕ → List UserRow → M H (List User)
  build_rows reasons acls tokens [] = pure []
  build_rows reasons acls tokens (row ∷ rows) = do
    origin ← Origins.get_user H row.name
    users ← build_rows reasons acls tokens rows
    pure (
        record {
          name = row.name;
          role = row.role;
          tier = row.tier;
          origin = origin;
          provisioned = row.provisioned;
          protected = is_some (Dict.get row.name reasons);
          protected_reason = Dict.get row.name reasons;
          acl_count = or_default (Dict.get row.name acls) 0;
          token_count = or_default (Dict.get row.name tokens) 0;
        }
        ∷ users)

  module _ (admin_user : String) where
    unfoldable pub build_users : M H (List User)
    build_users = do
      rows ← query H (AuthDb.list_users H)
      acls ← query H (AuthDb.list_acl H)
      tokens ← query H (AuthDb.list_tokens H none)
      users ←
          build_rows (protection admin_user rows) (count_names (acl_users acls) [])
            (count_names (token_users tokens) []) rows
      pure (sort user_le users)

    abbrev found : Option User → M H User
    found (some user) = pure user
    found none = raise (api "not_found" "user not found")

    unfoldable pub get_user : String → M H User
    get_user name = do users ← build_users; found (find_user name users)

    unfoldable pub require_real_user : String → M H (Unit {0})
    require_real_user name = do
      require (not (name == "everyone")) "not allowed for the anonymous user everyone"
      known ← query H (AuthDb.has_user H name)
      if known then pure tt else raise (api "not_found" "user not found")

    unfoldable pub list_users : M H (List User)
    list_users = do supported; build_users

    unfoldable pub create_user : String → String → String → M H User
    create_user name password role = do
      supported
      check_new_name name
      check_role role
      check_password password
      known ← query H (AuthDb.has_user H name)
      if known then raise (api "conflict" "user already exists") else pure tt
      Cli.user_add H name password role
      Origins.set_user H name "gui"
      get_user name

    unfoldable pub change_password : String → String → M H (Unit {0})
    change_password name password = do
      supported
      require_real_user name
      check_password password
      Cli.user_change_pass H name password

    -- `raise ApiError("protected", ...)` for a protected user
    abbrev pub refuse_protected : User → M H (Unit {0})
    refuse_protected user =
        if user.protected
        then raise
            (api "protected" ("user is protected (" <> (reason_text user.protected_reason <> ")")))
        else pure tt

    -- What follows the checks of a deletion.
    unfoldable pub erase_user : String → M H (Unit {0})
    erase_user name = do
      _ ← call_raising H (H.backup "user-delete")
      Cli.user_delete H name
      Origins.drop_user H name

    unfoldable pub delete_user : String → String → M H (Unit {0})
    delete_user name confirm = do
      supported
      require_real_user name
      user ← get_user name
      refuse_protected user
      if confirm == name
          then pure tt
          else raise (api "confirmation_required" "type the user name to confirm the deletion")
      erase_user name

    -- The list comprehension over the snapshot.
    unfoldable pub stash_rules : String → List AclRow → M H (List StashRule)
    stash_rules name [] = pure []
    stash_rules name (row ∷ rows) = do
      origin ← Origins.get_acl H name row.topic
      rules ← stash_rules name rows
      pure (stash_rule row origin ∷ rules)

    unfoldable pub drop_acls : String → List AclRow → M H (Unit {0})
    drop_acls name [] = pure tt
    drop_acls name (row ∷ rows) = do Origins.drop_acl H name row.topic; drop_acls name rows

    unfoldable pub set_aside : String → List AclRow → M H (Unit {0})
    set_aside name snapshot = do
      rules ← stash_rules name snapshot
      Origins.stash_acl H name rules
      drop_acls name snapshot

    unfoldable pub promote : String → M H (User × ℕ)
    promote name = do
      snapshot ← query H (AuthDb.snapshot_acl H name)
      if is_empty snapshot
          then pure tt
          else (do _ ← call_raising H (H.backup "role-change"); pure tt)
      Cli.user_change_role H name "admin"
      if is_empty snapshot then pure tt else set_aside name snapshot
      user ← get_user name
      pure (user, length snapshot)

    -- `except Exception`: what is not restored yet goes back, and the exception goes on.
    unfoldable pub keep_rest : String → List StashRule → Fault → M H (Unit {0})
    keep_rest name rest fault = do Origins.stash_acl H name rest; raise fault

    -- The loop of `_demote`.
    unfoldable pub restore : String → List StashRule → M H (Unit {0})
    restore name [] = pure tt
    restore name (rule ∷ rules) = do
      catch (Cli.access_set H name rule.topic rule.permission) (keep_rest name (rule ∷ rules))
      Origins.set_acl H name rule.topic rule.origin
      restore name rules

    unfoldable pub demote : String → M H (User × ℕ)
    demote name = do
      Cli.user_change_role H name "user"
      pending ← Origins.pop_acl_stash H name
      restore name pending
      user ← get_user name
      pure (user, 0)

    unfoldable pub change_role : String → String → M H (User × ℕ)
    change_role name role = do
      supported
      check_role role
      require_real_user name
      user ← get_user name
      if user.role == role then pure (user, 0) else (do
        if role == "user" then refuse_protected user else pure tt
        if role == "admin" then promote name else demote name)
