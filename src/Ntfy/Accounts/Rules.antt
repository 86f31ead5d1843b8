-- ===== src/Ntfy/Accounts/Rules.antt =====
-- ntfy/app/accounts.py: rules.
use homeassistant_addons.Common.{
  Bool, not, ◌&&◌, String, List, [], ◌∷◌, Option, none, some, is_some, contains, ◌==◌, string_eq,
  if◌then◌else◌,
}
use homeassistant_addons.Common.Action.{pure, raise, ◌>>=◌, ◌>>◌}
use homeassistant_addons.Common.Text.{includes}
use homeassistant_addons.Ntfy.Contract.{
  api, is_topic_pattern, permissions, UserRow, AclRow, AclRule,
}
use homeassistant_addons.Ntfy.Host.{Host, M, query}
use homeassistant_addons.Ntfy.AuthDb
use homeassistant_addons.Ntfy.Cli
use homeassistant_addons.Ntfy.Origins
use homeassistant_addons.Ntfy.Accounts.{bad_request, require, supported}

unfoldable pub is_rule_topic : String → Bool
is_rule_topic topic = not (includes "%" topic) && is_topic_pattern topic

-- The two comprehensions of `list_rules`.
unfoldable pub keep_user : Option String → List AclRow → List AclRow
keep_user none rows = rows
keep_user (some user) [] = []
keep_user (some user) (row ∷ rows) =
    let rest = keep_user (some user) rows in if row.user == user then row ∷ rest else rest

unfoldable pub keep_topic : Option String → List AclRow → List AclRow
keep_topic none rows = rows
keep_topic (some topic) [] = []
keep_topic (some topic) (row ∷ rows) =
    let rest = keep_topic (some topic) rows in if row.topic == topic then row ∷ rest else rest

unfoldable pub find_row : String → String → List AclRow → Option AclRow
find_row user topic [] = none
find_row user topic (row ∷ rows) =
    if row.user == user && row.topic == topic then some row else find_row user topic rows

-- `next((row["role"] for row in rows if row["name"] == user), "user")`
unfoldable pub role_of : String → List UserRow → String
role_of user [] = "user"
role_of user (row ∷ rows) = if row.name == user then row.role else role_of user rows

-- The origin of a rule that is set: a rule of `iac` stays one.
unfoldable pub next_origin : Option AclRow → String → String
next_origin existing origin = if is_some existing && origin == "iac" then "iac" else "gui"

module _ (H : Host) where
  unfoldable pub rule : AclRow → M H AclRule
  rule row = do
    origin ← Origins.get_acl H row.user row.topic
    pure (record {
      user = row.user;
      topic = row.topic;
      permission = row.permission;
      origin = origin;
    })

  unfoldable pub rules : List AclRow → M H (List AclRule)
  rules [] = pure []
  rules (row ∷ rows) = do r ← rule row; rs ← rules rows; pure (r ∷ rs)

  unfoldable pub list_rules : Option String → Option String → M H (List AclRule)
  list_rules user topic = do
    supported H
    rows ← query H (AuthDb.list_acl H)
    rules (keep_topic topic (keep_user user rows))

  unfoldable pub find_rule : String → String → M H (Option AclRow)
  find_rule user topic = do rows ← query H (AuthDb.list_acl H); pure (find_row user topic rows)

  -- The checks of a user that is not anonymous.
  unfoldable pub check_rule_user : String → M H (Unit {0})
  check_rule_user user = do
    known ← query H (AuthDb.has_user H user)
    if known then pure tt else raise (api "not_found" "user not found")
    rows ← query H (AuthDb.list_users H)
    if role_of user rows == "admin"
        then raise (bad_request "admin users have access to all topics; rules are not allowed")
        else pure tt

  abbrev stored_row : Option AclRow → M H AclRow
  stored_row (some row) = pure row
  stored_row none = raise (api "ntfy_error" "rule was not stored")

  -- What follows the checks: the origin is read only for a rule that exists.
  unfoldable pub store_rule : String → String → String → M H AclRule
  store_rule user topic permission = do
    existing ← find_rule user topic
    origin ← if is_some existing then Origins.get_acl H user topic else pure "gui"
    Cli.access_set H user topic permission
    found ← find_rule user topic
    stored ← stored_row found
    Origins.set_acl H user topic (next_origin existing origin)
    rule stored

  unfoldable pub set_rule : String → String → String → M H AclRule
  set_rule user topic permission = do
    supported H
    require H (contains permissions permission) "permission must be one of rw, ro, wo, deny"
    require H (is_rule_topic topic) "invalid topic pattern"
    if user == "everyone" then pure tt else check_rule_user user
    store_rule user topic permission

  unfoldable pub remove_rule : String → String → M H (Unit {0})
  remove_rule user topic = do
    supported H
    require H (is_rule_topic topic) "invalid topic pattern"
    existing ← find_rule user topic
    if is_some existing then pure tt else raise (api "not_found" "rule not found")
    Cli.access_reset H (some user) (some topic)
    Origins.drop_acl H user topic
