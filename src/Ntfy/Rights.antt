-- ===== src/Ntfy/Rights.antt =====
-- ntfy/app/rights.py: the effective rights of a user on a topic.
pub mod Best
use homeassistant_addons.Common.{
  ℕ, zero, suc, ◌+◌, Bool, true, false, not, ◌&&◌, ◌||◌, String, ◌<>◌, List, [], ◌∷◌, Option, none,
  some, ltb, eqb, leb, ◌==◌, string_eq, Result, ok, err, if◌then◌else◌,
}
use homeassistant_addons.Common.Action.{pure, raise, ◌>>=◌, ◌>>◌}
use homeassistant_addons.Common.Sort.{sort}
use homeassistant_addons.Common.Text.{len}
use homeassistant_addons.Ntfy.Contract.{
  api, is_topic, cli_topic_to_db, topic_match, UserRow, AclRow, AclRule, Effective,
}
use homeassistant_addons.Ntfy.Host.{Host, M, query}
use homeassistant_addons.Ntfy.AuthDb
use homeassistant_addons.Ntfy.Origins
use homeassistant_addons.Ntfy.Accounts.Rules.{rule, rules}

-- `DEFAULT_ACCESS.get(access, (False, False))`
unfoldable pub default_access : String → Bool × Bool
default_access access =
    if access == "deny-all"
    then (false, false)
    else if access == "read-only"
    then (true, false)
    else if access == "write-only"
    then (false, true)
    else if access == "read-write"
    then (true, true)
    else (false, false)

-- `row["user"] in (user, "everyone") and topic_match(row["topic"], topic)`
unfoldable pub applies : String → String → AclRow → Bool
applies user topic row = (row.user == user || row.user == "everyone") && topic_match row.topic topic

unfoldable pub matching : String → String → List AclRow → List AclRow
matching user topic [] = []
matching user topic (row ∷ rows) =
    let rest = matching user topic rows in if applies user topic row then row ∷ rest else rest

-- The three parts of the sort key: own rules first, longer patterns first, writing rules first.
unfoldable pub is_foreign : String → AclRow → Bool
is_foreign user row = row.user == "everyone" && not (user == "everyone")

unfoldable pub pattern_len : AclRow → ℕ
pattern_len row = len (cli_topic_to_db row.topic)

-- The last two parts of the keys: `a` is not behind `b`.
unfoldable pub tail_le : AclRow → AclRow → Bool
tail_le a b =
    if eqb (pattern_len a) (pattern_len b)
    then a.write || not b.write
    else ltb (pattern_len b) (pattern_len a)

-- The order of two keys: `key(a) <= key(b)`.
unfoldable pub key_le : String → AclRow → AclRow → Bool
key_le user a b =
    if is_foreign user a then is_foreign user b && tail_le a b else is_foreign user b || tail_le a b

-- `{row["name"]: row for row in rows}[user]`: the last row of a name.
unfoldable pub last_named : String → List UserRow → Option UserRow
last_named user [] = none
last_named user (row ∷ rows) =
    let rest = last_named user rows in
    elim rest [ some found ↦ some found | none ↦ if row.name == user then some row else none ]

unfoldable pub has_admin_role : Option UserRow → Bool
has_admin_role none = false
has_admin_role (some row) = row.role == "admin"

abbrev kind_of : AclRow → String
kind_of row = if row.user == "everyone" then "everyone-rule" else "user-rule"

module _ (H : Host) where
  abbrev admin_rights : String → String → Effective
  admin_rights user topic = record {
    user = user;
    topic = topic;
    read = true;
    write = true;
    source = record { kind = "admin"; rule = none };
    candidates = [];
  }

  abbrev default_rights : String → String → Bool × Bool → Effective
  default_rights user topic access = record {
    user = user;
    topic = topic;
    read = access.0;
    write = access.1;
    source = record { kind = "default"; rule = none };
    candidates = [];
  }

  -- The rights from the sorted rules; `candidates[0]` is the rule of the first row.
  unfoldable pub decide : String → String → String → List AclRow → M H Effective
  decide access user topic [] = pure (default_rights user topic (default_access access))
  decide access user topic (first ∷ rest) = do
    head ← rule H first
    more ← rules H rest
    pure (record {
      user = user;
      topic = topic;
      read = first.read;
      write = first.write;
      source = record { kind = kind_of first; rule = some head };
      candidates = head ∷ more;
    })

  unfoldable pub by_rules : String → String → String → M H Effective
  by_rules access user topic = do
    rows ← query H (AuthDb.list_acl H)
    decide access user topic (sort (key_le user) (matching user topic rows))

  -- The rights of a user whose row is known, or of `everyone`.
  unfoldable pub of_user : String → String → String → Option UserRow → M H Effective
  of_user access user topic row =
      if not (user == "everyone") && has_admin_role row
      then pure (admin_rights user topic)
      else by_rules access user topic

  abbrev missing : Option UserRow → Bool
  missing none = true
  missing (some row) = false

  unfoldable pub effective : String → String → String → M H Effective
  effective access user topic = do
    query H (AuthDb.ensure_supported H)
    if is_topic topic
        then pure tt
        else raise (api "bad_request" "topic must be a concrete topic name without wildcards")
    users ← query H (AuthDb.list_users H)
    if not (user == "everyone") && missing (last_named user users)
        then raise (api "not_found" ("user " <> (user <> " does not exist")))
        else pure tt
    of_user access user topic (last_named user users)
