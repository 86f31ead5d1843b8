-- ===== src/Ntfy/AuthDb.antt =====
-- ntfy/app/authdb.py: reads of auth.db.
use homeassistant_addons.Common.{
  ℕ, Bool, true, false, ◌||◌, String, ◌<>◌, List, [], ◌∷◌, Option, none, some, eqb, ◌==◌, string_eq,
  Result, ok, err, ◌>>=◌, if◌then◌else◌,
}
use homeassistant_addons.Common.Sort.{sort, str_le}
use homeassistant_addons.Common.Text.{includes_lower, decimal}
use homeassistant_addons.Ntfy.Contract.{
  Fault, api, db_user_to_api, db_topic_to_cli, perm_from_flags, token_prefix, UserRow, AclRow,
  TokenRow,
}
use homeassistant_addons.Ntfy.Host.{Host, SqlError, operational, sql_error, DbUser, DbAcl, DbToken}

pub record SchemaStatus : Type 0 where
  pub version : Option ℕ
  pub supported : Bool
  pub error : Option String

-- The exception of `_query` for one of sqlite.
unfoldable pub sql_fault : SqlError → Fault
sql_fault (operational text) =
    api
      (if includes_lower "locked" text || includes_lower "busy" text
        then "locked"
        else "db_unavailable")
      "auth database cannot be read"
sql_fault sql_error = api "db_unavailable" "auth database cannot be read"

unfoldable pub row_or_fault : {A : Type 0} → Result SqlError A → Result Fault A
row_or_fault (ok rows) = ok rows
row_or_fault (err e) = err (sql_fault e)

-- `version in SUPPORTED_AUTH_SCHEMAS`
abbrev pub is_supported : ℕ → Bool
is_supported version = eqb version 10 || eqb version 11

abbrev unsupported_status : Option ℕ → String → SchemaStatus
unsupported_status version error = record {
  version = version;
  supported = false;
  error = some error;
}

abbrev version_status : ℕ → SchemaStatus
version_status version = record {
  version = some version;
  supported = is_supported version;
  error = if is_supported version then none else some "db_unsupported";
}

-- The status after the query.
unfoldable pub schema_status : Result Fault (List ℕ) → SchemaStatus
schema_status (ok []) = unsupported_status none "db_unsupported"
schema_status (ok (version ∷ rows)) = version_status version
schema_status (err (api code message)) =
    unsupported_status none (if code == "db_unavailable" then "db_unsupported" else code)
schema_status (err e) = unsupported_status none "db_unsupported"

abbrev version_text : Option ℕ → String
version_text none = "None"
version_text (some n) = decimal n

unfoldable pub refuse_schema : SchemaStatus → Result Fault (Unit {0})
refuse_schema s = elim s.error [
  | none ↦ ok tt
  | some error ↦
      if error == "db_unavailable"
      then err (api "db_unavailable" "auth database is not available")
      else if error == "locked"
      then err (api "locked" "auth database is locked")
      else err (
          api "db_unsupported"
            ("auth schema version " <> (version_text s.version <> " is not supported")))
]

abbrev user_of : DbUser → UserRow
user_of row = record {
  name = db_user_to_api row.name;
  role = row.role;
  tier = row.tier;
  provisioned = row.provisioned;
}

unfoldable pub acl_of : DbAcl → AclRow
acl_of row = record {
  user = db_user_to_api row.user;
  topic = db_topic_to_cli row.topic;
  permission = perm_from_flags row.read row.write;
  read = row.read;
  write = row.write;
  provisioned = row.provisioned;
}

-- The order of `(user, topic)`.
abbrev acl_le : AclRow → AclRow → Bool
acl_le a b = if a.user == b.user then str_le a.topic b.topic else str_le a.user b.user

-- `_db_user`
unfoldable pub db_user : String → String
db_user name = if name == "everyone" || name == "*" then "*" else name

-- `WHERE u.user = ?`, if a user is given
abbrev of_user : Option String → String → Bool
of_user none name = true
of_user (some user) name = name == db_user user

unfoldable pub acls_of : Option String → List DbAcl → List AclRow
acls_of user [] = []
acls_of user (row ∷ rows) =
    let rest = acls_of user rows in if of_user user row.user then acl_of row ∷ rest else rest

unfoldable pub users_of : List DbUser → List UserRow
users_of [] = []
users_of (row ∷ rows) = user_of row ∷ users_of rows

unfoldable pub tokens_where : Option String → List DbToken → List DbToken
tokens_where user [] = []
tokens_where user (row ∷ rows) =
    let rest = tokens_where user rows in if of_user user row.user then row ∷ rest else rest

-- The token of a `(user, id)` pair.
unfoldable pub find_token : (String → String) → String → List DbToken → Option String
find_token digest id [] = none
find_token digest id (row ∷ rows) =
    if digest row.token == id then some row.token else find_token digest id rows

unfoldable pub any_named : String → List DbUser → Bool
any_named name [] = false
any_named name (row ∷ rows) = row.name == name || any_named name rows

module _ (H : Host) where
  -- `_query`
  unfoldable pub run_query : {A : Type 0} → (H.Env → Result SqlError A) → H.Env → Result Fault A
  run_query rows e =
      if H.is_file e
      then row_or_fault (rows e)
      else err (api "db_unavailable" "auth database does not exist yet")

  unfoldable pub check_schema : H.Env → SchemaStatus
  check_schema e =
      if H.is_file e
      then schema_status (run_query H.schema_rows e)
      else unsupported_status none "db_unavailable"

  unfoldable pub ensure_supported : H.Env → Result Fault (Unit {0})
  ensure_supported e = refuse_schema (check_schema e)

  unfoldable pub list_users : H.Env → Result Fault (List UserRow)
  list_users e = do _ ← ensure_supported e; rows ← run_query H.user_rows e; ok (users_of rows)

  unfoldable pub acl : Option String → H.Env → Result Fault (List AclRow)
  acl user e = do
    _ ← ensure_supported e
    rows ← run_query H.acl_rows e
    ok (sort acl_le (acls_of user rows))

  unfoldable pub list_acl : H.Env → Result Fault (List AclRow)
  list_acl e = acl none e

  unfoldable pub snapshot_acl : String → H.Env → Result Fault (List AclRow)
  snapshot_acl user e = acl (some user) e

  unfoldable pub token_rows : Option String → H.Env → Result Fault (List DbToken)
  token_rows user e = do
    _ ← ensure_supported e
    rows ← run_query H.token_rows e
    ok (tokens_where user rows)

  unfoldable pub tokens_of : List DbToken → List TokenRow
  tokens_of [] = []
  tokens_of (row ∷ rows) =
      record {
        user = db_user_to_api row.user;
        token_id = H.digest row.token;
        prefix = token_prefix row.token;
        label = row.label;
        expires = row.expires;
        last_access = row.last_access;
        last_origin = row.last_origin;
        provisioned = row.provisioned;
      }
      ∷ tokens_of rows

  unfoldable pub list_tokens : Option String → H.Env → Result Fault (List TokenRow)
  list_tokens user e = do rows ← token_rows user e; ok (tokens_of rows)

  unfoldable pub reveal_token : String → String → H.Env → Result Fault (Option String)
  reveal_token user id e = do rows ← token_rows (some user) e; ok (find_token H.digest id rows)

  unfoldable pub has_user : String → H.Env → Result Fault Bool
  has_user name e = do
    _ ← ensure_supported e
    rows ← run_query H.user_rows e
    ok (any_named (db_user name) rows)
