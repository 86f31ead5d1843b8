-- ===== src/Ntfy/Contract.antt =====
-- ntfy/app/contract.py: validators, errors, permissions, topics and the shapes of rows.
pub mod Topics
use Prim.Native.Char.{Char, code}
use homeassistant_addons.Common.{
  ℕ, Bool, true, false, not, ◌&&◌, ◌||◌, String, ◌<>◌, List, [], ◌∷◌, Option, none, some, leb, eqb,
  contains, ◌==◌, string_eq, Result, ok, err, if◌then◌else◌,
}
use homeassistant_addons.Common.Dict.{Dict}
use homeassistant_addons.Common.Text.{len, prefix, starts, includes, includes_lower, drop, replace}
use homeassistant_addons.Common.Pattern.{
  is_char, is_digit, is_alnum, is_lower_alnum, at_end, within, exactly, shaped,
}

-- The exceptions that the services raise: ApiError and NtfyCliError with a code and a message,
-- ValueError, and any other by its type's name.
pub data Fault : Type 0 where
  api : (code message : String) → Fault
  cli : (code message : String) → Fault
  value_error : (message : String) → Fault
  other : (exception : String) → Fault

abbrev pub reserved_usernames : List String
reserved_usernames = "everyone" ∷ "*" ∷ []

abbrev pub permissions : List String
permissions = "rw" ∷ "ro" ∷ "wo" ∷ "deny" ∷ []

abbrev pub known_origins : List String
known_origins = "gui" ∷ "options" ∷ "iac" ∷ []

-- `^[a-zA-Z0-9_][-_.+@a-zA-Z0-9]{0,63}$`
unfoldable pub is_username : String → Bool
is_username =
    shaped (λ c. is_alnum c || is_char b'_' c)
      (λ c.
        is_alnum c
        || (is_char b'-' c
            || (is_char b'_' c || (is_char b'.' c || (is_char b'+' c || is_char b'@' c)))))
      63

-- `^[a-zA-Z0-9_*][-_a-zA-Z0-9*]{0,63}$`
unfoldable pub is_topic_pattern : String → Bool
is_topic_pattern =
    shaped (λ c. is_alnum c || (is_char b'_' c || is_char b'*' c))
      (λ c. is_alnum c || (is_char b'-' c || (is_char b'_' c || is_char b'*' c))) 63

-- `^[a-zA-Z0-9_][-_a-zA-Z0-9]{0,63}$`
unfoldable pub is_topic : String → Bool
is_topic =
    shaped (λ c. is_alnum c || is_char b'_' c)
      (λ c. is_alnum c || (is_char b'-' c || is_char b'_' c)) 63

is_unit : Char → Bool
is_unit c = is_char b's' c || (is_char b'm' c || (is_char b'h' c || is_char b'd' c))

-- `[0-9]*[smhd]$`
duration_rest : String → Bool
unfolding is_unit
duration_rest String.[] = false
duration_rest (String.◌∷◌ c s) = (is_unit c && at_end s) || (is_digit c && duration_rest s)

-- `^[0-9]+[smhd]$`
unfoldable pub is_duration : String → Bool
unfolding duration_rest
is_duration String.[] = false
is_duration (String.◌∷◌ c s) = is_digit c && duration_rest s

-- `^tk_[a-z0-9]{29}$`
unfoldable pub is_token : String → Bool
is_token s = starts "tk_" s && exactly is_lower_alnum 29 (drop 3 s)

-- `^[^\x00-\x1f]{0,64}$`
unfoldable pub is_label : String → Bool
is_label = within (λ c. leb 32 (code c)) 64

-- `CLI_ERROR_TO_API.get(code, "ntfy_error")`
unfoldable pub cli_error_to_api : String → String
cli_error_to_api c =
    if c == "exists"
    then "conflict"
    else if c == "not_found"
    then "not_found"
    else if c == "invalid"
    then "bad_request"
    else if c == "provisioned"
    then "protected"
    else if c == "locked"
    then "locked"
    else "ntfy_error"

unfoldable pub api_error_from_cli : String → String → Fault
api_error_from_cli c message = api (cli_error_to_api c) message

-- The flags of a row, as Booleans.
unfoldable pub perm_from_flags : Bool → Bool → String
perm_from_flags true true = "rw"
perm_from_flags true false = "ro"
perm_from_flags false true = "wo"
perm_from_flags false false = "deny"

-- A KeyError for a permission that is not known.
unfoldable pub flags_from_perm : String → Option (Bool × Bool)
flags_from_perm p =
    if p == "rw"
    then some (true, true)
    else if p == "ro"
    then some (true, false)
    else if p == "wo"
    then some (false, true)
    else if p == "deny"
    then some (false, false)
    else none

unfoldable pub db_user_to_api : String → String
db_user_to_api name = if name == "*" then "everyone" else name

unfoldable pub cli_topic_to_db : String → String
cli_topic_to_db topic = replace "*" "%" (replace "_" "\\_" topic)

unfoldable pub db_topic_to_cli : String → String
db_topic_to_cli topic = replace "%" "*" (replace "\\_" "_" topic)

-- `re.fullmatch` of `pattern.split("*")` with its parts escaped and joined by `.*`: characters
-- stand for themselves, and a `*` for any text, newlines included. `skip p t` tries `p` at each
-- suffix of `t`.
unfoldable pub skip : (String → Bool) → String → Bool
skip p String.[] = p ""
skip p (String.◌∷◌ c topic) = p (String.◌∷◌ c topic) || skip p topic

-- One literal character.
unfoldable pub literal : Char → (String → Bool) → String → Bool
literal a p String.[] = false
literal a p (String.◌∷◌ c topic) = eqb (code c) (code a) && p topic

unfoldable pub topic_match : String → String → Bool
topic_match String.[] topic = topic == ""
topic_match (String.◌∷◌ a pattern) topic =
    if is_char b'*' a
    then skip (topic_match pattern) topic
    else literal a (topic_match pattern) topic

unfoldable pub token_prefix : String → String
token_prefix token = prefix 7 token

-- Rows of AuthDb.
pub record UserRow : Type 0 where
  pub name : String
  pub role : String
  pub tier : Option String
  pub provisioned : Bool

pub record AclRow : Type 0 where
  pub user : String
  pub topic : String
  pub permission : String
  pub read : Bool
  pub write : Bool
  pub provisioned : Bool

pub record TokenRow : Type 0 where
  pub user : String
  pub token_id : String
  pub prefix : String
  pub label : String
  pub expires : ℕ
  pub last_access : ℕ
  pub last_origin : String
  pub provisioned : Bool

-- What the API shows.
pub record User : Type 0 where
  pub name : String
  pub role : String
  pub tier : Option String
  pub origin : String
  pub provisioned : Bool
  pub protected : Bool
  pub protected_reason : Option String
  pub acl_count : ℕ
  pub token_count : ℕ

pub record AclRule : Type 0 where
  pub user : String
  pub topic : String
  pub permission : String
  pub origin : String

pub record TokenMeta : Type 0 where
  pub id : String
  pub user : String
  pub prefix : String
  pub label : String
  pub expires : ℕ
  pub expires_at : Option String
  pub last_access : ℕ
  pub last_origin : String
  pub origin : String

pub record EffectiveSource : Type 0 where
  pub kind : String
  pub rule : Option AclRule

pub record Effective : Type 0 where
  pub user : String
  pub topic : String
  pub read : Bool
  pub write : Bool
  pub source : EffectiveSource
  pub candidates : List AclRule

-- `iso` is `iso_utc`, which formats a date.
unfoldable pub token_meta_from_row : (ℕ → String) → TokenRow → String → TokenMeta
token_meta_from_row iso row origin = record {
  id = row.token_id;
  user = row.user;
  prefix = row.prefix;
  label = row.label;
  expires = row.expires;
  expires_at = if eqb row.expires 0 then none else some (iso row.expires);
  last_access = row.last_access;
  last_origin = row.last_origin;
  origin = origin;
}
