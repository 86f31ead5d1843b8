-- ===== src/Ntfy/Options.antt =====
-- ntfy/app/contract.py: the options of the add-on, from a parsed options.json.
use homeassistant_addons.Common.{
  ℕ, zero, suc, Bool, true, false, String, ◌<>◌, List, [], ◌∷◌, Option, none, some, ◌==◌, string_eq,
  Result, ok, err, ◌>>=◌, if◌then◌else◌,
}

pub data ℤ : Type 0 where
  pos : ℕ → ℤ
  negsuc : ℕ → ℤ

-- A JSON value. Of a number that is no integer only matters whether it is zero.
mutual
  pub data Json : Type 0 where
    null : Json
    boolean : Bool → Json
    integer : ℤ → Json
    real : (is_zero : Bool) → Json
    text : String → Json
    array : Items → Json
    object : Fields → Json

  pub data Items : Type 0 where
    no_items : Items
    item : Json → Items → Items

  -- The last field of a name counts; a parser leaves one of each.
  pub data Fields : Type 0 where
    no_fields : Fields
    field : String → Json → Fields → Fields

-- `data.get(key)`
unfoldable pub get : String → Fields → Option Json
get key no_fields = none
get key (field name value rest) = if name == key then some value else get key rest

pub record BaselineUser : Type 0 where
  pub username : String
  pub password : String
  pub topic : String
  pub write_access : Bool

pub record Options : Type 0 where
  pub base_url : String
  pub enable_web_ui : Bool
  pub behind_proxy : Bool
  pub auth_default_access : String
  pub admin_user : String
  pub admin_password : String
  pub baseline_users : List BaselineUser
  pub baseline_overwrite_passwords : Bool
  pub backup_keep : ℤ
  pub cache_duration : String
  pub attachments_enabled : Bool
  pub attachment_total_size_limit : String
  pub attachment_file_size_limit : String
  pub attachment_expiry_duration : String
  pub log_level : String

-- DEFAULT_OPTIONS
abbrev pub defaults : Options
defaults = record {
  base_url = "https://ntfy.example.com";
  enable_web_ui = true;
  behind_proxy = true;
  auth_default_access = "deny-all";
  admin_user = "admin";
  admin_password = "";
  baseline_users = [];
  baseline_overwrite_passwords = false;
  backup_keep = pos 10;
  cache_duration = "12h";
  attachments_enabled = true;
  attachment_total_size_limit = "1G";
  attachment_file_size_limit = "15M";
  attachment_expiry_duration = "12h";
  log_level = "info";
}

-- The message of OptionsError.
abbrev pub wrong : String → String → String
wrong key kind = "option " <> (key <> (" must be " <> kind))

-- `_get(data, key, kind)`, for each kind, with the default.
unfoldable pub get_str : Fields → String → String → Result String String
get_str d key default = elim (get key d) [
  | none ↦ ok default
  | some (text s) ↦ ok s
  | some _ ↦ err (wrong key "str")
]

unfoldable pub get_bool : Fields → String → Bool → Result String Bool
get_bool d key default = elim (get key d) [
  | none ↦ ok default
  | some (boolean b) ↦ ok b
  | some _ ↦ err (wrong key "bool")
]

unfoldable pub get_int : Fields → String → ℤ → Result String ℤ
get_int d key default = elim (get key d) [
  | none ↦ ok default
  | some (integer n) ↦ ok n
  | some _ ↦ err (wrong key "int")
]

-- `_get_optional_str`: null is the empty text.
unfoldable pub get_optional_str : Fields → String → String → Result String String
get_optional_str d key default = elim (get key d) [
  | none ↦ ok default
  | some null ↦ ok ""
  | some (text s) ↦ ok s
  | some _ ↦ err (wrong key "str")
]

-- `not value`
unfoldable pub is_falsy : Json → Bool
is_falsy null = true
is_falsy (boolean b) = if b then false else true
is_falsy (integer (pos zero)) = true
is_falsy (integer (pos (suc n))) = false
is_falsy (integer (negsuc n)) = false
is_falsy (real z) = z
is_falsy (text s) = s == ""
is_falsy (array no_items) = true
is_falsy (array (item v vs)) = false
is_falsy (object no_fields) = true
is_falsy (object (field k v fs)) = false

-- `entry.get("write_access", False)`, which must be a Boolean
unfoldable pub write_access_of : Option Json → Result String Bool
write_access_of none = ok false
write_access_of (some (boolean b)) = ok b
write_access_of (some _) = err "baseline_users.write_access must be bool"

-- `show` is `str` of a value that is no text.
module _ (show : Json → String) where
  -- `str(entry.get(key, ""))`
  unfoldable pub text_of : Option Json → String
  text_of none = ""
  text_of (some (text s)) = s
  text_of (some v) = show v

  unfoldable pub baseline_user : Json → Result String BaselineUser
  baseline_user (object entry) = do
    write ← write_access_of (get "write_access" entry)
    ok (record {
      username = text_of (get "username" entry);
      password = text_of (get "password" entry);
      topic = text_of (get "topic" entry);
      write_access = write;
    })
  baseline_user v = err "option baseline_users entries must be objects"

  unfoldable pub baseline_loop : Items → Result String (List BaselineUser)
  baseline_loop no_items = ok []
  baseline_loop (item v vs) = do user ← baseline_user v; users ← baseline_loop vs; ok (user ∷ users)

  -- `data.get("baseline_users") or []`
  unfoldable pub baseline_of : Option Json → Result String (List BaselineUser)
  baseline_of none = ok []
  baseline_of (some (array items)) = baseline_loop items
  baseline_of (some v) = if is_falsy v then ok [] else err "option baseline_users must be a list"

  unfoldable pub parse_options : Fields → Result String Options
  parse_options d = do
    users ← baseline_of (get "baseline_users" d)
    base_url ← get_str d "base_url" defaults.base_url
    enable_web_ui ← get_bool d "enable_web_ui" defaults.enable_web_ui
    behind_proxy ← get_bool d "behind_proxy" defaults.behind_proxy
    access ← get_str d "auth_default_access" defaults.auth_default_access
    admin_user ← get_str d "admin_user" defaults.admin_user
    admin_password ← get_str d "admin_password" defaults.admin_password
    overwrite ← get_bool d "baseline_overwrite_passwords" defaults.baseline_overwrite_passwords
    keep ← get_int d "backup_keep" defaults.backup_keep
    cache ← get_str d "cache_duration" defaults.cache_duration
    attachments ← get_bool d "attachments_enabled" defaults.attachments_enabled
    total ← get_optional_str d "attachment_total_size_limit" defaults.attachment_total_size_limit
    file ← get_optional_str d "attachment_file_size_limit" defaults.attachment_file_size_limit
    expiry ← get_optional_str d "attachment_expiry_duration" defaults.attachment_expiry_duration
    level ← get_str d "log_level" defaults.log_level
    ok (record {
      base_url = base_url;
      enable_web_ui = enable_web_ui;
      behind_proxy = behind_proxy;
      auth_default_access = access;
      admin_user = admin_user;
      admin_password = admin_password;
      baseline_users = users;
      baseline_overwrite_passwords = overwrite;
      backup_keep = keep;
      cache_duration = cache;
      attachments_enabled = attachments;
      attachment_total_size_limit = total;
      attachment_file_size_limit = file;
      attachment_expiry_duration = expiry;
      log_level = level;
    })

  -- `load_options` after the file was read and parsed: none is a missing file.
  unfoldable pub load_options : Result String (Option Json) → Result String Options
  load_options (err exception) = err ("cannot read options: " <> exception)
  load_options (ok none) = parse_options no_fields
  load_options (ok (some (object d))) = parse_options d
  load_options (ok (some v)) = err "options must be a JSON object"
