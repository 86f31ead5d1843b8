-- ===== src/Ntfy/Cli.antt =====
-- ntfy/app/ntfycli.py: calls of the ntfy program.
pub mod Commands
use Prim.Native.Char.{Char, code}
use homeassistant_addons.Common.{
  ℕ, zero, suc, Bool, true, false, not, ◌&&◌, ◌||◌, String, ◌<>◌, List, [], ◌∷◌, ◌++◌, Option, none,
  some, eqb, leb, all, contains, ◌==◌, string_eq, Result, ok, err, is_some, if◌then◌else◌,
}
use homeassistant_addons.Common.Action.{pure, raise, ◌>>=◌, ◌>>◌}
use homeassistant_addons.Common.Text.{prefix, drop, starts, includes, includes_lower, len}
use homeassistant_addons.Common.Pattern.{is_lower_alnum}
use homeassistant_addons.Ntfy.Contract.{
  Fault, api, cli, value_error, other, is_username, is_topic_pattern, is_label, is_duration,
  is_token, permissions,
}
use homeassistant_addons.Ntfy.Host.{Host, Spawned, ended, timed_out, os_error, M, call}

unfoldable pub classify : String → String
classify text =
    if includes_lower "provisioned" text
    then "provisioned"
    else if includes_lower "already exists" text
    then "exists"
    else if includes_lower "does not exist" text || includes_lower "not found" text
    then "not_found"
    else if includes_lower "invalid argument" text || includes_lower "must be" text
    then "invalid"
    else if includes_lower "database is locked" text
    then "locked"
    else "other"

abbrev is_space : Char → Bool
is_space c = eqb (code c) 32 || (leb 9 (code c) && leb (code c) 13)

strip_left : String → String
strip_left String.[] = ""
strip_left (String.◌∷◌ c s) = if is_space c then strip_left s else String.◌∷◌ c s

all_space : String → Bool
all_space String.[] = true
all_space (String.◌∷◌ c s) = is_space c && all_space s

strip_right : String → String
unfolding all_space
strip_right String.[] = ""
strip_right (String.◌∷◌ c s) =
    let rest = strip_right s in if all_space (String.◌∷◌ c s) then "" else String.◌∷◌ c rest

-- `s.strip()`, for ASCII texts
unfoldable pub strip : String → String
unfolding strip_left strip_right
strip s = strip_right (strip_left s)

-- `(proc.stdout or proc.stderr or "").strip()`
abbrev failure_text : String → String → String
failure_text out error = strip (if out == "" then error else out)

all_lower_alnum : String → Bool
all_lower_alnum String.[] = true
all_lower_alnum (String.◌∷◌ c s) = is_lower_alnum c && all_lower_alnum s

-- Whether the text starts with `token (tk_[a-z0-9]{29}) created for user`.
token_here : String → Bool
unfolding all_lower_alnum
token_here s =
    starts "token tk_" s
    && (eqb (len (prefix 29 (drop 9 s))) 29
        && (all_lower_alnum (prefix 29 (drop 9 s)) && starts " created for user" (drop 38 s)))

-- `TOKEN_OUT_RE.search`: the token of the first place.
unfoldable pub find_created : String → Option String
unfolding token_here
find_created String.[] = none
find_created (String.◌∷◌ c s) =
    if token_here (String.◌∷◌ c s)
    then some (prefix 32 (drop 6 (String.◌∷◌ c s)))
    else find_created s

abbrev pub lock_retries : ℕ
lock_retries = 3

abbrev bare : Option String → Bool
bare none = true
bare (some s) = s == ""

abbrev text_of : Option String → String
text_of none = ""
text_of (some s) = s

module _ (H : Host) where
  -- `raise ValueError(message)` unless the test holds.
  abbrev pub require : Bool → String → M H (Unit {0})
  require test message = if test then pure tt else raise (value_error message)

  -- What one attempt means, with what follows a locked database.
  unfoldable pub attempted : Bool → M H String → Spawned → M H String
  attempted last again timed_out = raise (cli "other" "ntfy CLI timed out")
  attempted last again (os_error exception) =
      raise (cli "other" ("cannot run ntfy CLI: " <> exception))
  attempted last again (ended zero out error) = pure out
  attempted last again (ended (suc n) out error) =
      if classify (failure_text out error) == "locked" && not last
      then again
      else raise (cli (classify (failure_text out error)) (failure_text out error))

  -- The loop of `_run`, with the retries that are left.
  unfoldable pub attempts : ℕ → List String → Option String → M H String
  attempts zero args password = do
    outcome ← call H (H.spawn args password)
    attempted true (pure "") outcome
  attempts (suc n) args password = do
    outcome ← call H (H.spawn args password)
    attempted false (do call H (λ e. (tt, H.sleep e)); attempts n args password) outcome

  -- `_run`. A negative exit code stands as a positive one.
  unfoldable pub run : List String → Option String → M H String
  run args password = attempts lock_retries args password

  -- The same, where the output is not used.
  abbrev run_quiet : List String → Option String → M H (Unit {0})
  run_quiet args password = do _ ← run args password; pure tt

  unfoldable pub user_add : String → String → String → M H (Unit {0})
  user_add name password role = do
    require (is_username name) "invalid user name"
    require (contains ("user" ∷ "admin" ∷ []) role) "role must be user or admin"
    require (not (password == "")) "password must not be empty"
    run_quiet ("user" ∷ "add" ∷ ("--role=" <> role) ∷ name ∷ []) (some password)

  unfoldable pub user_change_pass : String → String → M H (Unit {0})
  user_change_pass name password = do
    require (is_username name) "invalid user name"
    require (not (password == "")) "password must not be empty"
    run_quiet ("user" ∷ "change-pass" ∷ name ∷ []) (some password)

  unfoldable pub user_delete : String → M H (Unit {0})
  user_delete name = do
    require (is_username name) "invalid user name"
    run_quiet ("user" ∷ "del" ∷ name ∷ []) none

  unfoldable pub user_change_role : String → String → M H (Unit {0})
  user_change_role name role = do
    require (is_username name) "invalid user name"
    require (contains ("user" ∷ "admin" ∷ []) role) "role must be user or admin"
    run_quiet ("user" ∷ "change-role" ∷ name ∷ role ∷ []) none

  -- `_user(name, allow_everyone=True)` and `_topic`
  abbrev named : String → Bool
  named name = name == "everyone" || is_username name

  abbrev topical : String → Bool
  topical topic = not (includes "%" topic) && is_topic_pattern topic

  unfoldable pub access_set : String → String → String → M H (Unit {0})
  access_set user topic permission = do
    require (named user) "invalid user name"
    require (topical topic) "invalid topic pattern"
    require (contains permissions permission) "invalid permission"
    run_quiet ("access" ∷ user ∷ topic ∷ permission ∷ []) none

  unfoldable pub access_reset : Option String → Option String → M H (Unit {0})
  access_reset none (some topic) = raise (value_error "topic requires a user")
  access_reset none none = run_quiet ("access" ∷ "--reset" ∷ []) none
  access_reset (some user) none = do
    require (named user) "invalid user name"
    run_quiet ("access" ∷ "--reset" ∷ user ∷ []) none
  access_reset (some user) (some topic) = do
    require (named user) "invalid user name"
    require (topical topic) "invalid topic pattern"
    run_quiet ("access" ∷ "--reset" ∷ user ∷ topic ∷ []) none

  -- `args.append(f"--option={value}")`, if a value is given
  abbrev option_arg : String → Option String → List String
  option_arg option value = if bare value then [] else (option <> text_of value) ∷ []

  abbrev found_token : Option String → M H String
  found_token (some token) = pure token
  found_token none = raise (cli "other" "unexpected token add output")

  unfoldable pub token_add : String → Option String → Option String → M H String
  token_add user label expires = do
    require (is_username user) "invalid user name"
    require (bare label || is_label (text_of label)) "invalid label"
    require (bare expires || is_duration (text_of expires)) "invalid expiry duration"
    out ←
        run
          ("token"
            ∷ "add"
            ∷ (option_arg "--label=" label ++ (option_arg "--expires=" expires ++ user ∷ [])))
          none
    found_token (find_created out)

  unfoldable pub token_remove : String → String → M H (Unit {0})
  token_remove user token = do
    require (is_username user) "invalid user name"
    require (is_token token) "invalid token"
    run_quiet ("token" ∷ "remove" ∷ user ∷ token ∷ []) none
