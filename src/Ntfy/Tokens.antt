-- ===== src/Ntfy/Tokens.antt =====
-- ntfy/app/tokens.py: the life of tokens. The audit log is not modelled.
use homeassistant_addons.Common.{
  Bool, true, false, String, ◌<>◌, List, [], ◌∷◌, Option, none, some, ◌==◌, string_eq,
  if◌then◌else◌,
}
use homeassistant_addons.Common.Action.{pure, raise, catch, ◌>>=◌, ◌>>◌}
use homeassistant_addons.Ntfy.Contract.{
  Fault, api, cli, value_error, other, is_label, is_duration, TokenRow, TokenMeta,
  token_meta_from_row,
}
use homeassistant_addons.Ntfy.Host.{Host, M, query}
use homeassistant_addons.Ntfy.AuthDb
use homeassistant_addons.Ntfy.Cli
use homeassistant_addons.Ntfy.Origins
use homeassistant_addons.Ntfy.Accounts.{require, supported}

-- A check of an argument that may be missing.
abbrev optional : (String → Bool) → Option String → Bool
optional test none = true
optional test (some s) = test s

-- `value or None`
abbrev nonempty : Option String → Option String
nonempty none = none
nonempty (some s) = if s == "" then none else some s

unfoldable pub row_with : String → List TokenRow → Option TokenRow
row_with id [] = none
row_with id (row ∷ rows) = if row.token_id == id then some row else row_with id rows

-- A token's data, and its value.
pub record Created : Type 0 where
  pub meta : TokenMeta
  pub value : String

module _ (H : Host) where
  unfoldable pub require_user : String → M H (Unit {0})
  require_user user =
      if user == "everyone"
      then raise (api "bad_request" "tokens cannot belong to everyone")
      else (do
        known ← if user == "" then pure false else query H (AuthDb.has_user H user)
        if known then pure tt else raise (api "not_found" ("user " <> (user <> " does not exist"))))

  unfoldable pub meta : TokenRow → M H TokenMeta
  meta row = do
    origin ← Origins.get_token H row.user row.token_id
    pure (token_meta_from_row H.iso_utc row origin)

  unfoldable pub metas : List TokenRow → M H (List TokenMeta)
  metas [] = pure []
  metas (row ∷ rows) = do m ← meta row; ms ← metas rows; pure (m ∷ ms)

  unfoldable pub list_tokens : Option String → M H (List TokenMeta)
  list_tokens user = do supported H; rows ← query H (AuthDb.list_tokens H user); metas rows

  -- `except ValueError as exc: raise ApiError("bad_request", str(exc))`
  unfoldable pub refuse_value : {A : Type 0} → Fault → M H A
  refuse_value (value_error message) = raise (api "bad_request" message)
  refuse_value (api code message) = raise (api code message)
  refuse_value (cli code message) = raise (cli code message)
  refuse_value (other exception) = raise (other exception)

  abbrev created_row : Option TokenRow → M H TokenRow
  created_row (some row) = pure row
  created_row none = raise (api "ntfy_error" "created token not found in the database")

  unfoldable pub create_token : String → Option String → Option String → M H Created
  create_token user label expires = do
    supported H
    require_user user
    require H (optional is_label label) "invalid label"
    require H (optional is_duration expires) "invalid expiry duration, use e.g. 30m, 12h or 7d"
    value ← catch (Cli.token_add H user (nonempty label) (nonempty expires)) refuse_value
    Origins.set_token H user (H.digest value) "gui"
    rows ← query H (AuthDb.list_tokens H (some user))
    row ← created_row (row_with (H.digest value) rows)
    m ← meta row
    pure (record { meta = m; value = value })

  abbrev revealed : Option String → M H String
  revealed (some value) = pure value
  revealed none = raise (api "not_found" "token not found")

  unfoldable pub reveal_token : String → String → M H String
  reveal_token user id = do
    supported H
    value ← query H (AuthDb.reveal_token H user id)
    revealed value

  unfoldable pub revoke_token : String → String → M H (Unit {0})
  revoke_token user id = do
    supported H
    found ← query H (AuthDb.reveal_token H user id)
    value ← revealed found
    catch (Cli.token_remove H user value) refuse_value
    Origins.drop_token H user id
