-- ===== src/Ntfy/Maintenance.antt =====
-- ntfy/app/maintenance.py: the resets. Clearing the message cache and the test message are not here.
pub mod Confirmed
use homeassistant_addons.Common.{
  Bool, true, false, not, ◌&&◌, ◌||◌, String, ◌<>◌, List, [], ◌∷◌, Option, none, some, ◌==◌,
  string_eq, Result, ok, err, if◌then◌else◌,
}
use homeassistant_addons.Common.Action.{pure, raise, catch, ◌>>=◌, ◌>>◌}
use homeassistant_addons.Ntfy.Contract.{Fault, api, cli, value_error, other, UserRow}
use homeassistant_addons.Ntfy.Host.{Host, M, query, call_raising}
use homeassistant_addons.Ntfy.Options.{Options}
use homeassistant_addons.Ntfy.AuthDb
use homeassistant_addons.Ntfy.Cli
use homeassistant_addons.Ntfy.Origins
use homeassistant_addons.Ntfy.Bootstrap.{apply_options}

module _ (H : Host) where
  -- `_confirm`, with the phrase
  unfoldable pub confirm : String → String → M H (Unit {0})
  confirm phrase typed =
      if typed == phrase
      then pure tt
      else raise (api "confirmation_required" ("type \"" <> (phrase <> "\" to confirm")))

  -- What follows the confirmation; the name of the backup.
  unfoldable pub wipe_acls : M H String
  wipe_acls = do
    query H (AuthDb.ensure_supported H)
    backup ← call_raising H (H.backup "reset-acls")
    Cli.access_reset H none none
    Origins.clear_acls H
    pure backup

  unfoldable pub reset_acls : String → M H String
  reset_acls typed = do confirm "reset acls" typed; wipe_acls

  -- `except NtfyCliError` with the code `not_found`
  unfoldable pub gone : Fault → M H (Unit {0})
  gone (cli code message) = if code == "not_found" then pure tt else raise (cli code message)
  gone (api code message) = raise (api code message)
  gone (value_error message) = raise (value_error message)
  gone (other exception) = raise (other exception)

  -- `user["name"] in ("*", "everyone") or user.get("role") == "anonymous"`
  unfoldable pub is_anonymous : UserRow → Bool
  is_anonymous row = (row.name == "*" || row.name == "everyone") || row.role == "anonymous"

  unfoldable pub delete_all : List UserRow → M H (Unit {0})
  delete_all [] = pure tt
  delete_all (row ∷ rows) = do
    if is_anonymous row then pure tt else catch (Cli.user_delete H row.name) gone
    delete_all rows

  module _ (o : Options) where
    unfoldable pub wipe_everything : M H String
    wipe_everything = do
      query H (AuthDb.ensure_supported H)
      backup ← call_raising H (H.backup "reset-everything")
      users ← query H (AuthDb.list_users H)
      delete_all users
      Cli.access_reset H none none
      Origins.clear_all H
      _ ← apply_options H o
      known ← query H (AuthDb.has_user H o.admin_user)
      if known
          then pure backup
          else raise (api "ntfy_error" "admin user was not recreated after the reset")

    unfoldable pub reset_everything : String → M H String
    reset_everything typed = do
      confirm "reset everything" typed
      if o.admin_password == ""
          then raise
              (api "conflict" "admin_password option is empty: the admin could not be recreated")
          else wipe_everything
