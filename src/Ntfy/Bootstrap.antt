-- ===== src/Ntfy/Bootstrap.antt =====
-- ntfy/app/bootstrap.py: the admin and the baseline at a start. Prints are left out.
use homeassistant_addons.Common.{
  String, ◌<>◌, List, [], ◌∷◌, ◌++◌, ◌==◌, string_eq, if◌then◌else◌, any,
}
use homeassistant_addons.Common.Action.{pure, raise, catch, ◌>>=◌, ◌>>◌}
use homeassistant_addons.Ntfy.Contract.{Fault, api, cli, value_error, other, UserRow}
use homeassistant_addons.Ntfy.Host.{Host, M, query}
use homeassistant_addons.Ntfy.Options.{Options}
use homeassistant_addons.Ntfy.AuthDb
use homeassistant_addons.Ntfy.Cli
use homeassistant_addons.Ntfy.Origins
use homeassistant_addons.Ntfy.Baseline.{BaselineReport, apply_baseline}

pub record BootstrapReport : Type 0 where
  pub actions : List String
  pub warnings : List String

-- The texts of `_describe`.
unfoldable pub created_texts : List String → List String
created_texts [] = []
created_texts (name ∷ names) = ("user " <> (name <> " created")) ∷ created_texts names

unfoldable pub rule_texts : List (String × String × String) → List String
rule_texts [] = []
rule_texts ((user, topic, perm) ∷ rules) =
    ("rule " <> (user <> (" " <> (topic <> (" " <> (perm <> " set")))))) ∷ rule_texts rules

unfoldable pub reset_texts : List String → List String
reset_texts [] = []
reset_texts (name ∷ names) = ("password of " <> (name <> " reset")) ∷ reset_texts names

unfoldable pub orphan_texts : List String → List String
orphan_texts [] = []
orphan_texts (item ∷ items) = (item <> " now owned by gui") ∷ orphan_texts items

unfoldable pub describe : BaselineReport → List String
describe report =
    created_texts report.users_created
    ++ (rule_texts report.rules_set
        ++ (reset_texts report.passwords_reset ++ orphan_texts report.orphaned))

-- `f"{type(exc).__name__}: {exc}"`
unfoldable pub fault_line : Fault → String
fault_line (api code message) = "ApiError: " <> message
fault_line (cli code message) = "NtfyCliError: " <> message
fault_line (value_error message) = "ValueError: " <> message
fault_line (other exception) = exception <> ": "

module _ (H : Host) (o : Options) where
  -- `except ApiError`: a database that cannot be read has no users.
  unfoldable pub no_users : Fault → M H (List UserRow)
  no_users (api code message) = pure []
  no_users (cli code message) = raise (cli code message)
  no_users (value_error message) = raise (value_error message)
  no_users (other exception) = raise (other exception)

  unfoldable pub add_admin : M H (List String)
  add_admin = do
    Cli.user_add H o.admin_user o.admin_password "admin"
    Origins.set_user H o.admin_user "options"
    pure (("admin user " <> (o.admin_user <> " created")) ∷ [])

  -- `except NtfyCliError` with the code `exists`. `set_user` raises no NtfyCliError.
  unfoldable pub admin_exists : Fault → M H (List String)
  admin_exists (cli code message) = if code == "exists" then pure [] else raise (cli code message)
  admin_exists (api code message) = raise (api code message)
  admin_exists (value_error message) = raise (value_error message)
  admin_exists (other exception) = raise (other exception)

  unfoldable pub ensure_admin : M H (List String)
  ensure_admin = if o.admin_password == "" then pure [] else (do
    existing ← catch (query H (AuthDb.list_users H)) no_users
    if any (λ row. row.name == o.admin_user) existing
        then pure []
        else catch add_admin admin_exists)

  -- A step whose exception becomes a warning.
  abbrev warned : String → M H BootstrapReport → M H BootstrapReport
  warned step m =
      catch m (λ fault. pure (record { actions = []; warnings = (step <> fault_line fault) ∷ [] }))

  abbrev admin_step : M H BootstrapReport
  admin_step = do actions ← ensure_admin; pure (record { actions = actions; warnings = [] })

  abbrev baseline_step : M H BootstrapReport
  baseline_step = do
    report ← apply_baseline H o
    pure (record { actions = describe report; warnings = report.warnings })

  unfoldable pub apply_options : M H BootstrapReport
  apply_options = do
    first ← warned "admin: " admin_step
    second ← warned "baseline: " baseline_step
    pure (record {
      actions = first.actions ++ second.actions;
      warnings = first.warnings ++ second.warnings;
    })
