-- ===== src/Ntfy/Baseline.antt =====
-- ntfy/app/baseline.py: users and rules of the options, added to what is there. Prints are left out.
pub mod Additive
use homeassistant_addons.Common.{
  Bool, true, false, not, ◌&&◌, ◌||◌, String, ◌<>◌, List, [], ◌∷◌, ◌++◌, Option, none, some,
  or_default, is_some, contains, ◌==◌, string_eq, pair_eq, Result, ok, err, if◌then◌else◌,
}
use homeassistant_addons.Common.Action.{
  Raises, pure, raise, gets, modify, catch, resume, ◌>>=◌, ◌>>◌,
}
use homeassistant_addons.Common.Dict
use homeassistant_addons.Common.Dict.{Dict}
use homeassistant_addons.Ntfy.Contract.{Fault, api, cli, value_error, other, UserRow, AclRow}
use homeassistant_addons.Ntfy.Host.{Host, Ctx, Doc, M, query}
use homeassistant_addons.Ntfy.Options.{Options, BaselineUser}
use homeassistant_addons.Ntfy.AuthDb
use homeassistant_addons.Ntfy.Cli
use homeassistant_addons.Ntfy.Origins

pub record BaselineReport : Type 0 where
  pub users_created : List String
  pub rules_set : List (String × String × String)
  pub rules_kept : List (String × String)
  pub orphaned : List String
  pub warnings : List String
  pub passwords_reset : List String

-- The objects that `_apply_entry` changes.
pub record Work : Type 0 where
  pub report : BaselineReport
  pub roles : Dict String String
  pub rules : Dict (String × String) String
  pub named_users : List String
  pub named_rules : List (String × String)

pub record Applying (H : Host) : Type 0 where
  pub ctx : Ctx H
  pub work : Work

abbrev pub no_report : BaselineReport
no_report = record {
  users_created = [];
  rules_set = [];
  rules_kept = [];
  orphaned = [];
  warnings = [];
  passwords_reset = [];
}

unfoldable pub roles_of : List UserRow → Dict String String → Dict String String
roles_of [] d = d
roles_of (row ∷ rows) d = roles_of rows (Dict.set row.name row.role d)

unfoldable pub rules_of :
    List AclRow → Dict (String × String) String → Dict (String × String) String
rules_of [] d = d
rules_of (row ∷ rows) d = rules_of rows (Dict.set (row.user, row.topic) row.permission d)

abbrev fault_text : Fault → String
fault_text (api code message) = message
fault_text (cli code message) = message
fault_text (value_error message) = message
fault_text (other exception) = exception

module _ (H : Host) (o : Options) where
  abbrev pub B : Type 0 → Type 0
  B A = Raises Fault (Applying H) A

  -- A step on the context, and one on the other objects.
  abbrev pub lift : {A : Type 0} → M H A → B A
  lift m a = ((m a.ctx).0, record a { ctx = (m a.ctx).1 })

  abbrev change : (Work → Work) → B (Unit {0})
  change f = modify (λ a. record a { work = f a.work })

  abbrev pub report : (BaselineReport → BaselineReport) → B (Unit {0})
  report f = change (λ w. record w { report = f w.report })

  abbrev pub warn : String → B (Unit {0})
  warn message = report (λ r. record r { warnings = r.warnings ++ message ∷ [] })

  abbrev set_role : String → B (Unit {0})
  set_role name = change (λ w. record w { roles = Dict.set name "user" w.roles })

  -- The two outcomes of `user_add`: whether the user existed.
  unfoldable pub added : String → Result Fault (Unit {0}) → B Bool
  added name (ok _) = do
    set_role name
    lift (Origins.set_user H name "options")
    report (λ r. record r { users_created = r.users_created ++ name ∷ [] })
    pure false
  added name (err (cli code message)) =
      if code == "exists" then (do set_role name; pure true) else raise (cli code message)
  added name (err fault) = raise fault

  -- `try: m; ...`, with the outcome as a value.
  abbrev pub attempt : {A : Type 0} → M H A → B (Result Fault A)
  attempt m a = (ok ((m a.ctx).0), record a { ctx = (m a.ctx).1 })

  unfoldable pub ensure_user : BaselineUser → B Bool
  ensure_user entry = do
    existed ← gets (λ a. Dict.has entry.username a.work.roles)
    if existed then pure true else (do
      outcome ← attempt (Cli.user_add H entry.username entry.password "user")
      added entry.username outcome)

  abbrev permission_of : BaselineUser → String
  permission_of entry = if entry.write_access then "rw" else "ro"

  abbrev note_rule : BaselineUser → B (Unit {0})
  note_rule entry = do
    change (λ w. record w {
      rules = Dict.set (entry.username, entry.topic) (permission_of entry) w.rules;
    })

  abbrev report_rule : BaselineUser → B (Unit {0})
  report_rule entry = report (λ r. record r {
    rules_set = r.rules_set ++ (entry.username, entry.topic, permission_of entry) ∷ [];
  })

  abbrev access_set : BaselineUser → B (Unit {0})
  access_set entry = lift (Cli.access_set H entry.username entry.topic (permission_of entry))

  -- The rule of an entry, for the permission that is there.
  unfoldable pub apply_rule : BaselineUser → Option String → B (Unit {0})
  apply_rule entry none = do
    access_set entry
    note_rule entry
    lift (Origins.set_acl H entry.username entry.topic "options")
    report_rule entry
  apply_rule entry (some current) = do
    origin ← lift (Origins.get_acl H entry.username entry.topic)
    if origin == "options"
        then if current == permission_of entry
          then pure tt
          else (do access_set entry; note_rule entry; report_rule entry)
        else report
            (λ r. record r { rules_kept = r.rules_kept ++ (entry.username, entry.topic) ∷ [] })

  unfoldable pub reset_password : BaselineUser → Bool → B (Unit {0})
  reset_password entry existed =
      if existed && o.baseline_overwrite_passwords
      then (do
        lift (Cli.user_change_pass H entry.username entry.password)
        report (λ r. record r { passwords_reset = r.passwords_reset ++ entry.username ∷ [] }))
      else pure tt

  unfoldable pub apply_topic : BaselineUser → B (Unit {0})
  apply_topic entry = if entry.topic == "" then pure tt else (do
    change (λ w. record w { named_rules = (entry.username, entry.topic) ∷ w.named_rules })
    current ← gets (λ a. Dict.get (entry.username, entry.topic) a.work.rules)
    apply_rule entry current)

  abbrev is_admin : Option String → Bool
  is_admin none = false
  is_admin (some role) = role == "admin"

  unfoldable pub apply_entry : BaselineUser → B (Unit {0})
  apply_entry entry = do
    existed ← ensure_user entry
    admin ← gets (λ a. is_admin (Dict.get entry.username a.work.roles))
    if admin
        then warn (
            "user "
            <> (entry.username
                <> " has the admin role: baseline gets no rules and no password reset"))
        else (do reset_password entry existed; apply_topic entry)

  -- `except (NtfyCliError, ValueError)`
  unfoldable pub entry_failed : String → Fault → B (Unit {0})
  entry_failed name (cli code message) = warn ("entry " <> (name <> (" failed: " <> message)))
  entry_failed name (value_error message) = warn ("entry " <> (name <> (" failed: " <> message)))
  entry_failed name (api code message) = raise (api code message)
  entry_failed name (other exception) = raise (other exception)

  -- The loop over the entries.
  unfoldable pub apply_entries : List BaselineUser → B (Unit {0})
  apply_entries [] = pure tt
  apply_entries (entry ∷ entries) = do
    if entry.username == o.admin_user
        then warn ("entry " <> (entry.username <> " names the admin user and is ignored"))
        else (do
          change (λ w. record w { named_users = entry.username ∷ w.named_users })
          catch (apply_entry entry) (entry_failed entry.username))
    apply_entries entries

  abbrev note_orphan : String → B (Unit {0})
  note_orphan name = report (λ r. record r { orphaned = r.orphaned ++ name ∷ [] })

  -- The loops of `_orphan`.
  unfoldable pub orphan_users : List (String × String) → B (Unit {0})
  orphan_users [] = pure tt
  orphan_users ((user, origin) ∷ users) = do
    named ← gets (λ a. contains a.work.named_users user)
    if (origin == "options" && not (user == o.admin_user)) && not named
        then (do lift (Origins.set_user H user "gui"); note_orphan user)
        else pure tt
    orphan_users users

  unfoldable pub orphan_topics : String → Dict String String → B (Unit {0})
  orphan_topics user [] = pure tt
  orphan_topics user ((topic, origin) ∷ topics) = do
    named ← gets (λ a. contains a.work.named_rules (user, topic))
    if origin == "options" && not named
        then (do lift (Origins.set_acl H user topic "gui"); note_orphan (user <> (":" <> topic)))
        else pure tt
    orphan_topics user topics

  unfoldable pub orphan_acls : Dict String (Dict String String) → B (Unit {0})
  orphan_acls [] = pure tt
  orphan_acls ((user, topics) ∷ acls) = do orphan_topics user topics; orphan_acls acls

  unfoldable pub orphan : B (Unit {0})
  orphan = do snap ← lift (Origins.snapshot H); orphan_users snap.users; orphan_acls snap.acls

  -- The two queries in the `try`.
  unfoldable pub read_both : M H (List UserRow × List AclRow)
  read_both = do
    users ← query H (AuthDb.list_users H)
    acls ← query H (AuthDb.list_acl H)
    pure (users, acls)

  unfoldable pub none_there : Fault → M H (List UserRow × List AclRow)
  none_there (api code message) =
      if code == "db_unavailable" then pure ([], []) else raise (api code message)
  none_there fault = raise fault

  abbrev first_work : List UserRow → List AclRow → Work
  first_work users acls = record {
    report = no_report;
    roles = roles_of users [];
    rules = rules_of acls [];
    named_users = [];
    named_rules = [];
  }

  unfoldable pub apply_and_orphan : B (Unit {0})
  apply_and_orphan = do apply_entries o.baseline_users; orphan

  -- The report of a run, or its exception.
  abbrev outcome_report : Result Fault (Unit {0}) → Work → Result Fault BaselineReport
  outcome_report (ok _) w = ok w.report
  outcome_report (err fault) w = err fault

  unfoldable pub with_tables : List UserRow × List AclRow → M H BaselineReport
  with_tables (users, acls) c =
      let (r, a) = apply_and_orphan (record { ctx = c; work = first_work users acls }) in
      (outcome_report r a.work, a.ctx)

  unfoldable pub apply_baseline : M H BaselineReport
  apply_baseline = do tables ← catch read_both none_there; with_tables tables
