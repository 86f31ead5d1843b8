-- ===== src/Ntfy/Tests.antt =====
-- The theorems at a small server: a host that logs the commands of the ntfy program.
use homeassistant_addons.Common.{
  ℕ, ◌≡◌, ◌≢◌, ◌↔◌, refl, Bool, true, false, not, ◌&&◌, String, ◌<>◌, List, [], ◌∷◌, is_empty,
  Option, none, some, ◌==◌, string_eq, Result, ok, err, arith, inl, inr, if◌then◌else◌,
}
use homeassistant_addons.Common.Action.Keeps.{Keeps}
use homeassistant_addons.Common.Dict
use homeassistant_addons.Common.Sort.{sort}
use homeassistant_addons.Common.Text.{replace, replace_from, starts}
use homeassistant_addons.Common.Dict.{Dict}
use homeassistant_addons.Ntfy.Contract.{
  Fault, api, db_user_to_api, perm_from_flags, UserRow, AclRow, AclRule, Effective, topic_match,
  cli_topic_to_db, db_topic_to_cli,
}
use homeassistant_addons.Ntfy.Contract.Topics.{
  Means, topic_match_iff, db_topic_to_cli-cli_topic_to_db,
}
use homeassistant_addons.Ntfy.Host.{Host, StashRule, DbUser, DbAcl, Ctx, ended}
use homeassistant_addons.Ntfy.Options.{Options, BaselineUser, defaults}
use homeassistant_addons.Ntfy.Origins.{
  all_known, default_origin, origin_of, put_inner, drop_inner, live_section, empty,
}
use homeassistant_addons.Ntfy.Origins.Laws.{Section, section_refines}
use homeassistant_addons.Ntfy.Cli.Commands.{OnEnv}
use homeassistant_addons.Ntfy.Origins.Kept.{AllKeep, store-Keeps}
use homeassistant_addons.Ntfy.Contract.Topics.{is_plain}
use homeassistant_addons.Ntfy.AuthDb.{
  ensure_supported, refuse_schema, check_schema, schema_status, run_query, row_or_fault, users_of,
  acl, acls_of, acl_of, list_users, list_acl,
}
use homeassistant_addons.Ntfy.Accounts.{
  restore, admins_of, reason_for, protection_loop, protection, create_user, change_password,
  delete_user, change_role,
}
use homeassistant_addons.Ntfy.Accounts.LastAdmin.{
  Distinct, names_of, deleted, demoted, protection_leaves_admin,
}
use homeassistant_addons.Ntfy.Accounts.Restored.{Alone, Restored, restore-Restored}
use homeassistant_addons.Ntfy.Accounts.Rules.{list_rules, set_rule, remove_rule}
use homeassistant_addons.Ntfy.Accounts.Refused.{unsupported, services_refused}
use homeassistant_addons.Ntfy.Tokens.{list_tokens, create_token, reveal_token, revoke_token}
use homeassistant_addons.Ntfy.Rights.{effective}
use homeassistant_addons.Ntfy.Rights.Best.{Right, is_admin, effective-Decided}
use homeassistant_addons.Ntfy.Maintenance.{reset_acls, reset_everything}
use homeassistant_addons.Ntfy.Maintenance.Confirmed.{
  not_confirmed, no_password, reset_refused, reset_unsaved,
}
use homeassistant_addons.Ntfy.Baseline.{apply_baseline}
use homeassistant_addons.Ntfy.Baseline.Additive.{Additive, apply_baseline-Keeps}

abbrev phil : DbUser
phil = record { name = "phil"; role = "user"; tier = none; provisioned = false }

abbrev door : DbAcl
door = record { user = "phil"; topic = "door%"; read = true; write = false; provisioned = false }

-- The environment is the list of the commands that ran, the latest first.
abbrev server : Host
server = record {
  Env = List (List String);
  is_file = λ e. true;
  schema_rows = λ e. ok (10 ∷ []);
  user_rows = λ e. ok (phil ∷ []);
  acl_rows = λ e. ok (door ∷ []);
  token_rows = λ e. ok [];
  spawn = λ args password e. (ended 0 "" "", args ∷ e);
  sleep = λ e. e;
  backup = λ reason e. (err (api "ntfy_error" reason), e);
  refresh = λ e. (none, e);
  save = λ d e. (ok tt, e);
  digest = λ t. t;
  iso_utc = λ n. "";
}

abbrev ready : Ctx server
ready = record { env = []; doc = empty }

abbrev ana : BaselineUser
ana = record { username = "ana"; password = "secret"; topic = "door"; write_access = true }

abbrev chosen : Options
chosen = record defaults { baseline_users = ana ∷ []; admin_password = "secret" }

-- No command deletes a user.
abbrev deletes : List String → Bool
deletes (a ∷ b ∷ rest) = a == "user" && b == "del"
deletes _ = false

abbrev NoDeletion : List (List String) → Type 0
NoDeletion [] = Unit
NoDeletion (args ∷ log) = (deletes args ≡ false) × NoDeletion log

server-Additive : Additive server chosen NoDeletion
unfolding string_eq
server-Additive = record {
  sleep = λ e p. p;
  quiet = record { refresh = λ e p. p; save = λ d e p. p };
  add = λ name n password e p. (refl, p);
  reset = λ name n h password e p. (refl, p);
  grant = λ name topic write n password e p. (refl, p);
}

apply_baseline-Keeps_example : Keeps (OnEnv server NoDeletion) (apply_baseline server chosen)
apply_baseline-Keeps_example = apply_baseline-Keeps server chosen NoDeletion server-Additive

topic_match_iff_example : (topic_match "door*" "doorbell" ≡ true) ↔ Means "door*" "doorbell"
topic_match_iff_example = topic_match_iff "door*" "doorbell"

abbrev kept_rules : Section
kept_rules = ("ana", ("door", "options") ∷ []) ∷ []

section_refines_example :
    (origin_of "ana" "door" (put_inner "ana" "door" "iac" kept_rules) ≡ "iac")
    × (origin_of "ana" "door" (drop_inner "ana" "door" kept_rules) ≡ default_origin)
    × (origin_of "ana" "door" (live_section (λ u k. true) kept_rules) ≡ "options")
unfolding string_eq Dict.get origin_of
section_refines_example =
    section_refines "ana" "door" "iac" "ana" "door" (λ u k. true) kept_rules (refl, tt)

store-Keeps_example : AllKeep server "ana" "door" "iac" [] (λ u. true) (λ u k. true) (λ u k. false)
store-Keeps_example =
    store-Keeps server (λ e d h. ground arith) "ana" "door" "iac" [] (λ u. true) (λ u k. true)
      (λ u k. false)

db_topic_to_cli-cli_topic_to_db_example :
    db_topic_to_cli (cli_topic_to_db "front_door*") ≡ "front_door*"
unfolding is_plain
db_topic_to_cli-cli_topic_to_db_example = db_topic_to_cli-cli_topic_to_db "front_door*" refl

differ : (a b : String) → a == b ≡ false → a ≢ b
differ a b h = ground arith

reset_refused_example :
    (reset_acls server "reset everything" ready ≡ (err (not_confirmed "reset acls"), ready))
    × (reset_everything server chosen "reset acls" ready ≡ (
      err (
          if ◌==◌ {A = String} "reset acls" "reset everything"
          then no_password
          else not_confirmed "reset everything"),
      ready,
    ))
unfolding string_eq
reset_refused_example =
    reset_refused server chosen ready "reset everything" "reset acls"
      (differ "reset everything" "reset acls" refl)
      (inl (differ "reset acls" "reset everything" refl))

reset_unsaved_example :
    (reset_acls server "reset acls" ready ≡ (err (api "ntfy_error" "reset-acls"), ready))
    × (reset_everything server chosen "reset everything" ready
        ≡ (err (api "ntfy_error" "reset-everything"), ready))
unfolding ensure_supported refuse_schema check_schema schema_status run_query row_or_fault string_eq
reset_unsaved_example =
    reset_unsaved server chosen ready (api "ntfy_error" "reset-acls")
      (api "ntfy_error" "reset-everything") refl refl refl (differ "secret" "" refl)

-- A database of a later version of ntfy.
abbrev newer : Host
newer = record server { schema_rows = λ e. ok (12 ∷ []) }

abbrev waiting : Ctx newer
waiting = record { env = []; doc = empty }

services_refused_example :
    (homeassistant_addons.Ntfy.Accounts.list_users newer "admin" waiting
      ≡ (err (unsupported 12), waiting))
    × (create_user newer "admin" "ana" "pw" "user" waiting ≡ (err (unsupported 12), waiting))
    × (change_password newer "admin" "ana" "pw" waiting ≡ (err (unsupported 12), waiting))
    × (delete_user newer "admin" "ana" "pw" waiting ≡ (err (unsupported 12), waiting))
    × (change_role newer "admin" "ana" "pw" waiting ≡ (err (unsupported 12), waiting))
    × (list_rules newer none none waiting ≡ (err (unsupported 12), waiting))
    × (set_rule newer "ana" "pw" "user" waiting ≡ (err (unsupported 12), waiting))
    × (remove_rule newer "ana" "pw" waiting ≡ (err (unsupported 12), waiting))
    × (list_tokens newer none waiting ≡ (err (unsupported 12), waiting))
    × (create_token newer "ana" none none waiting ≡ (err (unsupported 12), waiting))
    × (reveal_token newer "ana" "pw" waiting ≡ (err (unsupported 12), waiting))
    × (revoke_token newer "ana" "pw" waiting ≡ (err (unsupported 12), waiting))
    × (effective newer "ana" "pw" "user" waiting ≡ (err (unsupported 12), waiting))
services_refused_example =
    services_refused newer waiting (unsupported 12) "admin" "ana" "pw" "user" none none none none
      (inr (12, [], refl, refl, (λ e. ground arith), (λ e. ground arith), refl))

abbrev phil_row : UserRow
phil_row = record { name = "phil"; role = "user"; tier = none; provisioned = false }

abbrev door_row : AclRow
door_row = record {
  user = "phil";
  topic = "door*";
  permission = "ro";
  read = true;
  write = false;
  provisioned = false;
}

abbrev door_rule : AclRule
door_rule = record { user = "phil"; topic = "door*"; permission = "ro"; origin = "gui" }

abbrev door_rights : Effective
door_rights = record {
  user = "phil";
  topic = "doorbell";
  read = true;
  write = false;
  source = record { kind = "user-rule"; rule = some door_rule };
  candidates = door_rule ∷ [];
}

phil_listed : list_users server ready.env ≡ ok (phil_row ∷ [])
unfolding string_eq list_users ensure_supported refuse_schema check_schema schema_status run_query
    row_or_fault users_of db_user_to_api
phil_listed = refl

door_listed : list_acl server ready.env ≡ ok (door_row ∷ [])
unfolding string_eq list_acl acl sort acls_of acl_of db_topic_to_cli perm_from_flags replace
    replace_from starts ensure_supported refuse_schema check_schema schema_status run_query
    row_or_fault db_user_to_api
door_listed = refl

door_decided : (effective server "deny-all" "phil" "doorbell" ready).0 ≡ ok door_rights
unfolding string_eq effective homeassistant_addons.Common.Action.◌>>=◌ ensure_supported
    refuse_schema check_schema schema_status run_query row_or_fault
    homeassistant_addons.Ntfy.Contract.is_topic homeassistant_addons.Common.Pattern.shaped
    homeassistant_addons.Common.Pattern.is_alnum homeassistant_addons.Common.Pattern.within
    homeassistant_addons.Common.Pattern.at_end list_users
    homeassistant_addons.Ntfy.Rights.last_named users_of db_user_to_api
    homeassistant_addons.Ntfy.Rights.of_user Dict.get sort homeassistant_addons.Common.Text.len
    replace replace_from starts homeassistant_addons.Ntfy.Accounts.Rules.rule
    homeassistant_addons.Ntfy.Accounts.Rules.rules acl acl_of acls_of list_acl cli_topic_to_db
    db_topic_to_cli homeassistant_addons.Ntfy.Contract.literal
    homeassistant_addons.Ntfy.Contract.skip perm_from_flags topic_match
    homeassistant_addons.Ntfy.Origins.get_acl homeassistant_addons.Ntfy.Origins.read
    homeassistant_addons.Ntfy.Origins.refresh origin_of homeassistant_addons.Ntfy.Rights.applies
    homeassistant_addons.Ntfy.Rights.by_rules homeassistant_addons.Ntfy.Rights.decide
    homeassistant_addons.Ntfy.Rights.default_access homeassistant_addons.Ntfy.Rights.has_admin_role
    homeassistant_addons.Ntfy.Rights.is_foreign homeassistant_addons.Ntfy.Rights.key_le
    homeassistant_addons.Ntfy.Rights.matching homeassistant_addons.Ntfy.Rights.pattern_len
    homeassistant_addons.Ntfy.Rights.tail_le
door_decided = refl

effective-Decided_example :
    Right "phil" (is_admin "phil" (phil_row ∷ [])) "deny-all" "doorbell" (door_row ∷ []) door_rights
effective-Decided_example =
    effective-Decided "phil" server "deny-all" "doorbell" ready (phil_row ∷ []) (door_row ∷ [])
      door_rights phil_listed door_listed door_decided

abbrev root_row : String → UserRow
root_row name = record { name = name; role = "admin"; tier = none; provisioned = false }

abbrev two_admins : List UserRow
two_admins = root_row "ana" ∷ root_row "ben" ∷ []

ben_unprotected : Dict.get "ben" (protection "root" two_admins) ≡ none
unfolding string_eq protection protection_loop reason_for admins_of Dict.get
ben_unprotected = refl

two_admins-Distinct : Distinct (names_of two_admins)
unfolding string_eq names_of
two_admins-Distinct = (refl, (refl, tt))

protection_leaves_admin_example :
    (is_empty (admins_of (deleted "ben" two_admins)) ≡ false)
    × (is_empty (admins_of (demoted "ben" two_admins)) ≡ false)
unfolding string_eq admins_of
protection_leaves_admin_example =
    protection_leaves_admin "root" "ben" two_admins two_admins-Distinct refl ben_unprotected

-- A program that refuses every command.
abbrev refusing : Host
refusing = record server { spawn = λ args password e. (ended 1 "invalid argument" "", e) }

abbrev demoting : Ctx refusing
demoting = record { env = []; doc = empty }

refusing-Alone : Alone refusing
refusing-Alone = record { unchanged = λ e. refl; saves = λ d e. refl }

abbrev door_stash : List StashRule
door_stash = record { topic = "door*"; permission = "ro"; origin = "iac" } ∷ []

door_stash_known : all_known door_stash ≡ true
unfolding string_eq all_known
door_stash_known = refl

restore-Restored_example :
    Restored refusing "phil" door_stash [] (restore refusing "root" "phil" door_stash demoting)
restore-Restored_example =
    restore-Restored refusing refusing-Alone "root" "phil" door_stash demoting door_stash_known
