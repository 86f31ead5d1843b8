-- ===== src/Ntfy/Accounts/Refused.antt =====
-- No service runs against a database that is missing or that another version of ntfy wrote.
use homeassistant_addons.Common.{
  ℕ, ◌≡◌, ◌≢◌, ◌⊎◌, inl, inr, refl, true, false, String, ◌<>◌, List, ◌∷◌, Option, ok, err, ◌==◌,
  string_eq, ==_refl, arith,
}
use homeassistant_addons.Common.Action.{◌>>=◌}
use homeassistant_addons.Common.Text.{decimal}
use homeassistant_addons.Ntfy.Contract.{Fault, api}
use homeassistant_addons.Ntfy.Host.{Host, Ctx}
use homeassistant_addons.Ntfy.AuthDb.{
  ensure_supported, check_schema, schema_status, refuse_schema, run_query, row_or_fault,
  is_supported,
}
use homeassistant_addons.Ntfy.Accounts.{
  list_users, create_user, change_password, delete_user, change_role,
}
use homeassistant_addons.Ntfy.Accounts.Rules.{list_rules, set_rule, remove_rule}
use homeassistant_addons.Ntfy.Tokens.{list_tokens, create_token, reveal_token, revoke_token}
use homeassistant_addons.Ntfy.Rights.{effective}

abbrev pub unavailable : Fault
unavailable = api "db_unavailable" "auth database is not available"

abbrev pub unsupported : ℕ → Fault
unsupported version =
    api "db_unsupported" ("auth schema version " <> (decimal version <> " is not supported"))

codes :
    (◌==◌ {A = String} "db_unsupported" "db_unavailable" ≡ false)
    × (◌==◌ {A = String} "db_unsupported" "locked" ≡ false)
unfolding string_eq
codes = (refl, refl)

module _ (H : Host) (c : Ctx H) where
  missing_refused : H.is_file c.env ≡ false → ensure_supported H c.env ≡ err unavailable
  unfolding ensure_supported check_schema refuse_schema
  missing_refused e = rw (e, ==_refl {A = String} "db_unavailable") refl

  version_refused :
      (version : ℕ) (rows : List ℕ)
      → H.is_file c.env ≡ true
      → H.schema_rows c.env ≡ ok (version ∷ rows)
      → version ≢ 10
      → version ≢ 11
      → ensure_supported H c.env ≡ err (unsupported version)
  unfolding ensure_supported check_schema schema_status run_query row_or_fault refuse_schema
  version_refused version rows e s n m =
      let other : is_supported version ≡ false = ground arith in
      rw (e, s, other, codes.0, codes.1) refl

  all_refused :
      (f : Fault) (admin a b d : String) (user topic label expires : Option String)
      → ensure_supported H c.env ≡ err f
      → (list_users H admin c ≡ (err f, c))
        × (create_user H admin a b d c ≡ (err f, c))
        × (change_password H admin a b c ≡ (err f, c))
        × (delete_user H admin a b c ≡ (err f, c))
        × (change_role H admin a b c ≡ (err f, c))
        × (list_rules H user topic c ≡ (err f, c))
        × (set_rule H a b d c ≡ (err f, c))
        × (remove_rule H a b c ≡ (err f, c))
        × (list_tokens H user c ≡ (err f, c))
        × (create_token H a label expires c ≡ (err f, c))
        × (reveal_token H a b c ≡ (err f, c))
        × (revoke_token H a b c ≡ (err f, c))
        × (effective H a b d c ≡ (err f, c))
  unfolding list_users create_user change_password delete_user change_role list_rules set_rule
      remove_rule list_tokens create_token reveal_token revoke_token effective ◌>>=◌
  all_refused f admin a b d user topic label expires e =
      (rw e, rw e, rw e, rw e, rw e, rw e, rw e, rw e, rw e, rw e, rw e, rw e, rw e)

  -- If there is no database, or one whose schema has a version other than 10 and 11, every service on
  -- users, rules, tokens and rights, also one that only lists, raises `db_unavailable` or
  -- `db_unsupported` with that version, and changes nothing, whatever its arguments.
  pub services_refused :
      (f : Fault) (admin a b d : String) (user topic label expires : Option String)
      → ((H.is_file c.env ≡ false) × (f ≡ unavailable))
        ⊎ ((version : ℕ) × (rows : List ℕ) × (H.is_file c.env ≡ true)
            × (H.schema_rows c.env ≡ ok (version ∷ rows))
            × (version ≢ 10)
            × (version ≢ 11)
            × (f ≡ unsupported version))
      → (list_users H admin c ≡ (err f, c))
        × (create_user H admin a b d c ≡ (err f, c))
        × (change_password H admin a b c ≡ (err f, c))
        × (delete_user H admin a b c ≡ (err f, c))
        × (change_role H admin a b c ≡ (err f, c))
        × (list_rules H user topic c ≡ (err f, c))
        × (set_rule H a b d c ≡ (err f, c))
        × (remove_rule H a b c ≡ (err f, c))
        × (list_tokens H user c ≡ (err f, c))
        × (create_token H a label expires c ≡ (err f, c))
        × (reveal_token H a b c ≡ (err f, c))
        × (revoke_token H a b c ≡ (err f, c))
        × (effective H a b d c ≡ (err f, c))
  services_refused f admin a b d user topic label expires (inl (e, g)) =
      rw g (all_refused unavailable admin a b d user topic label expires (missing_refused e))
  services_refused f admin a b d user topic label expires (inr (version, rows, e, s, n, m, g)) =
      rw g (
        all_refused (unsupported version) admin a b d user topic label expires
          (version_refused version rows e s n m))
