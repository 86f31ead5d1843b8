-- ===== src/Ntfy/Maintenance/Confirmed.antt =====
-- Nothing is wiped without its phrase and a backup.
use homeassistant_addons.Common.{
  ◌≡◌, ◌≢◌, ◌⊎◌, inl, inr, refl, Bool-cases, ◌==◌, if◌then◌else◌, String, ◌<>◌, ok, err, ==_refl,
  ==_differ, string_eq, arith,
}
use homeassistant_addons.Common.Action.{◌>>=◌}
use homeassistant_addons.Ntfy.Contract.{Fault, api}
use homeassistant_addons.Ntfy.Host.{Host, Ctx}
use homeassistant_addons.Ntfy.Options.{Options}
use homeassistant_addons.Ntfy.AuthDb.{ensure_supported}
use homeassistant_addons.Ntfy.Maintenance.{
  confirm, wipe_acls, reset_acls, wipe_everything, reset_everything,
}

abbrev pub not_confirmed : String → Fault
not_confirmed phrase = api "confirmation_required" ("type \"" <> (phrase <> "\" to confirm"))

abbrev pub no_password : Fault
no_password = api "conflict" "admin_password option is empty: the admin could not be recreated"

module _ (H : Host) (o : Options) (c : Ctx H) where
  -- A reset of the rules for which anything but `reset acls` is typed raises `confirmation_required`. A
  -- full reset for which anything but `reset everything` is typed raises that too, and one for which it is
  -- typed, but without an admin password, raises `conflict`. All of them change nothing.
  pub reset_refused :
      (typed other : String)
      → typed ≢ "reset acls"
      → (other ≢ "reset everything") ⊎ (o.admin_password ≡ "")
      → (reset_acls H typed c ≡ (err (not_confirmed "reset acls"), c))
        × (reset_everything H o other c ≡ (
          err (
              if other == "reset everything"
              then no_password
              else not_confirmed "reset everything"),
          c,
        ))
  unfolding reset_acls reset_everything confirm ◌>>=◌
  reset_refused typed other n (inl m) = (ground arith, ground arith)
  reset_refused typed other n (inr p) = (
    ground arith,
    elim (Bool-cases (other == "reset everything")) [
      | inl e ↦ rw (e, p, ==_refl {A = String} "") refl
      | inr e ↦ rw (e) refl
    ],
  )

  -- What a failing backup leaves.
  abbrev after_backup : String → Ctx H
  after_backup reason = record c { env = (H.backup reason c.env).1 }

  -- On a supported database, with the phrase typed and an admin password, where the backup fails, both
  -- resets raise its exception, and have done nothing else.
  pub reset_unsaved :
      (f g : Fault)
      → ensure_supported H c.env ≡ ok tt
      → (H.backup "reset-acls" c.env).0 ≡ err f
      → (H.backup "reset-everything" c.env).0 ≡ err g
      → o.admin_password ≢ ""
      → (reset_acls H "reset acls" c ≡ (err f, after_backup "reset-acls"))
        × (reset_everything H o "reset everything" c ≡ (err g, after_backup "reset-everything"))
  unfolding reset_acls reset_everything confirm wipe_acls wipe_everything ◌>>=◌
  reset_unsaved f g s b d n = (
    rw (==_refl {A = String} "reset acls", s, b),
    rw (==_refl {A = String} "reset everything", ==_differ o.admin_password "" n, s, d),
  )
