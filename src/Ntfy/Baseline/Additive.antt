-- ===== src/Ntfy/Baseline/Additive.antt =====
-- The baseline adds: the commands it runs, and the users it runs them for.
use homeassistant_addons.Common.{
  ◌≡◌, ◌≢◌, refl, ==_iff, ==_differ, Bool, true, false, ◌&&◌, String, ◌<>◌, List, [], ◌∷◌, ◌++◌,
  Option, none, some, ◌==◌, string_eq, Result, ok, err, if◌then◌else◌, arith,
}
use homeassistant_addons.Common.Action.{pure, catch, ◌>>◌}
use homeassistant_addons.Common.Action.Keeps.{
  Keeps, Keeps-pure, Keeps-raise, Keeps-gets, Keeps-if, Keeps-bind, Keeps-catch,
}
use homeassistant_addons.Common.Dict.{Dict}
use homeassistant_addons.Ntfy.Contract.{Fault, api, cli, value_error, other, UserRow, AclRow}
use homeassistant_addons.Ntfy.Host.{Host, M, query}
use homeassistant_addons.Ntfy.Options.{Options, BaselineUser}
use homeassistant_addons.Ntfy.Origins.Quiet.{
  Quiet, get_acl-Keeps, snapshot-Keeps, set_user-Keeps, set_acl-Keeps,
}
use homeassistant_addons.Ntfy.Cli.{user_change_pass, access_set}
use homeassistant_addons.Ntfy.Cli.Commands.{
  OnEnv, Harmless, user_add-Keeps, user_change_pass-Keeps, access_set-Keeps,
}
use homeassistant_addons.Ntfy.Baseline.{
  Work, Applying, lift, report, attempt, change, added, ensure_user, permission_of, apply_rule,
  reset_password, apply_topic, apply_entry, entry_failed, apply_entries, orphan_users,
  orphan_topics, orphan_acls, orphan, read_both, none_there, apply_and_orphan, with_tables,
  apply_baseline,
}

-- What the environment keeps: everything the baseline may run leaves `P` as it is. New users get the
-- role `user`, and rules the permissions `rw` and `ro`; passwords are set again only if the options
-- say so, and no command names the admin user of the options.
pub record Additive (H : Host) (o : Options) (P : H.Env → Type 0) : Type 0 where
  pub sleep : (e : H.Env) → P e → P (H.sleep e)
  pub quiet : Quiet H P
  pub add :
      (name : String)
      → name ≢ o.admin_user
      → Harmless H P ("user" ∷ "add" ∷ ("--role=" <> "user") ∷ name ∷ [])
  pub reset :
      (name : String)
      → name ≢ o.admin_user
      → o.baseline_overwrite_passwords ≡ true
      → Harmless H P ("user" ∷ "change-pass" ∷ name ∷ [])
  pub grant :
      (name topic : String) (write : Bool)
      → name ≢ o.admin_user
      → Harmless H P ("access" ∷ name ∷ topic ∷ (if write then "rw" else "ro") ∷ [])

module _ (H : Host) (o : Options) (P : H.Env → Type 0) (closed : Additive H o P) where
  -- `P` of the environment, between the steps of the baseline.
  abbrev OnApplying : Applying H → Type 0
  OnApplying a = P a.ctx.env

  lift-Keeps : {A : Type 0} (m : M H A) → Keeps (OnEnv H P) m → Keeps OnApplying (lift H o m)
  lift-Keeps m k = record { at = λ a p. k.at a.ctx p }

  attempt-Keeps : {A : Type 0} (m : M H A) → Keeps (OnEnv H P) m → Keeps OnApplying (attempt H o m)
  attempt-Keeps m k = record { at = λ a p. k.at a.ctx p }

  change-Keeps : (f : Work → Work) → Keeps OnApplying (change H o f)
  change-Keeps f = record { at = λ a p. p }

  -- The steps of one entry, whose user is not the admin user.
  module _ (entry : BaselineUser) (differs : entry.username ≢ o.admin_user) where
    added-Keeps : (r : Result Fault (Unit {0})) → Keeps OnApplying (added H o entry.username r)
    unfolding added
    added-Keeps (ok _) =
        Keeps-bind _ _ (record { at = λ a p. p })
          (λ _.
            Keeps-bind _ _ (lift-Keeps _ (set_user-Keeps H P closed.quiet entry.username "options"))
              (λ _. Keeps-bind _ _ (record { at = λ a p. p }) (λ _. Keeps-pure false)))
    added-Keeps (err (cli code message)) =
        Keeps-if (code == "exists") _ _
          (Keeps-bind _ _ (record { at = λ a p. p }) (λ _. Keeps-pure true))
          (Keeps-raise (cli code message))
    added-Keeps (err (api code message)) = Keeps-raise _
    added-Keeps (err (value_error message)) = Keeps-raise _
    added-Keeps (err (other exception)) = Keeps-raise _

    ensure_user-Keeps : Keeps OnApplying (ensure_user H o entry)
    unfolding ensure_user
    ensure_user-Keeps = Keeps-bind _ _ (Keeps-gets _) (λ existed.
        Keeps-if existed _ _ (Keeps-pure true) (
          Keeps-bind _ _
            (attempt-Keeps _ (
              user_add-Keeps H (OnEnv H P) (λ c p. closed.sleep c.env p) entry.username
                entry.password "user" (λ w c p. closed.add entry.username differs w c.env p)))
            (λ r. added-Keeps r)))

    access_set-entry :
        Keeps OnApplying
          (lift H o (access_set H entry.username entry.topic (permission_of H o entry)))
    access_set-entry = lift-Keeps _ (
        access_set-Keeps H (OnEnv H P) (λ c p. closed.sleep c.env p) entry.username entry.topic
          (permission_of H o entry)
          (λ w c p. closed.grant entry.username entry.topic entry.write_access differs w c.env p))

    apply_rule-Keeps : (current : Option String) → Keeps OnApplying (apply_rule H o entry current)
    unfolding apply_rule
    apply_rule-Keeps none = Keeps-bind _ _ access_set-entry (λ _.
        Keeps-bind _ _ (record { at = λ a p. p })
          (λ _.
            Keeps-bind _ _
              (lift-Keeps _ (set_acl-Keeps H P closed.quiet entry.username entry.topic "options"))
              (λ _. record { at = λ a p. p })))
    apply_rule-Keeps (some current) =
        Keeps-bind _ _ (lift-Keeps _ (get_acl-Keeps H P closed.quiet entry.username entry.topic))
          (λ origin.
            Keeps-if (origin == "options") _ _
              (Keeps-if (current == permission_of H o entry) _ _ (Keeps-pure tt) (
                Keeps-bind _ _ access_set-entry
                  (λ _. Keeps-bind _ _ (record { at = λ a p. p }) (λ _. record { at = λ a p. p }))))
              (record { at = λ a p. p }))

    reset-Keeps :
        (overwrite : Bool)
        → (overwrite ≡ true → o.baseline_overwrite_passwords ≡ true)
        → Keeps OnApplying (
            if overwrite
            then (lift H o (user_change_pass H entry.username entry.password)
                >> report H o
                    (λ r. record r { passwords_reset = r.passwords_reset ++ entry.username ∷ [] }))
            else pure tt)
    reset-Keeps false h = Keeps-pure tt
    reset-Keeps true h =
        Keeps-bind _ _
          (lift-Keeps _ (
            user_change_pass-Keeps H (OnEnv H P) (λ c p. closed.sleep c.env p) entry.username
              entry.password (λ w c p. closed.reset entry.username differs (h refl) w c.env p)))
          (λ _. change-Keeps _)

    reset_password-Keeps : (existed : Bool) → Keeps OnApplying (reset_password H o entry existed)
    unfolding reset_password
    reset_password-Keeps existed =
        reset-Keeps (existed && o.baseline_overwrite_passwords) (λ h. ground arith)

    apply_topic-Keeps : Keeps OnApplying (apply_topic H o entry)
    unfolding apply_topic
    apply_topic-Keeps = Keeps-if (entry.topic == "") _ _ (Keeps-pure tt) (
        Keeps-bind _ _ (record { at = λ a p. p })
          (λ _. Keeps-bind _ _ (Keeps-gets _) (λ current. apply_rule-Keeps current)))

    apply_entry-Keeps : Keeps OnApplying (apply_entry H o entry)
    unfolding apply_entry
    apply_entry-Keeps = Keeps-bind _ _ ensure_user-Keeps (λ existed.
        Keeps-bind _ _ (Keeps-gets _) (λ admin.
          Keeps-if admin _ _ (record { at = λ a p. p })
            (Keeps-bind _ _ (reset_password-Keeps existed) (λ _. apply_topic-Keeps))))

  entry_failed-Keeps :
      (name : String) (fault : Fault) → Keeps OnApplying (entry_failed H o name fault)
  unfolding entry_failed
  entry_failed-Keeps name (cli code message) = record { at = λ a p. p }
  entry_failed-Keeps name (value_error message) = record { at = λ a p. p }
  entry_failed-Keeps name (api code message) = Keeps-raise _
  entry_failed-Keeps name (other exception) = Keeps-raise _

  tried-Keeps :
      (entry : BaselineUser)
      → entry.username ≢ o.admin_user
      → Keeps OnApplying (
          change H o (λ w. record w { named_users = entry.username ∷ w.named_users })
          >> catch (apply_entry H o entry) (entry_failed H o entry.username))
  tried-Keeps entry differs =
      Keeps-bind _ _ (record { at = λ a p. p })
        (λ _. Keeps-catch _ _ (apply_entry-Keeps entry differs) (entry_failed-Keeps entry.username))

  apply_entries-Keeps : (entries : List BaselineUser) → Keeps OnApplying (apply_entries H o entries)
  unfolding apply_entries
  apply_entries-Keeps [] = Keeps-pure tt
  apply_entries-Keeps (entry ∷ entries) =
      Keeps-bind _ _
        (elim (string_eq.dec entry.username o.admin_user) [
          | yes p ↦ rw ((==_iff entry.username o.admin_user).1 p) (record { at = λ a p. p })
          | no n ↦ rw (==_differ entry.username o.admin_user n) (tried-Keeps entry n)
        ])
        (λ _. apply_entries-Keeps entries)

  orphan_users-Keeps : (users : List (String × String)) → Keeps OnApplying (orphan_users H o users)
  unfolding orphan_users
  orphan_users-Keeps [] = Keeps-pure tt
  orphan_users-Keeps ((user, origin) ∷ users) = Keeps-bind _ _ (Keeps-gets _) (λ known.
      Keeps-bind _ _
        (Keeps-if _ _ _
          (Keeps-bind _ _ (lift-Keeps _ (set_user-Keeps H P closed.quiet user "gui"))
            (λ _. record { at = λ a p. p }))
          (Keeps-pure tt))
        (λ _. orphan_users-Keeps users))

  orphan_topics-Keeps :
      (user : String) (topics : Dict String String)
      → Keeps OnApplying (orphan_topics H o user topics)
  unfolding orphan_topics
  orphan_topics-Keeps user [] = Keeps-pure tt
  orphan_topics-Keeps user ((topic, origin) ∷ topics) = Keeps-bind _ _ (Keeps-gets _) (λ known.
      Keeps-bind _ _
        (Keeps-if _ _ _
          (Keeps-bind _ _ (lift-Keeps _ (set_acl-Keeps H P closed.quiet user topic "gui"))
            (λ _. record { at = λ a p. p }))
          (Keeps-pure tt))
        (λ _. orphan_topics-Keeps user topics))

  orphan_acls-Keeps :
      (acls : Dict String (Dict String String)) → Keeps OnApplying (orphan_acls H o acls)
  unfolding orphan_acls
  orphan_acls-Keeps [] = Keeps-pure tt
  orphan_acls-Keeps ((user, topics) ∷ acls) =
      Keeps-bind _ _ (orphan_topics-Keeps user topics) (λ _. orphan_acls-Keeps acls)

  apply_and_orphan-Keeps : Keeps OnApplying (apply_and_orphan H o)
  unfolding apply_and_orphan orphan
  apply_and_orphan-Keeps = Keeps-bind _ _ (apply_entries-Keeps o.baseline_users) (λ _.
      Keeps-bind _ _ (lift-Keeps _ (snapshot-Keeps H P closed.quiet))
        (λ snap. Keeps-bind _ _ (orphan_users-Keeps snap.users) (λ _. orphan_acls-Keeps snap.acls)))

  with_tables-Keeps :
      (tables : List UserRow × List AclRow) → Keeps (OnEnv H P) (with_tables H o tables)
  unfolding with_tables
  with_tables-Keeps (users, acls) = record { at = λ c p. apply_and_orphan-Keeps.at _ p }

  none_there-Keeps : (fault : Fault) → Keeps (OnEnv H P) (none_there H o fault)
  unfolding none_there
  none_there-Keeps (api code message) = Keeps-if _ _ _ (Keeps-pure _) (Keeps-raise _)
  none_there-Keeps (cli code message) = Keeps-raise _
  none_there-Keeps (value_error message) = Keeps-raise _
  none_there-Keeps (other exception) = Keeps-raise _

  query-Keeps : {A : Type 0} (f : H.Env → Result Fault A) → Keeps (OnEnv H P) (query H f)
  query-Keeps f = record { at = λ c p. p }

  -- The baseline only adds. A property of the environment is kept by a run, however it ends, if it is
  -- kept by pauses, by reading and writing origins.json, and by these commands for users other than
  -- the admin user of the options: adding a user with the role `user`, granting `rw` or `ro` on a
  -- topic, and, only if the options overwrite passwords, setting a password.
  pub apply_baseline-Keeps : Keeps (OnEnv H P) (apply_baseline H o)
  unfolding apply_baseline read_both
  apply_baseline-Keeps =
      Keeps-bind _ _
        (Keeps-catch _ _
          (Keeps-bind _ _ (query-Keeps _)
            (λ users. Keeps-bind _ _ (query-Keeps _) (λ acls. Keeps-pure _)))
          none_there-Keeps)
        (λ tables. with_tables-Keeps tables)
