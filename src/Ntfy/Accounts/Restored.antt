-- ===== src/Ntfy/Accounts/Restored.antt =====
-- A demotion that fails on a rule keeps the rules that it has not restored.
use homeassistant_addons.Common.{
  ◌≡◌, refl, sym, ap, ◌∙◌, ◌++◌, is_empty, true, false, String, List, [], ◌∷◌, none, some, contains,
  string_eq, arith, Result, ok, err,
}
use homeassistant_addons.Common.Action.{catch, ◌>>=◌}
use homeassistant_addons.Common.Dict
use homeassistant_addons.Common.Dict.{Dict, get-set}
use homeassistant_addons.Ntfy.Contract.{Fault, known_origins}
use homeassistant_addons.Ntfy.Host.{Host, StashRule, Ctx, Doc}
use homeassistant_addons.Ntfy.Cli.{access_set}
use homeassistant_addons.Ntfy.Cli.Commands.{access_set-Keeps}
use homeassistant_addons.Ntfy.Origins.Laws.{Section}
use homeassistant_addons.Ntfy.Origins.{
  refresh, save, write, set_acl, put_inner, stash_acl, all_known,
}
use homeassistant_addons.Ntfy.Accounts.{keep_rest, restore}

-- The records of rules that are restored one by one.
abbrev pub put_all : String → List StashRule → Section → Section
put_all name [] acls = acls
put_all name (rule ∷ rules) acls = put_all name rules (put_inner name rule.topic rule.origin acls)

module _ (H : Host) where
  -- What a run over `rules` leaves, from the records `acls`: a return has recorded every rule, and an
  -- exception leaves the rules after those that are recorded in the stash, one at least.
  abbrev pub Restored : String → List StashRule → Section → Result Fault (Unit {0}) × Ctx H → Type 0
  Restored name rules acls (ok _, c) = c.doc.acls ≡ put_all name rules acls
  Restored name rules acls (err fault, c) =
      (before : List StashRule) × (rest : List StashRule) × (before ++ rest ≡ rules)
      × (is_empty rest ≡ false)
      × (c.doc.acls ≡ put_all name before acls)
      × (Dict.get name c.doc.acl_stash ≡ some rest)

  -- No other process writes origins.json, and it can be written.
  pub record Alone : Type 0 where
    pub unchanged : (e : H.Env) → (H.refresh e).0 ≡ none
    pub saves : (d : Doc) (e : H.Env) → (H.save d e).0 ≡ ok tt

module _ (H : Host) (alone : Alone H) where
  abbrev written : (Doc → Doc) → Ctx H → Ctx H
  written f c = record { env = (H.save (f c.doc) (H.refresh c.env).1).1; doc = f c.doc }

  write_lem : (f : Doc → Doc) (c : Ctx H) → write H f c ≡ (ok tt, written f c)
  unfolding write refresh save ◌>>=◌
  write_lem f c = rw (alone.unchanged c.env, alone.saves (f c.doc) (H.refresh c.env).1)

  abbrev stashed : String → List StashRule → Doc → Doc
  stashed name rules d = record d { acl_stash = Dict.set name rules d.acl_stash }

  abbrev recorded : String → StashRule → Doc → Doc
  recorded name rule d = record d { acls = put_inner name rule.topic rule.origin d.acls }

  keep_rest_lem :
      (admin name : String) (rest : List StashRule) (fault : Fault) (c : Ctx H)
      → all_known rest ≡ true
      → keep_rest H admin name rest fault c ≡ (err fault, written (stashed name rest) c)
  unfolding keep_rest stash_acl ◌>>=◌
  keep_rest_lem admin name rest fault c k = rw (k, write_lem (stashed name rest) c)

  set_acl_lem :
      (name : String) (rule : StashRule) (c : Ctx H)
      → contains known_origins rule.origin ≡ true
      → set_acl H name rule.topic rule.origin c ≡ (ok tt, written (recorded name rule) c)
  unfolding set_acl ◌>>=◌
  set_acl_lem name rule c k = rw (k, write_lem (recorded name rule) c)

  module _ (admin name : String) (rule : StashRule) (rules : List StashRule) (c : Ctx H) where
    restore-failed :
        (fault : Fault) (after : Ctx H)
        → access_set H name rule.topic rule.permission c ≡ (err fault, after)
        → all_known (rule ∷ rules) ≡ true
        → restore H admin name (rule ∷ rules) c
          ≡ (err fault, written (stashed name (rule ∷ rules)) after)
    unfolding restore catch ◌>>=◌
    restore-failed fault after e k = rw (e, keep_rest_lem admin name (rule ∷ rules) fault after k)

    restore-passed :
        (u : Unit {0}) (after : Ctx H)
        → access_set H name rule.topic rule.permission c ≡ (ok u, after)
        → contains known_origins rule.origin ≡ true
        → restore H admin name (rule ∷ rules) c
          ≡ restore H admin name rules (written (recorded name rule) after)
    unfolding restore catch ◌>>=◌
    restore-passed u after e k = rw (e, set_acl_lem name rule after k)

  Restored-more :
      (name : String) (rule : StashRule) (rules : List StashRule) (acls : Section)
      (r : Result Fault (Unit {0}) × Ctx H)
      → Restored H name rules (put_inner name rule.topic rule.origin acls) r
      → Restored H name (rule ∷ rules) acls r
  Restored-more name rule rules acls (ok u, c) h = h
  Restored-more name rule rules acls (err fault, c) (before, rest, e, n, a, g) =
      (rule ∷ before, rest, ap (λ xs. rule ∷ xs) e, n, a, g)

  -- A command leaves the document as it is.
  access_set-doc :
      (name topic permission : String) (c after : Ctx H) (r : Result Fault (Unit {0}))
      → access_set H name topic permission c ≡ (r, after)
      → after.doc.acls ≡ c.doc.acls
  access_set-doc name topic permission c after r e =
      sym (ap (λ (x : Result Fault (Unit {0}) × Ctx H). x.1.doc.acls) e)
      ∙ (access_set-Keeps H (λ k. k.doc.acls ≡ c.doc.acls) (λ k p. p) name topic permission
            (λ w k p. p)).at
          c refl

  known-tail :
      (rule : StashRule) (rules : List StashRule)
      → all_known (rule ∷ rules) ≡ true
      → (contains known_origins rule.origin ≡ true) × (all_known rules ≡ true)
  unfolding all_known
  known-tail rule rules k = ground arith

  restore-step :
      (admin name : String) (rule : StashRule) (rules : List StashRule) (c : Ctx H)
      → all_known (rule ∷ rules) ≡ true
      → ((after : Ctx H) → Restored H name rules after.doc.acls (restore H admin name rules after))
      → (r : Result Fault (Unit {0}) × Ctx H) → access_set H name rule.topic rule.permission c ≡ r
      → Restored H name (rule ∷ rules) c.doc.acls (restore H admin name (rule ∷ rules) c)
  restore-step admin name rule rules c k later (err fault, after) e =
      rw (restore-failed admin name rule rules c fault after e k) (
        [],
        rule ∷ rules,
        refl,
        refl,
        access_set-doc name rule.topic rule.permission c after (err fault) e,
        ground (arith, get-set name name (rule ∷ rules) after.doc.acl_stash),
      )
  restore-step admin name rule rules c k later (ok u, after) e =
      rw (restore-passed admin name rule rules c u after e (known-tail rule rules k).0) (
        Restored-more name rule rules c.doc.acls
          (restore H admin name rules (written (recorded name rule) after))
          (rw (sym (access_set-doc name rule.topic rule.permission c after (ok u) e))
            (later (written (recorded name rule) after))))

  -- Where no other process writes origins.json and it can be written, a run over rules with known
  -- origins loses none: when it returns, each is recorded with its origin, and when it raises an
  -- exception, the rules are those that are recorded and, from the first that is not, those in the
  -- user's stash.
  pub restore-Restored :
      (admin name : String) (rules : List StashRule) (c : Ctx H)
      → all_known rules ≡ true
      → Restored H name rules c.doc.acls (restore H admin name rules c)
  unfolding restore
  restore-Restored admin name [] c k = refl
  restore-Restored admin name (rule ∷ rules) c k =
      restore-step admin name rule rules c k
        (λ after. restore-Restored admin name rules after (known-tail rule rules k).1)
        (access_set H name rule.topic rule.permission c) refl
