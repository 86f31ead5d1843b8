-- ===== src/Ntfy/Origins/Kept.antt =====
-- The form of the stored document, kept by every operation of the store.
use homeassistant_addons.Common.{
  ◌≡◌, refl, Bool, String, List, [], Option, none, some, eqb, contains, string_eq,
}
use homeassistant_addons.Common.Action.{modify, ◌>>=◌, ◌>>◌}
use homeassistant_addons.Common.Action.Keeps.{
  Keeps, Keeps-pure, Keeps-raise, Keeps-gets, Keeps-if, Keeps-bind,
}
use homeassistant_addons.Common.Dict
use homeassistant_addons.Common.Dict.{Dict}
use homeassistant_addons.Ntfy.Contract.{Fault, value_error, known_origins}
use homeassistant_addons.Ntfy.Host.{Host, Doc, StashRule, Ctx}
use homeassistant_addons.Ntfy.Origins.{
  without_user, put_inner, drop_inner, pruned, empty, all_known, taken, check_origin, refresh, save,
  write, set_user, set_acl, set_token, drop_user, drop_acl, drop_token, clear_acls, clear_all,
  stash_acl, pop_acl_stash, prune,
}
use homeassistant_addons.Ntfy.Origins.Laws.{
  Section, IsSection, put_inner-IsSection, drop_inner-IsSection, remove-IsSection,
  live_section-IsSection,
}

-- Both sections name no user twice and keep no user without records.
pub record IsTidy (d : Doc) : Type 0 where
  pub acls_tidy : IsSection d.acls
  pub tokens_tidy : IsSection d.tokens

module _ (H : Host) where
  abbrev pub TidyCtx : Ctx H → Type 0
  TidyCtx c = IsTidy c.doc

  -- The documents that are read from the file are tidy.
  abbrev pub ReadsTidy : Type 0
  ReadsTidy = (e : H.Env) (d : Doc) → (H.refresh e).0 ≡ some d → IsTidy d

  -- Every operation that changes the store keeps its document tidy.
  abbrev pub AllKeep :
      String
      → String
      → String
      → List StashRule
      → (String → Bool)
      → (String → String → Bool)
      → (String → String → Bool)
      → Type 0
  AllKeep user key origin rules users acls tokens =
      Keeps TidyCtx (set_user H user origin)
      × Keeps TidyCtx (set_acl H user key origin)
      × Keeps TidyCtx (set_token H user key origin)
      × Keeps TidyCtx (drop_user H user)
      × Keeps TidyCtx (drop_acl H user key)
      × Keeps TidyCtx (drop_token H user key)
      × Keeps TidyCtx (clear_acls H)
      × Keeps TidyCtx (clear_all H)
      × Keeps TidyCtx (stash_acl H user rules)
      × Keeps TidyCtx (pop_acl_stash H user)
      × Keeps TidyCtx (prune H users acls tokens)

module _ (H : Host) (reads : ReadsTidy H) where
  took :
      (r : Option Doc) (c : Ctx H)
      → TidyCtx H c
      → ((d : Doc) → r ≡ some d → IsTidy d)
      → TidyCtx H (taken H r c).1
  took none c t h = t
  took (some d) c t h = h d refl

  pub refresh-Keeps : Keeps (TidyCtx H) (refresh H)
  unfolding refresh ◌>>=◌
  refresh-Keeps = record {
    at = λ c t. took (H.refresh c.env).0 (record c { env = (H.refresh c.env).1 }) t (reads c.env);
  }

  save-Keeps : Keeps (TidyCtx H) (save H)
  unfolding save ◌>>=◌
  save-Keeps = record { at = λ c t. t }

  modified :
      (f : Doc → Doc)
      → ((d : Doc) → IsTidy d → IsTidy (f d))
      → Keeps {E = Fault} (TidyCtx H) (modify (λ c. record c { doc = f c.doc }))
  modified f h = record { at = λ c t. h c.doc t }

  write-Keeps :
      (f : Doc → Doc) → ((d : Doc) → IsTidy d → IsTidy (f d)) → Keeps (TidyCtx H) (write H f)
  unfolding write
  write-Keeps f h =
      Keeps-bind _ _ refresh-Keeps (λ _. Keeps-bind _ _ (modified f h) (λ _. save-Keeps))

  pruned-IsTidy :
      (users : String → Bool) (acls tokens : String → String → Bool) (d : Doc)
      → IsTidy d
      → IsTidy (pruned users acls tokens d)
  unfolding pruned
  pruned-IsTidy users acls tokens d t = record {
    acls_tidy = live_section-IsSection acls d.acls t.acls_tidy;
    tokens_tidy = live_section-IsSection tokens d.tokens t.tokens_tidy;
  }

  stash-IsTidy :
      (f : Doc → Dict String (List StashRule)) (d : Doc)
      → IsTidy d
      → IsTidy (record d { acl_stash = f d })
  stash-IsTidy f d t = record { acls_tidy = t.acls_tidy; tokens_tidy = t.tokens_tidy }

  abbrev unstashed : String → Doc → Doc
  unstashed user d = record d { acl_stash = Dict.remove user d.acl_stash }

  pop-Keeps : (user : String) → Keeps (TidyCtx H) (pop_acl_stash H user)
  unfolding pop_acl_stash
  pop-Keeps user = Keeps-bind _ _ refresh-Keeps (λ _. Keeps-bind _ _ (Keeps-gets _) (λ rules.
      Keeps-bind _ _ (modified (unstashed user) (stash-IsTidy (λ d. Dict.remove user d.acl_stash)))
        (λ _. Keeps-bind _ _ save-Keeps (λ _. Keeps-pure rules))))

  prune-Keeps :
      (users : String → Bool) (acls tokens : String → String → Bool)
      → Keeps (TidyCtx H) (prune H users acls tokens)
  unfolding prune
  prune-Keeps users acls tokens = Keeps-bind _ _ refresh-Keeps (λ _.
      Keeps-bind _ _ (Keeps-gets _) (λ removed.
        Keeps-bind _ _ (modified (pruned users acls tokens) (pruned-IsTidy users acls tokens)) (λ _.
          Keeps-bind _ _ (Keeps-if (eqb removed 0) _ _ (Keeps-pure tt) save-Keeps)
            (λ _. Keeps-pure removed))))

  checked-Keeps :
      (origin : String) (f : Doc → Doc)
      → ((d : Doc) → IsTidy d → IsTidy (f d))
      → Keeps (TidyCtx H) (check_origin H origin >> write H f)
  checked-Keeps origin f h =
      Keeps-bind _ _
        (Keeps-if (contains known_origins origin) _ _ (Keeps-pure tt)
          (Keeps-raise (value_error "unknown origin")))
        (λ _. write-Keeps f h)

  acls_to :
      (f : Section → Section)
      → ((s : Section) → IsSection s → IsSection (f s))
      → (d : Doc) → IsTidy d
      → IsTidy (record d { acls = f d.acls })
  acls_to f h d t = record { acls_tidy = h d.acls t.acls_tidy; tokens_tidy = t.tokens_tidy }

  tokens_to :
      (f : Section → Section)
      → ((s : Section) → IsSection s → IsSection (f s))
      → (d : Doc) → IsTidy d
      → IsTidy (record d { tokens = f d.tokens })
  tokens_to f h d t = record { acls_tidy = t.acls_tidy; tokens_tidy = h d.tokens t.tokens_tidy }

  -- If the documents that are read are tidy, which means that the sections of rules and tokens name no
  -- user twice and have no user without records, then every operation that changes the store keeps its
  -- document tidy, however it ends.
  pub store-Keeps :
      (user key origin : String) (rules : List StashRule) (users : String → Bool)
      (acls tokens : String → String → Bool)
      → AllKeep H user key origin rules users acls tokens
  unfolding set_user set_acl set_token drop_user drop_acl drop_token clear_acls clear_all stash_acl
      without_user
  store-Keeps user key origin rules users acls tokens = (
    checked-Keeps origin (λ d. record d { users = Dict.set user origin d.users })
        (λ d t. record { acls_tidy = t.acls_tidy; tokens_tidy = t.tokens_tidy }),
    checked-Keeps origin (λ d. record d { acls = put_inner user key origin d.acls })
        (acls_to (λ s. put_inner user key origin s) (put_inner-IsSection user key origin)),
    checked-Keeps origin (λ d. record d { tokens = put_inner user key origin d.tokens })
        (tokens_to (λ s. put_inner user key origin s) (put_inner-IsSection user key origin)),
    write-Keeps (without_user user) (λ d t. record {
      acls_tidy = remove-IsSection user d.acls t.acls_tidy;
      tokens_tidy = remove-IsSection user d.tokens t.tokens_tidy;
    }),
    write-Keeps (λ d. record d { acls = drop_inner user key d.acls })
        (acls_to (λ s. drop_inner user key s) (drop_inner-IsSection user key)),
    write-Keeps (λ d. record d { tokens = drop_inner user key d.tokens })
        (tokens_to (λ s. drop_inner user key s) (drop_inner-IsSection user key)),
    write-Keeps (λ d. record d { acls = [] }) (acls_to (λ _. []) (λ s t. (tt, tt))),
    write-Keeps (λ _. empty) (λ d t. record { acls_tidy = (tt, tt); tokens_tidy = (tt, tt) }),
    Keeps-if (all_known rules) _ _
        (write-Keeps (λ d. record d { acl_stash = Dict.set user rules d.acl_stash })
          (stash-IsTidy (λ d. Dict.set user rules d.acl_stash)))
        (Keeps-raise (value_error "unknown origin")),
    pop-Keeps user,
    prune-Keeps users acls tokens,
  )
