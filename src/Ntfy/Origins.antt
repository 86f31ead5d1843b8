-- ===== src/Ntfy/Origins.antt =====
-- ntfy/app/origins.py: which source created a user, a rule or a token. An access first takes over the
-- file of another process, and a write stores the document at once.
pub mod Laws
pub mod Kept
pub mod Quiet
use homeassistant_addons.Common.{
  ℕ, zero, suc, ◌+◌, ◌-◌, Bool, true, false, not, String, List, [], ◌∷◌, Option, none, some,
  or_default, is_empty, contains, ◌==◌, string_eq, eqb, length, Result, ok, err, if◌then◌else◌,
}
use homeassistant_addons.Common.Action.{pure, raise, gets, modify, ◌>>=◌, ◌>>◌}
use homeassistant_addons.Common.Dict
use homeassistant_addons.Common.Dict.{Dict}
use homeassistant_addons.Ntfy.Contract.{Fault, value_error, known_origins}
use homeassistant_addons.Ntfy.Host.{Host, Doc, StashRule, Ctx, M, call, call_raising}

abbrev pub default_origin : String
default_origin = "gui"

-- `_empty()`
abbrev pub empty : Doc
empty = record { users = []; acls = []; tokens = []; acl_stash = [] }

-- `section.get(user, {})`
abbrev pub inner : String → Dict String (Dict String String) → Dict String String
inner user section = or_default (Dict.get user section) []

-- `self._doc[section].get(user, {}).get(key, DEFAULT_ORIGIN)`
unfoldable pub origin_of : String → String → Dict String (Dict String String) → String
origin_of user key section = or_default (Dict.get key (inner user section)) default_origin

-- `self._doc[section].setdefault(user, {})[key] = origin`
unfoldable pub put_inner :
    String → String → String → Dict String (Dict String String) → Dict String (Dict String String)
put_inner user key origin section = Dict.set user (Dict.set key origin (inner user section)) section

-- `rules.pop(key, None)`, and the user's entry goes with its last record.
unfoldable pub drop_inner :
    String → String → Dict String (Dict String String) → Dict String (Dict String String)
drop_inner user key section =
    if Dict.has user section
    then if is_empty (Dict.remove key (inner user section))
      then Dict.remove user section
      else Dict.set user (Dict.remove key (inner user section)) section
    else section

-- The document without a user: rules, tokens and stash go too.
unfoldable pub without_user : String → Doc → Doc
without_user name d = record {
  users = Dict.remove name d.users;
  acls = Dict.remove name d.acls;
  tokens = Dict.remove name d.tokens;
  acl_stash = Dict.remove name d.acl_stash;
}

-- `prune`: the users that are live, and how many are dropped.
unfoldable pub live_names : (String → Bool) → Dict String String → Dict String String
live_names live [] = []
live_names live ((name, origin) ∷ d) =
    let rest = live_names live d in if live name then (name, origin) ∷ rest else rest

-- The entries of a section without the dead records, and without the users that have none left.
unfoldable pub live_section :
    (String → String → Bool) → Dict String (Dict String String) → Dict String (Dict String String)
live_section live [] = []
live_section live ((user, records) ∷ section) =
    let rest = live_section live section in
    let left = live_names (live user) records in if is_empty left then rest else (user, left) ∷ rest

unfoldable pub dead_records : (String → String → Bool) → Dict String (Dict String String) → ℕ
dead_records live [] = 0
dead_records live ((user, records) ∷ section) =
    (length records - length (live_names (live user) records)) + dead_records live section

unfoldable pub pruned :
    (String → Bool) → (String → String → Bool) → (String → String → Bool) → Doc → Doc
pruned users acls tokens d = record d {
  users = live_names users d.users;
  acls = live_section acls d.acls;
  tokens = live_section tokens d.tokens;
}

unfoldable pub prune_count :
    (String → Bool) → (String → String → Bool) → (String → String → Bool) → Doc → ℕ
prune_count users acls tokens d =
    (length d.users - length (live_names users d.users))
    + (dead_records acls d.acls + dead_records tokens d.tokens)

-- `_check_origin` on the rules of a stash: whether one is not known.
unfoldable pub all_known : List StashRule → Bool
all_known [] = true
all_known (rule ∷ rules) = if contains known_origins rule.origin then all_known rules else false

module _ (H : Host) where
  abbrev taken : Option Doc → M H (Unit {0})
  taken none = pure tt
  taken (some d) = modify (λ c. record c { doc = d })

  -- `_refresh`
  unfoldable pub refresh : M H (Unit {0})
  refresh = do changed ← call H H.refresh; taken changed

  -- `with self._read(): return f(self._doc)`
  unfoldable pub read : {A : Type 0} → (Doc → A) → M H A
  read f = do refresh; gets (λ c. f c.doc)

  unfoldable pub save : M H (Unit {0})
  save = do d ← gets (λ c. c.doc); call_raising H (H.save d)

  -- `with self._txn(): self._doc = f(self._doc); self._save()`
  unfoldable pub write : (Doc → Doc) → M H (Unit {0})
  write f = do refresh; modify (λ c. record c { doc = f c.doc }); save

  -- `_check_origin`
  abbrev check_origin : String → M H (Unit {0})
  check_origin origin =
      if contains known_origins origin then pure tt else raise (value_error "unknown origin")

  unfoldable pub get_user : String → M H String
  get_user name = read (λ d. or_default (Dict.get name d.users) default_origin)

  unfoldable pub get_acl : String → String → M H String
  get_acl user topic = read (λ d. origin_of user topic d.acls)

  unfoldable pub get_token : String → String → M H String
  get_token user id = read (λ d. origin_of user id d.tokens)

  unfoldable pub snapshot : M H Doc
  snapshot = read (λ d. d)

  unfoldable pub set_user : String → String → M H (Unit {0})
  set_user name origin = do
    check_origin origin
    write (λ d. record d { users = Dict.set name origin d.users })

  unfoldable pub set_acl : String → String → String → M H (Unit {0})
  set_acl user topic origin = do
    check_origin origin
    write (λ d. record d { acls = put_inner user topic origin d.acls })

  -- The ids of tokens come from the digest, so the test of their form is true.
  unfoldable pub set_token : String → String → String → M H (Unit {0})
  set_token user id origin = do
    check_origin origin
    write (λ d. record d { tokens = put_inner user id origin d.tokens })

  unfoldable pub drop_user : String → M H (Unit {0})
  drop_user name = write (without_user name)

  unfoldable pub drop_acl : String → String → M H (Unit {0})
  drop_acl user topic = write (λ d. record d { acls = drop_inner user topic d.acls })

  unfoldable pub drop_token : String → String → M H (Unit {0})
  drop_token user id = write (λ d. record d { tokens = drop_inner user id d.tokens })

  unfoldable pub clear_acls : M H (Unit {0})
  clear_acls = write (λ d. record d { acls = [] })

  unfoldable pub clear_all : M H (Unit {0})
  clear_all = write (λ _. empty)

  unfoldable pub stash_acl : String → List StashRule → M H (Unit {0})
  stash_acl user rules =
      if all_known rules
      then write (λ d. record d { acl_stash = Dict.set user rules d.acl_stash })
      else raise (value_error "unknown origin")

  unfoldable pub pop_acl_stash : String → M H (List StashRule)
  pop_acl_stash user = do
    refresh
    rules ← gets (λ c. or_default (Dict.get user c.doc.acl_stash) [])
    modify (λ c. record c { doc = record c.doc { acl_stash = Dict.remove user c.doc.acl_stash } })
    save
    pure rules

  -- The document is stored only if something was removed.
  unfoldable pub prune :
      (String → Bool) → (String → String → Bool) → (String → String → Bool) → M H ℕ
  prune users acls tokens = do
    refresh
    removed ← gets (λ c. prune_count users acls tokens c.doc)
    modify (λ c. record c { doc = pruned users acls tokens c.doc })
    if eqb removed 0 then pure tt else save
    pure removed
