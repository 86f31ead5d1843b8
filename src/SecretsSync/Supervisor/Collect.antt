-- ===== src/SecretsSync/Supervisor/Collect.antt =====
-- `_cycle` of supervisor.py, up to the merge: what the providers contribute.
use homeassistant_addons.Common.{
  ℕ, Bool, false, not, ◌&&◌, ◌||◌, String, ◌<>◌, List, [], ◌∷◌, ◌++◌, Option, none, some, ◌==◌,
  string_eq, Result, err, length, or_default, if◌then◌else◌,
}
use homeassistant_addons.Common.Action.{pure, gets, ◌>>=◌, ◌>>◌}
use homeassistant_addons.Common.Dict
use homeassistant_addons.SecretsSync.Contract.{Problem, Snapshot, CodedError}
use homeassistant_addons.SecretsSync.State.{ProviderInfo}
use homeassistant_addons.SecretsSync.World.{World, Notice}
use homeassistant_addons.SecretsSync.Merge.{Merged, merge}
use homeassistant_addons.SecretsSync.Supervisor.{S, Supervisor, get_sup, set_sup, emit}
use homeassistant_addons.SecretsSync.Supervisor.Fetch.{Fetched, fetch_provider, errors_of}

-- The variables `used`, `failed` and `sigs` of the loop over the fetches.
pub record Collected : Type 0 where
  pub used : List (String × Snapshot)
  pub failed : List Fetched
  pub sigs : List String

-- A fetch that succeeded.
unfoldable pub note_success : ℕ → String → List Problem → Snapshot → Supervisor → Supervisor
note_success t name problems snap s = record s {
  last_good = Dict.set name snap s.last_good;
  tokens = Dict.set name snap.check_token s.tokens;
  pinfo =
      Dict.set name
        (record {
          status = "ok";
          last_success_at = some t;
          items = length snap.secrets;
          error_code = none;
          problems = problems;
          revision = some snap.revision;
        })
        s.pinfo;
}

-- What `setdefault` inserts for a provider that has no information yet.
abbrev first_info : ProviderInfo
first_info = record {
  status = "";
  last_success_at = none;
  items = 0;
  error_code = none;
  problems = [];
  revision = some "";
}

-- A fetch that failed: what was held stays.
unfoldable pub note_failure : Fetched → Supervisor → Supervisor
note_failure f s =
    let info = or_default (Dict.get f.name s.pinfo) first_info in
    record s {
      pinfo =
          Dict.set f.name
            (record info {
              status = if Dict.has f.name s.last_good then "degraded" else "error";
              error_code = f.code;
              problems = f.problems;
            })
            s.pinfo;
    }

-- `fetched.code or default`
abbrev pub or_code : Option String → String → String
or_code none d = d
or_code (some c) d = if c == "" then d else c

-- `message == code`
abbrev is_code : Option String → String → Bool
is_code none message = false
is_code (some c) message = message == c

abbrev detail : Fetched → String
detail f = if not (f.message == "") && not (is_code f.code f.message) then ": " <> f.message else ""

-- `used.append((name, held))`
abbrev keep_held : Fetched → Option Snapshot → List (String × Snapshot) → List (String × Snapshot)
keep_held f none used = used
keep_held f (some held) used = if f.collision then used else used ++ (f.name, held) ∷ []

module _ (W : World) where
  unfoldable pub emit_problems : String → List Problem → List String → S W (List String)
  emit_problems name [] sigs = pure sigs
  emit_problems name (p ∷ ps) sigs = do
    sig ← emit W "error" p.code p.message (some name)
    emit_problems name ps (sigs ++ sig ∷ [])

  -- One round of the loop over the fetches.
  unfoldable pub collect_one : ℕ → Fetched → Option Snapshot → Collected → S W Collected
  collect_one t f (some snap) c = do
    set_sup W (note_success t f.name f.problems snap)
    pure (record c { used = c.used ++ (f.name, snap) ∷ [] })
  collect_one t f none c = do
    held ← get_sup W (λ s. Dict.get f.name s.last_good)
    set_sup W (note_failure f)
    sig ←
        emit W "error" (or_code f.code "provider_error")
          ("provider " <> (f.name <> (": " <> (or_default f.code "None" <> detail f))))
          (some f.name)
    sigs ← emit_problems f.name (errors_of f.problems) (c.sigs ++ sig ∷ [])
    pure (record { used = keep_held f held c.used; failed = c.failed ++ f ∷ []; sigs = sigs })

  unfoldable pub collect : ℕ → List Fetched → Collected → S W Collected
  collect t [] c = pure c
  collect t (f ∷ fs) c = do c' ← collect_one t f f.snapshot c; collect t fs c'

  -- `[self._fetch_provider(name) for name in self.cfg.providers]`
  unfoldable pub fetch_all : List String → S W (List Fetched)
  fetch_all [] = pure []
  fetch_all (name ∷ names) = do f ← fetch_provider W name; fs ← fetch_all names; pure (f ∷ fs)

  unfoldable pub emit_notices : String → List Notice → List String → S W (List String)
  emit_notices name [] sigs = pure sigs
  emit_notices name (n ∷ ns) sigs = do
    sig ← emit W n.level n.code n.message (some name)
    emit_notices name ns (sigs ++ sig ∷ [])

  -- The loop over the providers' notices.
  unfoldable pub all_notices : List Fetched → List String → S W (List String)
  all_notices [] sigs = pure sigs
  all_notices (f ∷ fs) sigs = do
    notices ← gets (λ r. W.notices f.name r.env)
    sigs' ← emit_notices f.name notices sigs
    all_notices fs sigs'

-- `next((f for f in failed if f.collision), None)`
unfoldable pub collided : List Fetched → Option Fetched
collided [] = none
collided (f ∷ fs) = let rest = collided fs in if f.collision then some f else rest

-- `any(f.name not in self._last_good for f in failed)`
unfoldable pub any_lost : Dict.Dict String Snapshot → List Fetched → Bool
any_lost last_good [] = false
any_lost last_good (f ∷ fs) = not (Dict.has f.name last_good) || any_lost last_good fs

abbrev first_code : List Fetched → String
first_code [] = "provider_error"
first_code (f ∷ fs) = or_code f.code "provider_error"

-- The merge, or the fatal error in its place.
unfoldable pub merge_or_fail :
    String → Dict.Dict String Snapshot → Collected → Result CodedError Merged
unfolding collided any_lost
merge_or_fail policy last_good c = elim (collided c.failed) [
  | some f ↦ err (record { code = "key_collision"; message = f.message })
  | none ↦
      if any_lost last_good c.failed
      then err (record {
        code = first_code c.failed;
        message = "provider failed and nothing is held in memory";
      })
      else merge c.used policy
]
