-- ===== src/SecretsSync/Supervisor/Fetch.antt =====
-- `_provider` and `_fetch_provider` of supervisor.py.
use homeassistant_addons.Common.{
  Bool, false, String, ◌<>◌, List, [], ◌∷◌, Option, none, some, ◌==◌, string_eq, Result, ok, err,
  if◌then◌else◌,
}
use homeassistant_addons.Common.Action.{pure, raise, ◌>>=◌, ◌>>◌}
use homeassistant_addons.Common.Dict
use homeassistant_addons.SecretsSync.Contract.{Problem, Snapshot}
use homeassistant_addons.SecretsSync.World.{World, Fault, coded, other}
use homeassistant_addons.SecretsSync.Redact.{register}
use homeassistant_addons.SecretsSync.Supervisor.{S, set_sup, call, clean}

-- `_Fetch`
pub record Fetched : Type 0 where
  pub name : String
  pub snapshot : Option Snapshot
  pub code : Option String
  pub message : String
  pub problems : List Problem
  pub collision : Bool

-- `[p for p in problems if p.severity == "error"]`
unfoldable pub errors_of : List Problem → List Problem
errors_of [] = []
errors_of (p ∷ ps) = let rest = errors_of ps in if p.severity == "error" then p ∷ rest else rest

-- What `validate` reports; an exception becomes a problem.
abbrev problems_of : Result String (List Problem) → List Problem
problems_of (ok problems) = problems
problems_of (err exception) =
    record {
      code = "validate_failed";
      message = "validate raised " <> exception;
      severity = "error";
    }
    ∷ []

module _ (W : World) (name : String) where
  abbrev failure : String → String → List Problem → Bool → Fetched
  failure code message problems collision = record {
    name = name;
    snapshot = none;
    code = some code;
    message = message;
    problems = problems;
    collision = collision;
  }

  -- The handlers of `provider.fetch()`.
  unfoldable pub fetched : List Problem → Result Fault Snapshot → S W Fetched
  fetched problems (ok snap) = do
    set_sup W (λ s. record s { known = register s.known (Dict.values snap.secrets) })
    pure (record {
      name = name;
      snapshot = some snap;
      code = none;
      message = "";
      problems = problems;
      collision = false;
    })
  fetched problems (err (coded e)) = do
    message ← clean W e.message
    pure (failure e.code message problems (e.code == "key_collision"))
  fetched problems (err (other exception)) =
      pure (failure "provider_internal_error" ("unexpected " <> exception) problems false)

  -- From the blocking problems on.
  unfoldable pub try_fetch : List Problem → List Problem → S W Fetched
  try_fetch problems (p ∷ _) = pure (failure p.code p.message problems false)
  try_fetch problems [] = do result ← call W (W.fetch name); fetched problems result

  -- `except ProviderLoadError`; any other exception goes on.
  unfoldable pub loaded : Result Fault (Unit {0}) → S W Fetched
  loaded (err (other exception)) = raise exception
  loaded (err (coded e)) = pure (
      failure e.code e.message
        (record { code = e.code; message = e.message; severity = "error" } ∷ []) false)
  loaded (ok _) = do
    outcome ← call W (W.validate name)
    try_fetch (problems_of outcome) (errors_of (problems_of outcome))

  unfoldable pub fetch_provider : S W Fetched
  fetch_provider = do outcome ← call W (W.load name); loaded outcome
