-- ===== src/SecretsSync/State.antt =====
-- secrets-sync/app/engine/state.py: the state that is shown to users, names only. A point in time
-- is a number of seconds, and stands for its ISO text too.
use homeassistant_addons.Common.{
  ℕ, ◌-◌, ◌*◌, Bool, false, String, List, [], ◌∷◌, Option, none, some, ltb, take, ◌==◌, string_eq,
  if◌then◌else◌,
}
use homeassistant_addons.Common.Dict.{Dict}
use homeassistant_addons.SecretsSync.Contract.{Problem}

pub record Event : Type 0 where
  pub at : ℕ
  pub level : String
  pub code : String
  pub message : String
  pub provider : Option String

-- `synthetic` is there while synthetic keys are configured.
pub record Keys : Type 0 where
  pub names : List String
  pub added : List String
  pub removed : List String
  pub changed : List String
  pub synthetic : Option (List String)

-- `revision` is missing until the first fetch.
pub record ProviderInfo : Type 0 where
  pub status : String
  pub last_success_at : Option ℕ
  pub items : ℕ
  pub error_code : Option String
  pub problems : List Problem
  pub revision : Option String

pub record GuardReport : Type 0 where
  pub new_items : ℕ
  pub last_items : Option ℕ
  pub removed : List String
  pub added : List String
  pub changed : List String

pub record CheckState : Type 0 where
  pub enabled : Bool
  pub interval : ℕ
  pub last_check_at : Option ℕ
  pub result : Option String
  pub error_code : Option String
  pub triggered_syncs : ℕ

pub record SyntheticEntry : Type 0 where
  pub name : String
  pub template : String
  pub refs : List String
  pub status : String
  pub error_code : Option String

-- The usage block: where a key is referenced, and how often.
pub record UsageEntry : Type 0 where
  pub count : ℕ
  pub refs : List (String × ℕ)

pub record UsageBlock : Type 0 where
  pub roots : List String
  pub files_scanned : ℕ
  pub truncated : Bool
  pub used : Dict String UsageEntry
  pub missing : Dict String UsageEntry
  pub unused : List String
  pub scanned_at : ℕ

-- `usage` is none until the first scan.
pub record StateStore : Type 0 where
  pub interval : ℕ
  pub started_at : ℕ
  pub status : String
  pub error_code : Option String
  pub last_attempt_at : Option ℕ
  pub last_success_at : Option ℕ
  pub next_sync_at : Option ℕ
  pub items : ℕ
  pub keys : Keys
  pub providers : Dict String ProviderInfo
  pub events : List Event
  pub usage : Option UsageBlock
  pub synthetic : List SyntheticEntry
  pub guard : Option GuardReport
  pub check : CheckState

abbrev pub max_events : ℕ
max_events = 50

-- `StateStore(path, interval, versions, clock)`, at the time `now`
unfoldable pub new_store : ℕ → ℕ → StateStore
new_store interval now = record {
  interval = interval;
  started_at = now;
  status = "starting";
  error_code = none;
  last_attempt_at = none;
  last_success_at = none;
  next_sync_at = none;
  items = 0;
  keys = record { names = []; added = []; removed = []; changed = []; synthetic = none };
  providers = [];
  events = [];
  usage = none;
  synthetic = [];
  guard = none;
  check = record {
    enabled = false;
    interval = 0;
    last_check_at = none;
    result = none;
    error_code = none;
    triggered_syncs = 0;
  };
}

-- `if provider:`
abbrev named : Option String → Option String
named none = none
named (some name) = if name == "" then none else some name

-- `add_event`: the newest event first, and at most `MAX_EVENTS` of them. An empty provider name is
-- no provider.
unfoldable pub add_event : ℕ → String → String → String → Option String → StateStore → StateStore
add_event now level code message provider st = record st {
  events = take max_events (
      record { at = now; level = level; code = code; message = message; provider = named provider }
      ∷ st.events);
}

-- `render()["stale"]`. Where the clock ran backwards the difference is negative, and not stale.
unfoldable pub is_stale : StateStore → ℕ → Bool
is_stale st now = elim st.last_success_at [
  | some t ↦ ltb (2 * st.interval) (now - t)
  | none ↦ ltb (2 * st.interval) (now - st.started_at)
]
