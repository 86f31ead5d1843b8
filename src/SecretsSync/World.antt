-- ===== src/SecretsSync/World.antt =====
-- What the supervisor calls: the providers, the files, the clock and Home Assistant.
pub mod Lawful
use homeassistant_addons.Common.{ℕ, Bool, String, List, Option, Result}
use homeassistant_addons.Common.Dict.{Dict}
use homeassistant_addons.SecretsSync.Contract.{
  Problem, Snapshot, Bytes, CodedError, SyntheticFailure,
}
use homeassistant_addons.SecretsSync.State.{StateStore, SyntheticEntry}
use homeassistant_addons.SecretsSync.Guard.{Floats}

-- An exception: one of the program's own, with a code, or another, by its type's name.
pub data Fault : Type 0 where
  coded : CodedError → Fault
  other : String → Fault

-- An exception of the synthetic keys: a failure with a code and a name, or another.
pub data RenderFault : Type 0 where
  synthetic : SyntheticFailure → RenderFault
  unexpected : String → RenderFault

-- (level, code, message)
pub record Notice : Type 0 where
  pub level : String
  pub code : String
  pub message : String

pub record FilesResult : Type 0 where
  pub written : List String
  pub removed : List String
  pub skipped : List String

pub record Scan : Type 0 where
  pub files_scanned : ℕ
  pub truncated : Bool
  pub refs : Dict String (List (String × ℕ))
  pub counts : Dict String ℕ
  pub roots : List String

-- Every call returns the environment that it leaves.
pub record World : Type 1 where
  pub Env : Type 0
  pub clock : Env → ℕ × Env
  -- `_provider(name)`: load it, unless it is loaded
  pub load : String → Env → Result Fault (Unit {0}) × Env
  pub validate : String → Env → Result String (List Problem) × Env
  pub fetch : String → Env → Result Fault Snapshot × Env
  -- `self._wake`: its `set`, its `clear`, and `wait(timeout)`, which says whether it is set
  pub wake : Env → Env
  pub clear : Env → Env
  pub wait : ℕ → Env → Bool × Env
  -- `getattr(self._providers.get(name), "check", None)` is callable
  pub has_check : String → Env → Bool
  pub check : String → Env → Result Fault (Option String) × Env
  -- `getattr(provider, "notices", [])`
  pub notices : String → Env → List Notice
  -- `supervisor_reload`
  pub reload : Env → Result String (Option String) × Env
  -- `read_secrets`, `write_secrets` and `write_files`, on the configured paths
  pub read_secrets : Env → Option (Dict String String)
  pub write_secrets : Dict String String → Env → Result Fault Bool × Env
  pub write_files : Dict String Bytes → Env → Result Fault FilesResult × Env
  -- `synthetic.apply` and `synthetic.inspect`, which run Jinja
  pub render : Dict String String → List (String × String) → Result RenderFault (Dict String String)
  pub inspect : List (String × String) → List SyntheticEntry
  -- `usage.scan` of the configured roots
  pub scan : Env → Result String Scan
  -- `StateStore.save`, which never raises
  pub save : StateStore → Env → Env
  pub floats : Floats
