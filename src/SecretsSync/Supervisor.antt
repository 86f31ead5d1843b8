-- ===== src/SecretsSync/Supervisor.antt =====
-- secrets-sync/app/engine/supervisor.py: the object, and the helpers that all its methods use.
mod Tests
pub mod Fetch
pub mod Finish
pub mod Collect
pub mod Write
pub mod Cycle
pub mod Control
pub mod Env
pub mod EnvCycle
pub mod Safety
pub mod Life
pub mod Fatal
pub mod Atomic
pub mod Loop
use homeassistant_addons.Common.{
  ℕ, Bool, true, false, String, ◌<>◌, List, [], ◌∷◌, ◌++◌, Option, none, some, or_default, contains,
  string_eq, ◌==◌, not, is_some, Result, if◌then◌else◌,
}
use homeassistant_addons.Common.Action.{Action, pure, gets, modify, ◌>>=◌, ◌>>◌}
use homeassistant_addons.Common.Dict
use homeassistant_addons.Common.Dict.{Dict}
use homeassistant_addons.Common.Sort.{sort, str_le}
use homeassistant_addons.SecretsSync.Contract.{Problem, Snapshot}
use homeassistant_addons.SecretsSync.State.{StateStore, ProviderInfo, add_event}
use homeassistant_addons.SecretsSync.World.{World}
use homeassistant_addons.SecretsSync.Redact.{register, scrub}
use homeassistant_addons.SecretsSync.Usage.{minus}

-- The options that the supervisor reads.
pub record Config : Type 0 where
  pub providers : List String
  pub interval : ℕ
  pub collision_policy : String
  pub shrink_guard_percent : ℕ
  pub problems : List Problem
  pub usage_scan : String
  pub check_interval : ℕ
  pub synthetic_keys : List (String × String)

-- The fields of `Supervisor` that change. `known` are the values of its redactor. `active` and
-- the other sets are lists, of which only the members matter.
pub record Supervisor : Type 0 where
  pub reload_retry_at : Option ℕ
  pub known : List String
  pub running : Bool
  pub pending : Bool
  pub force : Bool
  pub last_attempt : ℕ
  pub fails : ℕ
  pub next_at : ℕ
  pub last_good : Dict String Snapshot
  pub pinfo : Dict String ProviderInfo
  pub last_written : Option (Dict String String)
  pub active : List String
  pub usage_at : Option ℕ
  pub tokens : Dict String String
  pub next_probe : Option ℕ
  pub check_errors : Dict String String
  pub announced : Dict String String
  pub usage_sigs : List String
  pub last_items : Option ℕ
  pub state : StateStore

-- The supervisor in its environment.
pub record Run (W : World) : Type 0 where
  pub env : W.Env
  pub sup : Supervisor

-- `_diff`: the names that were added, removed and changed.
pub record Diff : Type 0 where
  pub added : List String
  pub removed : List String
  pub changed : List String

abbrev differs : Option String → Option String → Bool
differs (some a) (some b) = not (a == b)
differs _ _ = false

unfoldable pub changed_keys : Dict String String → Dict String String → List String → List String
changed_keys old new [] = []
changed_keys old new (k ∷ ks) =
    let rest = changed_keys old new ks in
    if differs (Dict.get k new) (Dict.get k old) then k ∷ rest else rest

unfoldable pub diff : Dict String String → Dict String String → Diff
unfolding changed_keys minus
diff old new = record {
  added = sort str_le (minus (Dict.keys new) (Dict.keys old));
  removed = sort str_le (minus (Dict.keys old) (Dict.keys new));
  changed = sort str_le (changed_keys old new (Dict.keys new));
}

module _ (W : World) where
  abbrev pub S : Type 0 → Type 0
  S A = Action (Run W) A

  -- A field of the supervisor, and a change of some.
  abbrev pub get_sup : {A : Type 0} → (Supervisor → A) → S A
  get_sup f = gets (λ r. f r.sup)

  abbrev pub set_sup : (Supervisor → Supervisor) → S (Unit {0})
  set_sup f = modify (λ r. record r { sup = f r.sup })

  abbrev pub set_state : (StateStore → StateStore) → S (Unit {0})
  set_state f = set_sup (λ s. record s { state = f s.state })

  -- A call of the environment.
  abbrev pub call : {A : Type 0} → (W.Env → A × W.Env) → S A
  call f r = pure ((f r.env).0) (record r { env = (f r.env).1 })

  -- A call that may raise.
  abbrev pub call_raising : {A : Type 0} → (W.Env → Result String A × W.Env) → S A
  call_raising f r = ((f r.env).0, record r { env = (f r.env).1 })

  -- `self._clock()`
  abbrev pub now : S ℕ
  now = call W.clock

  -- `self.state.add_event(...)`, which reads the clock
  unfoldable pub event : String → String → String → Option String → S (Unit {0})
  event level code message provider = do
    t ← now
    set_state (add_event t level code message provider)

  -- `_clean`
  abbrev pub clean : String → S String
  clean text = get_sup (λ s. scrub s.known text)

  -- `f"{provider}:{code}:{message}"`
  abbrev pub signature : String → String → Option String → String
  signature code message provider =
      or_default provider "None" <> (":" <> (code <> (":" <> message)))

  -- `_emit`: an event for a condition that is not active yet; its signature.
  unfoldable pub emit : String → String → String → Option String → S String
  emit level code message provider = do
    active ← get_sup (λ s. s.active)
    shown ← clean message
    if contains active (signature code message provider)
        then pure tt
        else event level code shown provider
    pure (signature code message provider)
