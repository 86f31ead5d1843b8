-- ===== src/SecretsSync/World/Lawful.antt =====
-- What the supervisor relies on: only `write_secrets` changes secrets.yaml, and it writes all of the
-- new set or nothing (writer.py replaces the file in one step). An error can come before the replacement
-- or after it, from the sync of the folder or the change of the mode.
use homeassistant_addons.Common.{ℕ, ◌≡◌, ◌⊎◌, Bool, String, Option, some, ok, err}
use homeassistant_addons.Common.Dict.{Dict}
use homeassistant_addons.SecretsSync.Contract.{Bytes}
use homeassistant_addons.SecretsSync.State.{StateStore}
use homeassistant_addons.SecretsSync.World.{World, Fault}

pub record View (W : World) : Type 0 where
  -- The keys and values in secrets.yaml.
  pub content : W.Env → Option (Dict String String)
  pub clock_keeps : (e : W.Env) → content ((W.clock e).1) ≡ content e
  pub load_keeps : (name : String) (e : W.Env) → content ((W.load name e).1) ≡ content e
  pub validate_keeps : (name : String) (e : W.Env) → content ((W.validate name e).1) ≡ content e
  pub fetch_keeps : (name : String) (e : W.Env) → content ((W.fetch name e).1) ≡ content e
  pub check_keeps : (name : String) (e : W.Env) → content ((W.check name e).1) ≡ content e
  pub reload_keeps : (e : W.Env) → content ((W.reload e).1) ≡ content e
  pub wait_keeps : (n : ℕ) (e : W.Env) → content ((W.wait n e).1) ≡ content e
  pub wake_keeps : (e : W.Env) → content (W.wake e) ≡ content e
  pub clear_keeps : (e : W.Env) → content (W.clear e) ≡ content e
  pub files_keeps :
      (files : Dict String Bytes) (e : W.Env) → content ((W.write_files files e).1) ≡ content e
  pub save_keeps : (st : StateStore) (e : W.Env) → content (W.save st e) ≡ content e
  pub writes :
      (d : Dict String String) (e : W.Env) (b : Bool)
      → (W.write_secrets d e).0 ≡ ok b
      → content ((W.write_secrets d e).1) ≡ some d
  pub fails :
      (d : Dict String String) (e : W.Env) (f : Fault)
      → (W.write_secrets d e).0 ≡ err f
      → (content ((W.write_secrets d e).1) ≡ content e)
        ⊎ (content ((W.write_secrets d e).1) ≡ some d)
