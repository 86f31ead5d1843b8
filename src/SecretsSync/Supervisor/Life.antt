-- ===== src/SecretsSync/Supervisor/Life.antt =====
-- The life of a supervisor: cycles, waiting, and triggers by other threads between the methods.
use homeassistant_addons.Common.{
  ◌<◌, ◌≡◌, ◌⊎◌, ◌∙◌, refl, Bool, String, Option, some, Result, ok, err, length, inl, inr,
}
use homeassistant_addons.Common.Dict.{Dict}
use homeassistant_addons.SecretsSync.World.{World, Fault}
use homeassistant_addons.SecretsSync.World.Lawful.{View}
use homeassistant_addons.SecretsSync.Supervisor.{Run, Config}
use homeassistant_addons.SecretsSync.Supervisor.Control.{
  trigger_sync, run_once, run_round, sleep_round,
}
use homeassistant_addons.SecretsSync.Supervisor.Env.{Closed}
use homeassistant_addons.SecretsSync.Supervisor.EnvCycle.{Writes}
use homeassistant_addons.SecretsSync.Supervisor.Safety.{
  run_once-Keeps, run_round-Keeps, trigger-Keeps, sleep_round-Keeps,
}

-- One step of `run_forever`, or a `trigger_sync` of another thread.
pub data Step (W : World) (cfg : Config) : Run W → Run W → Type 0 where
  trigger : (force : Bool) (r : Run W) → Step W cfg r ((trigger_sync W force r).1)
  round : (r : Run W) → Step W cfg r ((run_round W cfg r).1)
  -- `run_once` with a force that was read before: a trigger can come between the two.
  run : (force : Bool) (r : Run W) → Step W cfg r ((run_once W cfg force r).1)
  sleep : (r : Run W) → Step W cfg r ((sleep_round W cfg r).1)

pub data Reach (W : World) (cfg : Config) (r : Run W) : Run W → Type 0 where
  here : Reach W cfg r r
  next : {s t : Run W} → Reach W cfg r s → Step W cfg s t → Reach W cfg r t

module _ (W : World) (cfg : Config) (Q : W.Env → Type 0) (closed : Closed W Q)
    (writes : Writes W Q) where
  Step-keeps : {r s : Run W} → Step W cfg r s → Q r.env → Q s.env
  Step-keeps (trigger force r) q = (trigger-Keeps W Q closed writes cfg force).at r q
  Step-keeps (round r) q = (run_round-Keeps W Q closed writes cfg).at r q
  Step-keeps (run force r) q = (run_once-Keeps W Q closed writes cfg force).at r q
  Step-keeps (sleep r) q = (sleep_round-Keeps W Q closed writes cfg).at r q

  Reach-keeps : {r s : Run W} → Reach W cfg r s → Q r.env → Q s.env
  Reach-keeps here q = q
  Reach-keeps (next rs st) q = Step-keeps st (Reach-keeps rs q)

-- The content is what it was, or a set that is not empty.
abbrev pub OldOrFull : Option (Dict String String) → Option (Dict String String) → Type 0
OldOrFull old now = (now ≡ old) ⊎ ((d : Dict String String) × (now ≡ some d) × (0 < length d))

module _ (W : World) (V : View W) (old : Option (Dict String String)) where
  abbrev Fine : W.Env → Type 0
  Fine e = OldOrFull old (V.content e)

  moved : (e f : W.Env) → V.content f ≡ V.content e → Fine e → Fine f
  moved e f p (inl q) = inl (p ∙ q)
  moved e f p (inr (d, q, pos)) = inr (d, p ∙ q, pos)

  Fine-closed : Closed W Fine
  Fine-closed = record {
    clock = λ e. moved e _ (V.clock_keeps e);
    load = λ name e. moved e _ (V.load_keeps name e);
    validate = λ name e. moved e _ (V.validate_keeps name e);
    fetch = λ name e. moved e _ (V.fetch_keeps name e);
    check = λ name e. moved e _ (V.check_keeps name e);
    reload = λ e. moved e _ (V.reload_keeps e);
    wait = λ n e. moved e _ (V.wait_keeps n e);
    wake = λ e. moved e _ (V.wake_keeps e);
    clear = λ e. moved e _ (V.clear_keeps e);
    files = λ files e. moved e _ (V.files_keeps files e);
    save = λ st e. moved e _ (V.save_keeps st e);
  }

  written :
      (d : Dict String String) (e : W.Env) (o : Result Fault Bool)
      → (W.write_secrets d e).0 ≡ o
      → 0 < length d
      → Fine e
      → Fine ((W.write_secrets d e).1)
  written d e (ok b) p pos q = inr (d, V.writes d e b p, pos)
  written d e (err f) p pos q = elim (V.fails d e f p) [
    | inl same ↦ moved e _ same q
    | inr full ↦ inr (d, full, pos)
  ]

  Fine-writes : Writes W Fine
  Fine-writes = record { secrets = λ d e pos q. written d e _ refl pos q }

-- Whatever sequence of cycles, probes, waits and triggers runs, forced or not, and whatever the
-- providers, the files, the clock and Home Assistant return: secrets.yaml holds what it held at
-- the start, or a set of keys that is not empty.
pub Reach-content :
    (W : World) (V : View W) (cfg : Config) {r s : Run W}
    → Reach W cfg r s
    → OldOrFull (V.content r.env) (V.content s.env)
Reach-content W V cfg {r} rs =
    Reach-keeps W cfg (Fine W V (V.content r.env)) (Fine-closed W V _) (Fine-writes W V _) rs
      (inl refl)
