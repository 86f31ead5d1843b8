-- ===== src/SecretsSync/Supervisor/Safety.antt =====
-- What secrets.yaml can hold, whatever the providers, the clock and Home Assistant do.
use homeassistant_addons.Common.{ℕ, Bool, String, List, [], ◌∷◌, Option, none, some}
use homeassistant_addons.Common.Action.Keeps.{Keeps, Keeps-bind}
use homeassistant_addons.SecretsSync.World.{World}
use homeassistant_addons.SecretsSync.Supervisor.{Config, call, call_raising}
use homeassistant_addons.SecretsSync.Supervisor.Control.{
  Probing, Probe, failed, token, no_token, accept, trigger_sync, internal_error, run_once,
  run_round, note_change, compare_token, probed_one, probe_all, early_cycle, probe, save, run_check,
  retry_reload, wait_round, check_round, sleep_round,
}
use homeassistant_addons.SecretsSync.Supervisor.Env.{
  Closed, Holds, call-Keeps, call_raising-Keeps, read-Keeps, basic, event-Keeps, finish-Keeps,
}
use homeassistant_addons.SecretsSync.Supervisor.EnvCycle.{Writes, cycle-Keeps}

module _ (W : World) (Q : W.Env → Type 0) (closed : Closed W Q) (writes : Writes W Q)
    (cfg : Config) where
  internal_error-Keeps : (x : String) → Keeps (Holds W Q) (internal_error W cfg x)
  unfolding internal_error
  internal_error-Keeps x = search (basic, finish-Keeps) depth 9

  pub run_once-Keeps : (force : Bool) → Keeps (Holds W Q) (run_once W cfg force)
  unfolding run_once
  run_once-Keeps force = search (basic, internal_error-Keeps, cycle-Keeps) depth 12

  pub run_round-Keeps : Keeps (Holds W Q) (run_round W cfg)
  unfolding run_round
  run_round-Keeps = search (basic, run_once-Keeps) depth 9

  wake-Keeps : Keeps (Holds W Q) (call W (λ e. (tt, W.wake e)))
  wake-Keeps = call-Keeps W Q closed (λ e. (tt, W.wake e)) closed.wake

  clear-Keeps : Keeps (Holds W Q) (call W (λ e. (tt, W.clear e)))
  clear-Keeps = call-Keeps W Q closed (λ e. (tt, W.clear e)) closed.clear

  accept-Keeps : (force : Bool) → Keeps (Holds W Q) (accept W force)
  unfolding accept
  accept-Keeps force = search (basic, wake-Keeps) depth 9

  pub trigger-Keeps : (force : Bool) → Keeps (Holds W Q) (trigger_sync W force)
  unfolding trigger_sync
  trigger-Keeps force = search (basic, accept-Keeps) depth 9

  note_change-Keeps :
      (name t old : String) (p : Probing) → Keeps (Holds W Q) (note_change W name t old p)
  unfolding note_change
  note_change-Keeps name t old p = search (basic, event-Keeps) depth 12

  compare-Keeps :
      (name t : String) (p : Probing) (o : Option String)
      → Keeps (Holds W Q) (compare_token W name t p o)
  unfolding compare_token
  compare-Keeps name t p none = search basic depth 9
  compare-Keeps name t p (some old) = search (basic, note_change-Keeps) depth 9

  probed_one-Keeps :
      (name : String) (p : Probing) (x : Probe) → Keeps (Holds W Q) (probed_one W name p x)
  unfolding probed_one
  probed_one-Keeps name p no_token = search basic
  probed_one-Keeps name p (failed code) = search (basic, event-Keeps) depth 12
  probed_one-Keeps name p (token t) = search (basic, compare-Keeps) depth 12

  check-Keeps : (name : String) → Keeps (Holds W Q) (call W (W.check name))
  check-Keeps name = call-Keeps W Q closed (W.check name) (closed.check name)

  probe_all-Keeps : (names : List String) (p : Probing) → Keeps (Holds W Q) (probe_all W names p)
  unfolding probe_all
  probe_all-Keeps [] p = search basic
  probe_all-Keeps (name ∷ names) p = Keeps-bind _ _ (read-Keeps W Q closed _) λ callable.
      Keeps-bind _ _ (search (basic, check-Keeps, probed_one-Keeps) depth 9)
        (λ p'. probe_all-Keeps names p')

  early_cycle-Keeps : (p : Probing) → Keeps (Holds W Q) (early_cycle W p)
  unfolding early_cycle
  early_cycle-Keeps p = search (basic, trigger-Keeps) depth 12

  probe-Keeps : (t : ℕ) → Keeps (Holds W Q) (probe W cfg t)
  unfolding probe
  probe-Keeps t = search (basic, probe_all-Keeps, early_cycle-Keeps) depth 12

  save-Keeps : Keeps (Holds W Q) (save W cfg)
  unfolding save
  save-Keeps = record { at = λ r q. closed.save r.sup.state r.env q }

  run_check-Keeps : Keeps (Holds W Q) (run_check W cfg)
  unfolding run_check
  run_check-Keeps = search (basic, probe-Keeps, save-Keeps) depth 12

  reload-Keeps : Keeps (Holds W Q) (call_raising W W.reload)
  reload-Keeps = call_raising-Keeps W Q closed W.reload closed.reload

  retry-Keeps : (t : ℕ) (o : Option ℕ) → Keeps (Holds W Q) (retry_reload W cfg t o)
  unfolding retry_reload
  retry-Keeps t none = search basic
  retry-Keeps t (some at) = search (basic, reload-Keeps) depth 9

  wait-Keeps : (n : ℕ) → Keeps (Holds W Q) (call W (W.wait n))
  wait-Keeps n = call-Keeps W Q closed (W.wait n) (closed.wait n)

  wait_round-Keeps : (t : ℕ) → Keeps (Holds W Q) (wait_round W cfg t)
  unfolding wait_round
  wait_round-Keeps t = search (basic, wait-Keeps, save-Keeps, clear-Keeps) depth 12

  check_round-Keeps : Keeps (Holds W Q) (check_round W cfg)
  unfolding check_round
  check_round-Keeps = search (basic, run_check-Keeps, clear-Keeps) depth 12

  pub sleep_round-Keeps : Keeps (Holds W Q) (sleep_round W cfg)
  unfolding sleep_round
  sleep_round-Keeps = search (basic, retry-Keeps, wait_round-Keeps, check_round-Keeps) depth 14
