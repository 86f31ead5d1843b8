-- ===== src/SecretsSync/Supervisor/Loop.antt =====
-- The loop never dies in a cycle, and a manual sync starts one cycle.
use homeassistant_addons.Common.{
  ℕ, ◌≡◌, refl, Bool, true, false, String, List, [], ◌∷◌, Option, none, some, Result, ok, err,
  arith,
}
use homeassistant_addons.Common.Action.{◌>>=◌}
use homeassistant_addons.Common.Action.Returns.{Returns, returns_rules, Returns-catch}
use homeassistant_addons.Common.Dict.{Dict}
use homeassistant_addons.SecretsSync.World.{World, Scan}
use homeassistant_addons.SecretsSync.State.{StateStore}
use homeassistant_addons.SecretsSync.Supervisor.{
  Run, Supervisor, Config, call, set_sup, event, emit,
}
use homeassistant_addons.SecretsSync.Supervisor.Finish.{
  announce_missing, scanned, refresh_usage, finish,
}
use homeassistant_addons.SecretsSync.Supervisor.Cycle.{cycle}
use homeassistant_addons.SecretsSync.Supervisor.Control.{
  accept, trigger_sync, internal_error, run_once,
}

module _ (W : World) where
  call-Returns : {A : Type 0} (f : W.Env → A × W.Env) → Returns (call W f)
  call-Returns f = record { at = λ r. ((f r.env).0, refl) }

  set-Returns : (f : Supervisor → Supervisor) → Returns (set_sup W f)
  set-Returns f = record { at = λ r. (tt, refl) }

  save-Returns :
      (st : StateStore)
      → Returns {E = String} (λ (r : Run W). (ok tt, record r { env = W.save st r.env }))
  save-Returns st = record { at = λ r. (tt, refl) }

  ruleset basic = (returns_rules, call-Returns, set-Returns, save-Returns)

  event-Returns :
      (level code message : String) (provider : Option String)
      → Returns (event W level code message provider)
  unfolding event
  event-Returns level code message provider = search basic

  emit-Returns :
      (level code message : String) (provider : Option String)
      → Returns (emit W level code message provider)
  unfolding emit
  emit-Returns level code message provider = search (basic, event-Returns) depth 12

  module _ (cfg : Config) where
    announce-Returns : (names : List String) → Returns (announce_missing W cfg names)
    unfolding announce_missing
    announce-Returns [] = search basic
    announce-Returns (m ∷ ms) = search (basic, emit-Returns)

    scanned-Returns :
        (t : ℕ) (known : Option (Dict String String)) (r : Result String Scan)
        → Returns (scanned W cfg t known r)
    unfolding scanned
    scanned-Returns t none r = search basic
    scanned-Returns t (some known) (err e) = search basic
    scanned-Returns t (some known) (ok result) = search (basic, announce-Returns)

    refresh-Returns : (t : ℕ) → Returns (refresh_usage W cfg t)
    unfolding refresh_usage
    refresh-Returns t = search (basic, scanned-Returns) depth 12

    finish-Returns :
        (t : ℕ) (status : String) (code : Option String) (sigs : List String)
        → Returns (finish W cfg t status code sigs)
    unfolding finish
    finish-Returns t status code sigs = search (basic, refresh-Returns) depth 9

    internal_error-Returns : (x : String) → Returns (internal_error W cfg x)
    unfolding internal_error
    internal_error-Returns x = search (basic, finish-Returns) depth 9

    run_once-Returns : (force : Bool) → Returns (run_once W cfg force)
    unfolding run_once
    run_once-Returns force = search (basic, internal_error-Returns) depth 12

    -- A cycle always returns, whatever its parts raise, with the status that it leaves in the state,
    -- and the supervisor is not marked as running afterwards.
    pub run_once-running :
        (force : Bool) (r : Run W)
        → ((run_once W cfg force r).0 ≡ ok ((run_once W cfg force r).1.sup.state.status))
          × ((run_once W cfg force r).1.sup.running ≡ false)
    unfolding run_once ◌>>=◌
    run_once-running force r =
        let c =
          (Returns-catch (cycle W cfg force) (internal_error W cfg) internal_error-Returns).at
            (record {
              env = (W.clock r.env).1;
              sup = record r.sup {
                running = true;
                pending = false;
                last_attempt = (W.clock r.env).0;
              };
            }) in
        let e = c.1 in (rw e, rw e)

  -- An accepted trigger notes its `force`, and the next trigger is refused and changes nothing.
  pub trigger_sync-single :
      (force again : Bool) (r : Run W)
      → (trigger_sync W force r).0 ≡ ok true
      → ((trigger_sync W force r).1.sup.force ≡ force)
        × (trigger_sync W again ((trigger_sync W force r).1)
            ≡ (ok false, (trigger_sync W force r).1))
  unfolding trigger_sync accept ◌>>=◌
  trigger_sync-single force again r h = ground arith
