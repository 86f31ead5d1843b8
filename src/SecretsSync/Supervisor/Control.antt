-- ===== src/SecretsSync/Supervisor/Control.antt =====
-- `trigger_sync`, `run_once`, the change probe and the waiting loop of supervisor.py.
use homeassistant_addons.Common.{
  ℕ, ◌+◌, ◌-◌, min, max, Bool, true, false, not, ◌||◌, String, ◌<>◌, List, [], ◌∷◌, ◌++◌, Option,
  none, some, ◌==◌, string_eq, Result, ok, err, ltb, leb, eqb, is_some, is_empty, if◌then◌else◌,
}
use homeassistant_addons.Common.Action.{pure, gets, catch, ◌>>=◌, ◌>>◌}
use homeassistant_addons.Common.Dict
use homeassistant_addons.Common.Text.{prefix}
use homeassistant_addons.SecretsSync.World.{World, Fault, coded, other}
use homeassistant_addons.SecretsSync.Supervisor.{
  S, Supervisor, Config, get_sup, set_sup, set_state, call, call_raising, now, event, clean,
}
use homeassistant_addons.SecretsSync.Supervisor.Finish.{finish}
use homeassistant_addons.SecretsSync.Supervisor.Cycle.{cycle}

abbrev pub manual_min_gap : ℕ
manual_min_gap = 10

abbrev heartbeat : ℕ
heartbeat = 30

-- `"degraded" if self.state.last_success_at else "error"`: a time 0 counts as none here.
abbrev truthy_status : Option ℕ → String
truthy_status none = "error"
truthy_status (some t) = if eqb t 0 then "error" else "degraded"

-- The variables of the loop of `_probe`.
pub record Probing : Type 0 where
  pub probed : ℕ
  pub changed : List String
  pub first_error : Option String

-- What a probe of one provider says: an error code, or a token that may be missing.
pub data Probe : Type 0 where
  failed : String → Probe
  token : String → Probe
  no_token : Probe

abbrev probe_of : Result Fault (Option String) → Probe
probe_of (err (coded e)) = if e.code == "" then no_token else failed e.code
probe_of (err (other exception)) = failed "check_internal_error"
probe_of (ok none) = no_token
probe_of (ok (some t)) = token t

-- `first_error or code`
abbrev or_first : Option String → String → Option String
or_first none code = some code
or_first (some e) code = some e

abbrev is_same : Option String → String → Bool
is_same none code = false
is_same (some c) code = c == code

-- The tokens that are compared; none is remembered, or an empty one.
abbrev stored_token : Option String → Option String
stored_token none = none
stored_token (some t) = if t == "" then none else some t

-- Where a sleeping supervisor goes on: in another round, or with the next cycle.
pub data Next : Type 0 where
  again due : Next

module _ (W : World) where
  -- `self._wake.clear()`
  abbrev clear_wake : S W (Unit {0})
  clear_wake = call W (λ e. (tt, W.clear e))

  -- The test of the lock's holder; the clock is read only if it is needed.
  unfoldable pub accept : Bool → S W Bool
  accept force = do
    t ← now W
    last ← get_sup W (λ s. s.last_attempt)
    if ltb (t - last) manual_min_gap then pure false else (do
      set_sup W (λ s. record s { pending = true; force = force })
      call W (λ e. (tt, W.wake e))
      pure true)

  unfoldable pub trigger_sync : Bool → S W Bool
  trigger_sync force = do
    busy ← get_sup W (λ s. s.running || s.pending)
    if busy then pure false else accept force

  module _ (cfg : Config) where
    -- `except Exception`
    unfoldable pub internal_error : String → S W (Unit {0})
    internal_error exception = do
      t ← now W
      st ← get_sup W (λ s. s.state)
      finish W cfg t (truthy_status st.last_success_at) (some "internal_error") []

    unfoldable pub run_once : Bool → S W String
    run_once force = do
      t ← now W
      set_sup W (λ s. record s { running = true; pending = false; last_attempt = t })
      catch (cycle W cfg force) internal_error
      set_sup W (λ s. record s { running = false })
      get_sup W (λ s. s.state.status)

    -- One round of `run_forever`, without the sleep.
    unfoldable pub run_round : S W String
    run_round = do
      force ← get_sup W (λ s. s.force)
      set_sup W (λ s. record s { force = false })
      run_once force

  unfoldable pub note_change : String → String → String → Probing → S W Probing
  note_change name t old p = do
    known ← get_sup W (λ s. is_same (Dict.get name s.announced) t)
    if known then pure tt else (do
      set_sup W (λ s. record s { announced = Dict.set name t s.announced })
      event W "info" "source_changed"
          (name <> (": source changed (" <> (prefix 12 old <> (" -> " <> (prefix 12 t <> ")")))))
          (some name))
    pure (record p { changed = p.changed ++ name ∷ [] })

  unfoldable pub compare_token : String → String → Probing → Option String → S W Probing
  compare_token name t p none = do
    set_sup W (λ s. record s { tokens = Dict.set name t s.tokens })
    pure p
  compare_token name t p (some old) = if t == old then pure p else note_change name t old p

  -- One round of the loop of `_probe`, after the call.
  unfoldable pub probed_one : String → Probing → Probe → S W Probing
  probed_one name p no_token = pure p
  probed_one name p (failed code) = do
    known ← get_sup W (λ s. is_same (Dict.get name s.check_errors) code)
    if known then pure tt else (do
      set_sup W (λ s. record s { check_errors = Dict.set name code s.check_errors })
      message ← clean W ("change check failed for " <> (name <> (": " <> code)))
      event W "warning" "check_failed" message (some name))
    pure (record p { probed = p.probed + 1; first_error = or_first p.first_error code })
  probed_one name p (token t) = do
    set_sup W (λ s. record s { check_errors = Dict.remove name s.check_errors })
    stored ← get_sup W (λ s. stored_token (Dict.get name s.tokens))
    compare_token name t (record p { probed = p.probed + 1 }) stored

  unfoldable pub probe_all : List String → Probing → S W Probing
  probe_all [] p = pure p
  probe_all (name ∷ names) p = do
    callable ← gets (λ r. W.has_check name r.env)
    p' ←
        if callable
        then (do result ← call W (W.check name); probed_one name p (probe_of result))
        else pure p
    probe_all names p'

  abbrev check_result : Probing → String
  check_result p =
      if eqb p.probed 0
      then "unsupported"
      else if is_some p.first_error
      then "error"
      else if is_empty p.changed
      then "unchanged"
      else "changed"

  -- An early cycle, unless a retry is scheduled already.
  unfoldable pub early_cycle : Probing → S W (Unit {0})
  early_cycle p = do
    fails ← get_sup W (λ s. s.fails)
    if is_empty p.changed || ltb 0 fails then pure tt else (do
      started ← trigger_sync false
      if started
          then set_state W (λ st. record st {
            check = record st.check { triggered_syncs = st.check.triggered_syncs + 1 };
          })
          else pure tt)

  module _ (cfg : Config) where
    unfoldable pub probe : ℕ → S W (Unit {0})
    probe t = do
      enabled ← get_sup W (λ s. s.state.check.enabled)
      if not enabled then pure tt else (do
        p ← probe_all cfg.providers (record { probed = 0; changed = []; first_error = none })
        set_state W (λ st. record st {
          check = record st.check {
            last_check_at = some t;
            error_code = p.first_error;
            result = some (check_result p);
          };
        })
        early_cycle p)

    -- `self.state.save()`
    unfoldable pub save : S W (Unit {0})
    save r = (ok tt, record r { env = W.save r.sup.state r.env })

    -- `run_check`: an exception of the probe is logged.
    unfoldable pub run_check : S W (Unit {0})
    run_check = do
      t ← now W
      set_sup W (λ s. record s { next_probe = some (t + cfg.check_interval) })
      catch (probe t) (λ _. pure tt)
      save

    -- `_retry_reload`
    unfoldable pub retry_reload : ℕ → Option ℕ → S W (Unit {0})
    retry_reload t none = pure tt
    retry_reload t (some at) =
        if leb at t
        then (do
          set_sup W (λ s. record s { reload_retry_at = none })
          call_raising W W.reload
          pure tt)
        else pure tt

    -- `probe_at`
    abbrev probe_at : Supervisor → Option ℕ
    probe_at s = if ltb 0 cfg.check_interval then s.next_probe else none

    abbrev earliest : Option ℕ → ℕ → ℕ
    earliest none next = next
    earliest (some at) next = min next at

    abbrev capped : Option ℕ → ℕ → ℕ → ℕ
    capped none t remaining = remaining
    capped (some at) t remaining = min remaining (max (at - t) 1)

    -- The seconds to wait in this round.
    unfoldable pub remaining : Supervisor → ℕ → ℕ
    remaining s t = min (capped s.reload_retry_at t (earliest (probe_at s) s.next_at - t)) heartbeat

    unfoldable pub is_due : Option ℕ → ℕ → Bool
    is_due none t = false
    is_due (some at) t = leb at t

    unfoldable pub wait_round : ℕ → S W Next
    wait_round t = do
      seconds ← get_sup W (λ s. remaining s t)
      woken ← call W (W.wait seconds)
      if woken then (do clear_wake; pure due) else (do save; pure again)

    unfoldable pub check_round : S W Next
    check_round = do
      run_check
      pending ← get_sup W (λ s. s.pending)
      if pending then (do clear_wake; pure due) else pure again

    -- One round of `_sleep`.
    unfoldable pub sleep_round : S W Next
    sleep_round = do
      t ← now W
      at ← get_sup W (λ s. s.reload_retry_at)
      retry_reload t at
      s ← get_sup W (λ s. s)
      if leb s.next_at t
          then pure due
          else if is_due (probe_at s) t
          then check_round
          else wait_round t
