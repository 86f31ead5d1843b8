-- ===== src/SecretsSync/Supervisor/Cycle.antt =====
-- `_cycle` of supervisor.py: one full cycle, from its parts.
use homeassistant_addons.Common.{
  ℕ, Bool, false, not, ◌&&◌, String, ◌<>◌, List, [], ◌∷◌, ◌++◌, Option, none, some, ◌==◌, string_eq,
  Result, ok, err, length, is_some, is_empty, if◌then◌else◌,
}
use homeassistant_addons.Common.Action.{pure, ◌>>=◌, ◌>>◌}
use homeassistant_addons.Common.Dict
use homeassistant_addons.Common.Dict.{Dict}
use homeassistant_addons.Common.Sort.{sort, str_le}
use homeassistant_addons.Common.Text.{decimal}
use homeassistant_addons.SecretsSync.Contract.{CodedError, Problem}
use homeassistant_addons.SecretsSync.State.{StateStore}
use homeassistant_addons.SecretsSync.World.{World}
use homeassistant_addons.SecretsSync.Merge.{Merged, Shadow}
use homeassistant_addons.SecretsSync.Supervisor.{
  S, Config, get_sup, set_state, now, emit, event, clean,
}
use homeassistant_addons.SecretsSync.Supervisor.Fetch.{Fetched, errors_of}
use homeassistant_addons.SecretsSync.Supervisor.Finish.{finish}
use homeassistant_addons.SecretsSync.Supervisor.Collect.{
  Collected, collect, fetch_all, all_notices, merge_or_fail,
}
use homeassistant_addons.SecretsSync.Supervisor.Write.{
  Written, synthetic_report, synthesize, guarded_write,
}

-- What a cycle that is not fatal has: the merged set, the synthetic names and the writes.
pub record Success : Type 0 where
  pub merged : Merged
  pub synth_names : List String
  pub written : Written

abbrev written_result : Merged → List String → Result CodedError Written → Result CodedError Success
written_result m names (ok w) = ok (record { merged = m; synth_names = names; written = w })
written_result m names (err e) = err e

-- "degraded" while there has been a success, "error" before.
unfoldable pub failed_status : StateStore → String
failed_status st = if is_some st.last_success_at then "degraded" else "error"

module _ (W : World) (cfg : Config) where
  -- From the merge to the writes; an error is the fatal one.
  unfoldable pub write_stage : Bool → Merged × List String → S W (Result CodedError Success)
  write_stage force (m, names) = do
    outcome ← guarded_write W cfg force m
    pure (written_result m names outcome)

  unfoldable pub after_synthesis :
      Bool → Result CodedError (Merged × List String) → S W (Result CodedError Success)
  after_synthesis force (ok p) = write_stage force p
  after_synthesis force (err e) = pure (err e)

  unfoldable pub after_merge : Bool → Result CodedError Merged → S W (Result CodedError Success)
  after_merge force (err e) = pure (err e)
  after_merge force (ok m) = do outcome ← synthesize W cfg m; after_synthesis force outcome

  unfoldable pub emit_shadowed : List Shadow → List String → S W (List String)
  emit_shadowed [] sigs = pure sigs
  emit_shadowed ((name, winner, loser) ∷ rest) sigs = do
    sig ←
        emit W "info" "key_shadowed"
          ("'" <> (name <> ("' from " <> (loser <> (" shadowed by " <> winner))))) none
    emit_shadowed rest (sigs ++ sig ∷ [])

  unfoldable pub emit_skipped : List String → List String → S W (List String)
  emit_skipped [] sigs = pure sigs
  emit_skipped (rel ∷ rest) sigs = do
    sig ←
        emit W "warning" "file_unmanaged"
          ("existing unmanaged file '" <> (rel <> "' not overwritten")) none
    emit_skipped rest (sigs ++ sig ∷ [])

  -- The fields that a success sets.
  unfoldable pub record_success : ℕ → Success → StateStore → StateStore
  record_success t x st = record st {
    last_success_at = some t;
    items = length x.merged.secrets;
    keys = record st.keys {
      names = sort str_le (Dict.keys x.merged.secrets);
      synthetic = if is_empty cfg.synthetic_keys then none else some x.synth_names;
    };
  }

  abbrev synced_text : StateStore → String
  synced_text st =
      "synced "
      <> (decimal st.items
          <> (" items ("
              <> (decimal (length st.keys.added)
                  <> (" added, "
                      <> (decimal (length st.keys.removed)
                          <> (" removed, "
                              <> (decimal (length st.keys.changed) <> " changed)")))))))

  -- The event of a cycle that went well: a write, or a recovery.
  unfoldable pub report_ok : Bool → StateStore → S W (Unit {0})
  report_ok wrote st =
      if wrote
      then event W "info" "sync_ok" (synced_text st) none
      else if not (st.status == "ok") && not (st.status == "starting")
      then event W "info" "sync_ok" ("sync recovered (" <> (decimal st.items <> " items)")) none
      else pure tt

  abbrev degraded_code : List Fetched → Option String
  degraded_code [] = some "file_unmanaged"
  degraded_code (f ∷ fs) = f.code

  unfoldable pub finish_ok : ℕ → Bool → List String → S W (Unit {0})
  finish_ok t wrote sigs = do
    st ← get_sup W (λ s. s.state)
    report_ok wrote st
    finish W cfg t "ok" none sigs

  -- A cycle that was not fatal.
  unfoldable pub succeed : ℕ → List Fetched → List String → Success → S W (Unit {0})
  succeed t failed sigs x = do
    sigs1 ← emit_shadowed x.merged.shadowed sigs
    sigs2 ← emit_skipped x.written.skipped sigs1
    set_state W (record_success t x)
    if is_empty failed && is_empty x.written.skipped
        then finish_ok t x.written.wrote sigs2
        else finish W cfg t "degraded" (degraded_code failed) sigs2

  -- A fatal error.
  unfoldable pub fail : ℕ → CodedError → List String → S W (Unit {0})
  fail t e sigs = do
    message ← clean W e.message
    sig ← emit W "error" e.code message none
    st ← get_sup W (λ s. s.state)
    finish W cfg t (failed_status st) (some e.code) (sigs ++ sig ∷ [])

  unfoldable pub conclude : ℕ → Collected → Result CodedError Success → S W (Unit {0})
  conclude t c (ok x) = succeed t c.failed c.sigs x
  conclude t c (err e) = fail t e c.sigs

  -- The cycle of a usable configuration.
  unfoldable pub provider_cycle : ℕ → Bool → S W (Unit {0})
  provider_cycle t force = do
    set_state W (λ st. record st { guard = none })
    synthetic_report W cfg false none
    fetches ← fetch_all W cfg.providers
    collected ← collect W t fetches (record { used = []; failed = []; sigs = [] })
    sigs ← all_notices W fetches collected.sigs
    last_good ← get_sup W (λ s. s.last_good)
    outcome ← after_merge force (merge_or_fail cfg.collision_policy last_good collected)
    conclude t (record collected { sigs = sigs }) outcome

  unfoldable pub emit_config : List Problem → List String → S W (List String)
  emit_config [] sigs = pure sigs
  emit_config (p ∷ ps) sigs = do
    sig ← emit W "error" p.code p.message none
    emit_config ps (sigs ++ sig ∷ [])

  -- Errors of the configuration: nothing is fetched.
  unfoldable pub config_cycle : ℕ → Problem → List Problem → S W (Unit {0})
  config_cycle t p ps = do sigs ← emit_config (p ∷ ps) []; finish W cfg t "error" (some p.code) sigs

  unfoldable pub start : ℕ → Bool → List Problem → S W (Unit {0})
  start t force [] = provider_cycle t force
  start t force (p ∷ ps) = config_cycle t p ps

  unfoldable pub cycle : Bool → S W (Unit {0})
  cycle force = do
    t ← now W
    set_state W (λ st. record st { last_attempt_at = some t })
    start t force (errors_of cfg.problems)
