-- ===== src/SecretsSync/Supervisor/Finish.antt =====
-- `_finish` and `_refresh_usage` of supervisor.py: how a cycle ends.
pub mod Backoff
use homeassistant_addons.Common.{
  ℕ, zero, suc, ◌+◌, ◌-◌, ◌*◌, ◌^◌, min, Bool, true, false, not, ◌&&◌, String, ◌<>◌, List, [], ◌∷◌,
  ◌++◌, Option, none, some, ◌==◌, string_eq, Result, ok, err, ltb, eqb, length, take, contains,
  or_default, is_empty, is_some, if◌then◌else◌,
}
use homeassistant_addons.Common.Action.{pure, gets, ◌>>=◌, ◌>>◌}
use homeassistant_addons.Common.Dict
use homeassistant_addons.Common.Sort.{sort, str_le}
use homeassistant_addons.Common.Text.{join_names}
use homeassistant_addons.SecretsSync.State.{StateStore, ProviderInfo, UsageBlock}
use homeassistant_addons.SecretsSync.World.{World, Scan}
use homeassistant_addons.SecretsSync.Usage.{summarize}
use homeassistant_addons.SecretsSync.Supervisor.{
  S, Run, Supervisor, Config, get_sup, set_sup, set_state, emit,
}

abbrev pub backoff_start : ℕ
backoff_start = 30

abbrev usage_min_gap : ℕ
usage_min_gap = 60

-- `PROVIDER_MODULES` of config.py
abbrev pub provider_modules : List String
provider_modules = "bitwarden" ∷ "sops" ∷ []

abbrev missing_text : List String → String
missing_text missing =
    "referenced but not in secrets.yaml: "
    <> (join_names (take 20 missing) <> (if ltb 20 (length missing) then " ..." else ""))

-- The seconds until the next cycle.
unfoldable pub delay : ℕ → ℕ → ℕ
delay interval zero = interval
delay interval (suc fails) = min (backoff_start * 2 ^ fails) interval

-- `{s for s in sigs if s}`
unfoldable pub nonempty : List String → List String
nonempty [] = []
nonempty (s ∷ ss) = let rest = nonempty ss in if s == "" then rest else s ∷ rest

abbrev no_info : Option String → ProviderInfo
no_info code = record {
  status = "error";
  last_success_at = none;
  items = 0;
  error_code = code;
  problems = [];
  revision = none;
}

abbrev disabled_info : ProviderInfo
disabled_info = record {
  status = "disabled";
  last_success_at = none;
  items = 0;
  error_code = none;
  problems = [];
  revision = none;
}

-- The loop over the enabled providers, and the loop over the others.
unfoldable pub report_enabled :
    Dict.Dict String ProviderInfo
    → Option String
    → List String
    → Dict.Dict String ProviderInfo
    → Dict.Dict String ProviderInfo
report_enabled pinfo code [] shown = shown
report_enabled pinfo code (name ∷ names) shown =
    report_enabled pinfo code names
      (Dict.set name (or_default (Dict.get name pinfo) (no_info code)) shown)

unfoldable pub report_disabled :
    List String → List String → Dict.Dict String ProviderInfo → Dict.Dict String ProviderInfo
report_disabled enabled [] shown = shown
report_disabled enabled (name ∷ names) shown =
    report_disabled enabled names
      (if contains enabled name then shown else Dict.set name disabled_info shown)

-- `self._usage_at is not None and now - self._usage_at < USAGE_MIN_GAP`
abbrev too_soon : Option ℕ → ℕ → Bool
too_soon none t = false
too_soon (some at) t = ltb (t - at) usage_min_gap

module _ (W : World) (cfg : Config) where
  abbrev set_usage_sigs : List String → S W (Unit {0})
  set_usage_sigs sigs = set_sup W (λ s. record s { usage_sigs = sigs; active = s.active ++ sigs })

  unfoldable pub announce_missing : List String → S W (Unit {0})
  announce_missing [] = set_usage_sigs []
  announce_missing (m ∷ ms) = do
    sig ← emit W "warning" "secret_missing" (missing_text (m ∷ ms)) none
    set_usage_sigs (sig ∷ [])

  -- The body of the `try`: what a scan finds. An exception of the scan is logged.
  unfoldable pub scanned :
      ℕ → Option (Dict.Dict String String) → Result String Scan → S W (Unit {0})
  scanned t none _ = pure tt
  scanned t (some known) (err _) = pure tt
  scanned t (some known) (ok result) = do
    let block = summarize result (Dict.keys known) t
    set_state W (λ st. record st { usage = some block })
    announce_missing (sort str_le (Dict.keys block.missing))

  unfoldable pub refresh_usage : ℕ → S W (Unit {0})
  refresh_usage t = if cfg.usage_scan == "off" then pure tt else do
    set_sup W (λ s. record s { active = s.active ++ s.usage_sigs })
    at ← get_sup W (λ s. s.usage_at)
    if too_soon at t then pure tt else do
      set_sup W (λ s. record s { usage_at = some t })
      known ← gets (λ r. W.read_secrets r.env)
      result ← gets (λ r. W.scan r.env)
      scanned t known result

  -- Status, backoff and the time of the next cycle.
  unfoldable pub schedule : ℕ → String → Option String → List String → Supervisor → Supervisor
  schedule t status code sigs s =
      let fails = if status == "ok" then 0 else s.fails + 1 in
      let next = t + delay cfg.interval fails in
      record s {
        active = nonempty sigs;
        fails = fails;
        next_at = next;
        next_probe =
            if not (is_some s.next_probe) && ltb 0 cfg.check_interval
            then some (t + cfg.check_interval)
            else s.next_probe;
        state = record s.state { status = status; error_code = code; next_sync_at = some next };
      }

  unfoldable pub report_providers : Option String → Supervisor → Supervisor
  report_providers code s = record s {
    state = record s.state {
      providers =
          report_disabled cfg.providers provider_modules
            (report_enabled s.pinfo code cfg.providers s.state.providers);
    };
  }

  unfoldable pub finish : ℕ → String → Option String → List String → S W (Unit {0})
  finish t status code sigs = do
    set_sup W (schedule t status code sigs)
    refresh_usage t
    set_sup W (report_providers code)
    st ← get_sup W (λ s. s.state)
    λ r. (ok tt, record r { env = W.save st r.env })
