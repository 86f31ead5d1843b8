-- ===== src/SecretsSync/Supervisor/Write.antt =====
-- `_cycle` of supervisor.py after the merge: synthetic keys, the shrink guard and the writes.
use homeassistant_addons.Common.{
  ℕ, ◌+◌, Bool, true, false, not, ◌&&◌, String, ◌<>◌, List, [], ◌∷◌, Option, none, some, ◌==◌,
  string_eq, Result, ok, err, length, or_default, is_some, is_empty, if◌then◌else◌,
}
use homeassistant_addons.Common.Action.{pure, raise, gets, ◌>>=◌, ◌>>◌}
use homeassistant_addons.Common.Dict
use homeassistant_addons.Common.Dict.{Dict}
use homeassistant_addons.Common.Sort.{sort, str_le}
use homeassistant_addons.Common.Text.{decimal}
use homeassistant_addons.SecretsSync.Contract.{CodedError, SyntheticFailure}
use homeassistant_addons.SecretsSync.Guard.{check_shrink}
use homeassistant_addons.SecretsSync.State.{SyntheticEntry}
use homeassistant_addons.SecretsSync.World.{
  World, Fault, coded, other, RenderFault, synthetic, unexpected, FilesResult,
}
use homeassistant_addons.SecretsSync.Merge.{Merged}
use homeassistant_addons.SecretsSync.Redact.{register}
use homeassistant_addons.SecretsSync.Supervisor.{
  S, Config, get_sup, set_sup, set_state, call, call_raising, now, event, diff,
}

abbrev retry_after : ℕ
retry_after = 65

-- `if code` for a code that may be missing
abbrev truthy : Option String → Bool
truthy none = false
truthy (some c) = not (c == "")

-- `code` of one entry of `_synthetic_report`.
abbrev entry_code : Option SyntheticFailure → SyntheticEntry → Option String
entry_code none e = e.error_code
entry_code (some f) e =
    if not (is_some e.error_code) && f.name == e.name then some f.code else e.error_code

unfoldable pub report_entries :
    Bool → Option SyntheticFailure → List SyntheticEntry → List SyntheticEntry
report_entries rendered failure [] = []
report_entries rendered failure (e ∷ es) =
    record e {
      status =
          if truthy (entry_code failure e) then "error" else if rendered then "ok" else "pending";
      error_code = entry_code failure e;
    }
    ∷ report_entries rendered failure es

-- `f"{last_items}"`
abbrev last_text : Option ℕ → String
last_text none = "None"
last_text (some n) = decimal n

-- What a write leaves for the rest of the cycle.
pub record Written : Type 0 where
  pub wrote : Bool
  pub skipped : List String

module _ (W : World) (cfg : Config) where
  -- `_synthetic_report`
  unfoldable pub synthetic_report : Bool → Option SyntheticFailure → S W (Unit {0})
  synthetic_report rendered failure = set_state W (λ st. record st {
    synthetic =
        if is_empty cfg.synthetic_keys
        then []
        else report_entries rendered failure (W.inspect cfg.synthetic_keys);
  })

  -- The outcomes of `_synthetic`; an exception other than SyntheticFailure goes on.
  unfoldable pub add_synthetic :
      Merged
      → Result RenderFault (Dict String String)
      → S W (Result CodedError (Merged × List String))
  add_synthetic m (ok synth) = do
    set_sup W (λ s. record s { known = register s.known (Dict.values synth) })
    synthetic_report true none
    pure (ok (record m { secrets = Dict.update m.secrets synth }, sort str_le (Dict.keys synth)))
  add_synthetic m (err (unexpected exception)) = raise exception
  add_synthetic m (err (synthetic f)) = do
    synthetic_report false (some f)
    pure (err (record { code = f.code; message = f.message }))

  unfoldable pub synthesize : Merged → S W (Result CodedError (Merged × List String))
  synthesize m =
      if is_empty cfg.synthetic_keys
      then pure (ok (m, []))
      else add_synthetic m (W.render m.secrets cfg.synthetic_keys)

  -- `self._last_written`, or the file's content, or nothing
  unfoldable pub previous_secrets : S W (Dict String String)
  previous_secrets = do
    current ← gets (λ r. or_default (W.read_secrets r.env) [])
    get_sup W (λ s. or_default s.last_written current)

  -- `_guard_report`
  unfoldable pub guard_report : Dict String String → S W (Unit {0})
  guard_report secrets = do
    previous ← previous_secrets
    set_sup W (λ s. record s {
      state = record s.state {
        guard = some (record {
          new_items = length secrets;
          last_items = s.last_items;
          removed = (diff previous secrets).removed;
          added = (diff previous secrets).added;
          changed = (diff previous secrets).changed;
        });
      };
    })

  -- `_reload_supervisor`, after the call
  unfoldable pub reloaded : ℕ → ℕ → Option String → S W (Unit {0})
  reloaded added removed none = do
    t ← now W
    set_sup W (λ s. record s { reload_retry_at = some (t + retry_after) })
    event W "info" "supervisor_reload"
        ("asked the Supervisor to re-read secrets.yaml ("
          <> (decimal added <> (" added, " <> (decimal removed <> " removed)"))))
        none
  reloaded added removed (some error) = if error == "skipped" then pure tt else do
    set_sup W (λ s. record s { reload_retry_at = none })
    event W "warning" "supervisor_reload_failed"
        ("Supervisor secrets reload failed (" <> (error <> ")")) none

  -- `_after_write`
  unfoldable pub after_write : Dict String String → Dict String String → Bool → S W (Unit {0})
  after_write secrets previous wrote = do
    set_sup W (λ s. record s { last_written = some secrets; last_items = some (length secrets) })
    if not wrote then pure tt else do
      let d = diff previous secrets
      set_state W (λ st. record st {
        keys = record st.keys { added = d.added; removed = d.removed; changed = d.changed };
      })
      if is_empty d.added && is_empty d.removed then pure tt else do
        error ← call_raising W W.reload
        reloaded (length d.added) (length d.removed) error

  -- `except WriteError`: a code; any other exception goes on.
  unfoldable pub on_secrets :
      Dict String String
      → Dict String String
      → List String
      → Result Fault Bool
      → S W (Result CodedError Written)
  on_secrets secrets previous skipped (ok wrote) = do
    after_write secrets previous wrote
    pure (ok (record { wrote = wrote; skipped = skipped }))
  on_secrets secrets previous skipped (err (coded e)) = pure (err e)
  on_secrets secrets previous skipped (err (other exception)) = raise exception

  unfoldable pub on_files :
      Dict String String → Result Fault FilesResult → S W (Result CodedError Written)
  on_files secrets (ok result) = do
    previous ← previous_secrets
    outcome ← call W (W.write_secrets secrets)
    on_secrets secrets previous result.skipped outcome
  on_files secrets (err (coded e)) = pure (err e)
  on_files secrets (err (other exception)) = raise exception

  unfoldable pub refuse : Dict String String → Option ℕ → S W (Result CodedError Written)
  refuse secrets last = do
    guard_report secrets
    pure (
        err (record {
          code = "shrink_guard";
          message =
              "refusing to write "
              <> (decimal (length secrets) <> (" items (last write: " <> (last_text last <> ")")));
        }))

  unfoldable pub write_both : Merged → S W (Result CodedError Written)
  write_both m = do outcome ← call W (W.write_files m.files); on_files m.secrets outcome

  -- The guard, and then the two writes.
  unfoldable pub guarded_write : Bool → Merged → S W (Result CodedError Written)
  guarded_write force m = do
    last ← get_sup W (λ s. s.last_items)
    if check_shrink W.floats (length m.secrets) last cfg.shrink_guard_percent force
        then refuse m.secrets last
        else write_both m
