-- ===== src/SecretsSync/Supervisor/Tests.antt =====
-- The supervisor's theorems in a small environment: a clock, and a file that a write replaces.
use homeassistant_addons.Common.{
  ℕ, ◌+◌, ◌≤◌, ◌≡◌, refl, true, false, String, [], ◌∷◌, Option, none, some, Result, ok, err,
  string_eq,
}
use homeassistant_addons.Common.Action.{◌>>=◌}
use homeassistant_addons.Common.Dict
use homeassistant_addons.Common.Dict.{Dict}
use homeassistant_addons.Common.Sort.{sort}
use homeassistant_addons.SecretsSync.Guard.{check_shrink, exact_floats}
use homeassistant_addons.SecretsSync.Merge.{Merged}
use homeassistant_addons.SecretsSync.State.{new_store, add_event}
use homeassistant_addons.SecretsSync.World.{World}
use homeassistant_addons.SecretsSync.World.Lawful.{View}
use homeassistant_addons.SecretsSync.Supervisor.{Run, Supervisor, Config, event, diff, changed_keys}
use homeassistant_addons.SecretsSync.Supervisor.Finish.{delay}
use homeassistant_addons.SecretsSync.Supervisor.Finish.Backoff.{
  Ending, ended, failed_in_row, pause, delay_mono,
}
use homeassistant_addons.SecretsSync.Supervisor.Write.{
  synthesize, previous_secrets, reloaded, after_write, on_secrets, on_files, write_both,
  guarded_write,
}
use homeassistant_addons.SecretsSync.Supervisor.Cycle.{
  Success, after_merge, after_synthesis, write_stage,
}
use homeassistant_addons.SecretsSync.Supervisor.Control.{accept, trigger_sync, run_once, run_round}
use homeassistant_addons.SecretsSync.Supervisor.Life.{
  here, next, trigger, round, OldOrFull, Reach-content,
}
use homeassistant_addons.SecretsSync.Supervisor.Atomic.{after_merge-content}
use homeassistant_addons.SecretsSync.Supervisor.Loop.{run_once-running, trigger_sync-single}

record Disk : Type 0 where
  time : ℕ
  content : Option (Dict String String)

abbrev three : Dict String String
three = ("a", "1") ∷ ("b", "2") ∷ ("c", "3") ∷ []

abbrev world : World
world = record {
  Env = Disk;
  clock = λ e. (e.time, record e { time = e.time + 1 });
  load = λ name e. (ok tt, e);
  validate = λ name e. (ok [], e);
  fetch =
      λ name e. (ok (record { secrets = three; files = []; revision = "r1"; check_token = "" }), e);
  wait = λ n e. (false, record e { time = e.time + n });
  wake = λ e. e;
  clear = λ e. e;
  has_check = λ name e. false;
  check = λ name e. (ok none, e);
  notices = λ name e. [];
  reload = λ e. (ok none, e);
  read_secrets = λ e. e.content;
  write_secrets = λ d e. (ok true, record e { content = some d });
  write_files = λ files e. (ok (record { written = []; removed = []; skipped = [] }), e);
  render = λ known templates. ok [];
  inspect = λ templates. [];
  scan = λ e. err "OSError";
  save = λ st e. e;
  floats = exact_floats;
}

ok_err : {E A : Type 0} {a : A} {e : E} → ¬ (◌≡◌ {A = Result E A} (ok a) (err e))
ok_err p = cc p

abbrev view : View world
view = record {
  content = λ e. e.content;
  clock_keeps = λ e. refl;
  load_keeps = λ name e. refl;
  validate_keeps = λ name e. refl;
  fetch_keeps = λ name e. refl;
  check_keeps = λ name e. refl;
  reload_keeps = λ e. refl;
  wait_keeps = λ n e. refl;
  wake_keeps = λ e. refl;
  clear_keeps = λ e. refl;
  files_keeps = λ files e. refl;
  save_keeps = λ st e. refl;
  writes = λ d e b p. refl;
  fails = λ d e f p. absurd (ok_err p);
}

abbrev config : Config
config = record {
  providers = "sops" ∷ [];
  interval = 3600;
  collision_policy = "error";
  shrink_guard_percent = 70;
  problems = [];
  usage_scan = "off";
  check_interval = 0;
  synthetic_keys = [];
}

abbrev fresh : Supervisor
fresh = record {
  reload_retry_at = none;
  known = [];
  running = false;
  pending = false;
  force = false;
  last_attempt = 0;
  fails = 0;
  next_at = 0;
  last_good = [];
  pinfo = [];
  last_written = none;
  active = [];
  usage_at = none;
  tokens = [];
  next_probe = none;
  check_errors = [];
  announced = [];
  usage_sigs = [];
  last_items = some 4;
  state = new_store 3600 90;
}

-- The file holds four keys; the provider has three.
abbrev four_keys : Run world
four_keys = record { env = record { time = 100; content = some (("z", "0") ∷ three) }; sup = fresh }

abbrev triggered : Run world
triggered = (trigger_sync world true four_keys).1

Reach-content_example :
    OldOrFull (some (("z", "0") ∷ three)) ((run_round world config triggered).1.env.content)
Reach-content_example =
    Reach-content world view config (next (next here (trigger true four_keys)) (round triggered))

abbrev merged : Merged
merged = record { secrets = three; files = []; shadowed = [] }

abbrev success : Success
success = record {
  merged = merged;
  synth_names = [];
  written = record { wrote = true; skipped = [] };
}

written : (after_merge world config false (ok merged) four_keys).0 ≡ ok (ok success)
unfolding after_merge after_synthesis write_stage synthesize guarded_write write_both on_files
    on_secrets after_write reloaded previous_secrets check_shrink event add_event diff changed_keys
    ◌>>=◌ sort Dict.keys string_eq
written = refl

after_merge-content_example :
    (after_merge world config false (ok merged) four_keys).1.env.content ≡ some three
after_merge-content_example =
    after_merge-content world view config false (ok merged) four_keys (ok success) written

run_once-running_example :
    ((run_once world config true four_keys).0
      ≡ ok ((run_once world config true four_keys).1.sup.state.status))
    × ((run_once world config true four_keys).1.sup.running ≡ false)
run_once-running_example = run_once-running world config true four_keys

accepted : (trigger_sync world true four_keys).0 ≡ ok true
unfolding trigger_sync accept ◌>>=◌
accepted = refl

trigger_sync-single_example :
    (triggered.sup.force ≡ true) × (trigger_sync world false triggered ≡ (ok false, triggered))
trigger_sync-single_example = trigger_sync-single world true false four_keys accepted

delay_mono_example : (delay 3600 3 ≤ delay 3600 8) × (delay 3600 3606 ≡ 3600)
delay_mono_example = delay_mono 3600 2 5

-- Two failures after a success.
abbrev end_at : ℕ → String → Ending
end_at time status = record { time = time; status = status; code = none; sigs = [] }

abbrev two_failures : Supervisor
two_failures =
    ended world config fresh (end_at 700 "degraded" ∷ end_at 600 "degraded" ∷ end_at 500 "ok" ∷ [])

abbrev two_pause : ℕ
two_pause =
    pause 3600
      (failed_in_row 0 (end_at 700 "degraded" ∷ end_at 600 "degraded" ∷ end_at 500 "ok" ∷ []))
