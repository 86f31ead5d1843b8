-- ===== src/SecretsSync/Supervisor/EnvCycle.antt =====
-- What a cycle keeps of the environment, as in Env.
use homeassistant_addons.Common.{
  ℕ, ◌<◌, ◌≡◌, refl, Bool, true, false, String, List, [], ◌∷◌, ◌++◌, Option, none, some, Result, ok,
  err, length, if◌then◌else◌,
}
use homeassistant_addons.Common.Action.Keeps.{Keeps, Keeps-bind}
use homeassistant_addons.Common.Dict.{Dict}
use homeassistant_addons.SecretsSync.Contract.{
  Bytes, Problem, Snapshot, CodedError, SyntheticFailure,
}
use homeassistant_addons.SecretsSync.Guard.{check_shrink, check_shrink-pos}
use homeassistant_addons.SecretsSync.World.{
  RenderFault, synthetic, unexpected, World, Fault, coded, other, Notice, FilesResult,
}
use homeassistant_addons.SecretsSync.Merge.{Merged, Shadow}
use homeassistant_addons.SecretsSync.State.{StateStore}
use homeassistant_addons.SecretsSync.Supervisor.{S, Config, call, call_raising}
use homeassistant_addons.SecretsSync.Supervisor.Fetch.{Fetched}
use homeassistant_addons.SecretsSync.Supervisor.Collect.{
  Collected, emit_problems, collect_one, collect, fetch_all, emit_notices, all_notices,
}
use homeassistant_addons.SecretsSync.Supervisor.Write.{
  synthetic_report, add_synthetic, synthesize, previous_secrets, guard_report, reloaded,
  after_write, on_secrets, on_files, refuse, write_both, guarded_write,
}
use homeassistant_addons.SecretsSync.Supervisor.Cycle.{
  Success, write_stage, after_synthesis, after_merge, emit_shadowed, emit_skipped, report_ok,
  finish_ok, succeed, fail, conclude, provider_cycle, emit_config, config_cycle, start, cycle,
}
use homeassistant_addons.SecretsSync.Supervisor.Env.{
  Closed, Holds, call-Keeps, call_raising-Keeps, read-Keeps, basic, event-Keeps, emit-Keeps,
  fetch_provider-Keeps, finish-Keeps,
}

-- A write of a set that is not empty keeps the property.
pub record Writes (W : World) (Q : W.Env → Type 0) : Type 0 where
  pub secrets :
      (d : Dict String String) (e : W.Env) → 0 < length d → Q e → Q ((W.write_secrets d e).1)

module _ (W : World) (Q : W.Env → Type 0) (closed : Closed W Q) (cfg : Config) where
  abbrev pub Kept : {A : Type 0} → S W A → Type 0
  Kept m = Keeps (Holds W Q) m

  emit_problems-Keeps :
      (name : String) (ps : List Problem) (sigs : List String) → Kept (emit_problems W name ps sigs)
  unfolding emit_problems
  emit_problems-Keeps name [] sigs = search basic
  emit_problems-Keeps name (p ∷ ps) sigs =
      Keeps-bind _ _ (search (emit-Keeps W Q closed))
        (λ sig. emit_problems-Keeps name ps (sigs ++ sig ∷ []))

  collect_one-Keeps :
      (t : ℕ) (f : Fetched) (o : Option Snapshot) (c : Collected) → Kept (collect_one W t f o c)
  unfolding collect_one
  collect_one-Keeps t f (some snap) c = search basic
  collect_one-Keeps t f none c = search (basic, emit-Keeps, emit_problems-Keeps) depth 12

  collect-Keeps : (t : ℕ) (fs : List Fetched) (c : Collected) → Kept (collect W t fs c)
  unfolding collect
  collect-Keeps t [] c = search basic
  collect-Keeps t (f ∷ fs) c =
      Keeps-bind _ _ (collect_one-Keeps t f f.snapshot c) (λ c'. collect-Keeps t fs c')

  fetch_all-Keeps : (names : List String) → Kept (fetch_all W names)
  unfolding fetch_all
  fetch_all-Keeps [] = search basic
  fetch_all-Keeps (name ∷ names) =
      Keeps-bind _ _ (fetch_provider-Keeps W Q closed name)
        (λ f. Keeps-bind _ _ (fetch_all-Keeps names) (λ fs. search basic))

  emit_notices-Keeps :
      (name : String) (ns : List Notice) (sigs : List String) → Kept (emit_notices W name ns sigs)
  unfolding emit_notices
  emit_notices-Keeps name [] sigs = search basic
  emit_notices-Keeps name (n ∷ ns) sigs =
      Keeps-bind _ _ (search (emit-Keeps W Q closed))
        (λ sig. emit_notices-Keeps name ns (sigs ++ sig ∷ []))

  all_notices-Keeps : (fs : List Fetched) (sigs : List String) → Kept (all_notices W fs sigs)
  unfolding all_notices
  all_notices-Keeps [] sigs = search basic
  all_notices-Keeps (f ∷ fs) sigs = Keeps-bind _ _ (read-Keeps W Q closed _) (λ ns.
      Keeps-bind _ _ (emit_notices-Keeps f.name ns sigs) (λ sigs'. all_notices-Keeps fs sigs'))

  emit_shadowed-Keeps : (xs : List Shadow) (sigs : List String) → Kept (emit_shadowed W cfg xs sigs)
  unfolding emit_shadowed
  emit_shadowed-Keeps [] sigs = search basic
  emit_shadowed-Keeps ((name, winner, loser) ∷ rest) sigs =
      Keeps-bind _ _ (search (emit-Keeps W Q closed))
        (λ sig. emit_shadowed-Keeps rest (sigs ++ sig ∷ []))

  emit_skipped-Keeps : (xs : List String) (sigs : List String) → Kept (emit_skipped W cfg xs sigs)
  unfolding emit_skipped
  emit_skipped-Keeps [] sigs = search basic
  emit_skipped-Keeps (x ∷ rest) sigs =
      Keeps-bind _ _ (search (emit-Keeps W Q closed))
        (λ sig. emit_skipped-Keeps rest (sigs ++ sig ∷ []))

  emit_config-Keeps : (ps : List Problem) (sigs : List String) → Kept (emit_config W cfg ps sigs)
  unfolding emit_config
  emit_config-Keeps [] sigs = search basic
  emit_config-Keeps (p ∷ ps) sigs =
      Keeps-bind _ _ (search (emit-Keeps W Q closed))
        (λ sig. emit_config-Keeps ps (sigs ++ sig ∷ []))

  synthetic_report-Keeps :
      (b : Bool) (f : Option SyntheticFailure) → Kept (synthetic_report W cfg b f)
  unfolding synthetic_report
  synthetic_report-Keeps b f = search basic

  add_synthetic-Keeps :
      (m : Merged) (r : Result RenderFault (Dict String String)) → Kept (add_synthetic W cfg m r)
  unfolding add_synthetic
  add_synthetic-Keeps m (ok synth) = search (basic, synthetic_report-Keeps) depth 9
  add_synthetic-Keeps m (err (synthetic f)) = search (basic, synthetic_report-Keeps) depth 9
  add_synthetic-Keeps m (err (unexpected exception)) = search basic

  pub synthesize-Keeps : (m : Merged) → Kept (synthesize W cfg m)
  unfolding synthesize
  synthesize-Keeps m = search (basic, add_synthetic-Keeps)

  previous-Keeps : Kept (previous_secrets W cfg)
  unfolding previous_secrets
  previous-Keeps = search basic

  guard_report-Keeps : (d : Dict String String) → Kept (guard_report W cfg d)
  unfolding guard_report
  guard_report-Keeps d = search (basic, previous-Keeps)

  pub refuse-Keeps : (d : Dict String String) (last : Option ℕ) → Kept (refuse W cfg d last)
  unfolding refuse
  refuse-Keeps d last = search (basic, guard_report-Keeps)

  reloaded-Keeps : (a b : ℕ) (o : Option String) → Kept (reloaded W cfg a b o)
  unfolding reloaded
  reloaded-Keeps a b none = search (basic, event-Keeps) depth 9
  reloaded-Keeps a b (some error) = search (basic, event-Keeps) depth 9

  reload-Keeps : Kept (call_raising W W.reload)
  reload-Keeps = call_raising-Keeps W Q closed W.reload closed.reload

  pub after_write-Keeps : (d p : Dict String String) (b : Bool) → Kept (after_write W cfg d p b)
  unfolding after_write
  after_write-Keeps d p b = search (basic, reload-Keeps, reloaded-Keeps) depth 12

  on_secrets-Keeps :
      (d p : Dict String String) (skipped : List String) (r : Result Fault Bool)
      → Kept (on_secrets W cfg d p skipped r)
  unfolding on_secrets
  on_secrets-Keeps d p skipped (ok wrote) = search (basic, after_write-Keeps)
  on_secrets-Keeps d p skipped (err (coded e)) = search basic
  on_secrets-Keeps d p skipped (err (other x)) = search basic

  files-Keeps : (fs : Dict String Bytes) → Kept (call W (W.write_files fs))
  files-Keeps fs = call-Keeps W Q closed (W.write_files fs) (closed.files fs)

  module _ (writes : Writes W Q) where
    secrets-Keeps : (d : Dict String String) → 0 < length d → Kept (call W (W.write_secrets d))
    secrets-Keeps d pos = record { at = λ r q. writes.secrets d r.env pos q }

    on_files-Keeps :
        (d : Dict String String) (r : Result Fault FilesResult)
        → 0 < length d
        → Kept (on_files W cfg d r)
    unfolding on_files
    on_files-Keeps d (ok result) pos =
        search (basic, previous-Keeps, secrets-Keeps, on_secrets-Keeps) depth 9
    on_files-Keeps d (err (coded e)) pos = search basic
    on_files-Keeps d (err (other x)) pos = search basic

    write_both-Keeps : (m : Merged) → 0 < length m.secrets → Kept (write_both W cfg m)
    unfolding write_both
    write_both-Keeps m pos = search (basic, files-Keeps, on_files-Keeps)

    -- The guard lets only a set pass that is not empty.
    decided-Keeps :
        (force : Bool) (m : Merged) (last : Option ℕ) (b : Bool)
        → check_shrink W.floats (length m.secrets) last cfg.shrink_guard_percent force ≡ b
        → Kept (if b then refuse W cfg m.secrets last else write_both W cfg m)
    decided-Keeps force m last true e = refuse-Keeps m.secrets last
    decided-Keeps force m last false e =
        write_both-Keeps m
          (check_shrink-pos W.floats (length m.secrets) last cfg.shrink_guard_percent force e)

    guarded_write-Keeps : (force : Bool) (m : Merged) → Kept (guarded_write W cfg force m)
    unfolding guarded_write
    guarded_write-Keeps force m =
        Keeps-bind _ _ (read-Keeps W Q closed _) (λ last. decided-Keeps force m last _ refl)

    write_stage-Keeps : (force : Bool) (p : Merged × List String) → Kept (write_stage W cfg force p)
    unfolding write_stage
    write_stage-Keeps force (m, names) = search (basic, guarded_write-Keeps)

    after_synthesis-Keeps :
        (force : Bool) (r : Result CodedError (Merged × List String))
        → Kept (after_synthesis W cfg force r)
    unfolding after_synthesis
    after_synthesis-Keeps force (ok p) = write_stage-Keeps force p
    after_synthesis-Keeps force (err e) = search basic

    after_merge-Keeps :
        (force : Bool) (r : Result CodedError Merged) → Kept (after_merge W cfg force r)
    unfolding after_merge
    after_merge-Keeps force (ok m) = search (basic, synthesize-Keeps, after_synthesis-Keeps)
    after_merge-Keeps force (err e) = search basic

    report_ok-Keeps : (b : Bool) (st : StateStore) → Kept (report_ok W cfg b st)
    unfolding report_ok
    report_ok-Keeps b st = search (basic, event-Keeps) depth 9

    finish_ok-Keeps : (t : ℕ) (b : Bool) (sigs : List String) → Kept (finish_ok W cfg t b sigs)
    unfolding finish_ok
    finish_ok-Keeps t b sigs = search (basic, report_ok-Keeps, finish-Keeps) depth 9

    succeed-Keeps :
        (t : ℕ) (failed : List Fetched) (sigs : List String) (x : Success)
        → Kept (succeed W cfg t failed sigs x)
    unfolding succeed
    succeed-Keeps t failed sigs x =
        search (basic, emit_shadowed-Keeps, emit_skipped-Keeps, finish_ok-Keeps, finish-Keeps) depth
          12

    fail-Keeps : (t : ℕ) (e : CodedError) (sigs : List String) → Kept (fail W cfg t e sigs)
    unfolding fail
    fail-Keeps t e sigs = search (basic, emit-Keeps, finish-Keeps) depth 12

    conclude-Keeps :
        (t : ℕ) (c : Collected) (r : Result CodedError Success) → Kept (conclude W cfg t c r)
    unfolding conclude
    conclude-Keeps t c (ok x) = succeed-Keeps t c.failed c.sigs x
    conclude-Keeps t c (err e) = fail-Keeps t e c.sigs

    provider_cycle-Keeps : (t : ℕ) (force : Bool) → Kept (provider_cycle W cfg t force)
    unfolding provider_cycle
    provider_cycle-Keeps t force =
        search
          (
            basic, synthetic_report-Keeps, fetch_all-Keeps, collect-Keeps, all_notices-Keeps,
            after_merge-Keeps, conclude-Keeps,
          )
          depth 20

    config_cycle-Keeps :
        (t : ℕ) (p : Problem) (ps : List Problem) → Kept (config_cycle W cfg t p ps)
    unfolding config_cycle
    config_cycle-Keeps t p ps = search (basic, emit_config-Keeps, finish-Keeps) depth 9

    start-Keeps : (t : ℕ) (force : Bool) (ps : List Problem) → Kept (start W cfg t force ps)
    unfolding start
    start-Keeps t force [] = provider_cycle-Keeps t force
    start-Keeps t force (p ∷ ps) = config_cycle-Keeps t p ps

    pub cycle-Keeps : (force : Bool) → Kept (cycle W cfg force)
    unfolding cycle
    cycle-Keeps force = search (basic, start-Keeps) depth 9
