-- ===== src/SecretsSync/Supervisor/Fatal.antt =====
-- What the write stage of a cycle leaves in secrets.yaml: all of the merged set, or the old content. An
-- error may come after the file's replacement too.
use homeassistant_addons.Common.{
  ℕ, ◌≡◌, ◌∙◌, refl, Bool, true, false, String, List, Option, some, Result, ok, err, length, ◌⊎◌,
  inl, inr, arith, if◌then◌else◌,
}
use homeassistant_addons.Common.Action.{◌>>=◌}
use homeassistant_addons.Common.Dict.{Dict}
use homeassistant_addons.SecretsSync.Contract.{CodedError}
use homeassistant_addons.SecretsSync.World.{World, Fault, coded, other, FilesResult}
use homeassistant_addons.SecretsSync.World.Lawful.{View}
use homeassistant_addons.SecretsSync.Guard.{check_shrink}
use homeassistant_addons.SecretsSync.Merge.{Merged}
use homeassistant_addons.SecretsSync.Supervisor.{Run, Config}
use homeassistant_addons.SecretsSync.Supervisor.Write.{
  Written, on_secrets, on_files, previous_secrets, refuse, write_both, guarded_write,
}
use homeassistant_addons.SecretsSync.Supervisor.Env.{Closed}
use homeassistant_addons.SecretsSync.Supervisor.EnvCycle.{after_write-Keeps, refuse-Keeps}

-- What an outcome of the write stage promises of the content: the new set, or, with an error, the old
-- content or, where `P` holds, the new set.
abbrev pub Promised :
    Type 0
    → Dict String String
    → Option (Dict String String)
    → Result CodedError Written
    → Option (Dict String String)
    → Type 0
Promised P d old (ok w) c = c ≡ some d
Promised P d old (err e) c = (c ≡ old) ⊎ (P × (c ≡ some d))

module _ (W : World) (V : View W) (cfg : Config) where
  abbrev pub Holding : Option (Dict String String) → W.Env → Type 0
  Holding c e = V.content e ≡ c

  pub Holding-closed : (c : Option (Dict String String)) → Closed W (Holding c)
  Holding-closed c = record {
    clock = λ e q. V.clock_keeps e ∙ q;
    load = λ name e q. V.load_keeps name e ∙ q;
    validate = λ name e q. V.validate_keeps name e ∙ q;
    fetch = λ name e q. V.fetch_keeps name e ∙ q;
    check = λ name e q. V.check_keeps name e ∙ q;
    reload = λ e q. V.reload_keeps e ∙ q;
    wait = λ n e q. V.wait_keeps n e ∙ q;
    wake = λ e q. V.wake_keeps e ∙ q;
    clear = λ e q. V.clear_keeps e ∙ q;
    files = λ files e q. V.files_keeps files e ∙ q;
    save = λ st e q. V.save_keeps st e ∙ q;
  }

  module _ (P : Type 0) (p : P) where
    on_secrets-Promised :
        (d q : Dict String String) (skipped : List String) (r : Run W) (o : Result Fault Bool)
        (x : Result CodedError Written)
        → (W.write_secrets d r.env).0 ≡ o
        → (on_secrets W cfg d q skipped o (record r { env = (W.write_secrets d r.env).1 })).0 ≡ ok x
        → Promised P d (V.content r.env) x (
            V.content (
              (on_secrets W cfg d q skipped o
                (record r { env = (W.write_secrets d r.env).1 })).1.env))
    unfolding on_secrets ◌>>=◌
    on_secrets-Promised d q skipped r (ok b) (ok w) e h = ground (
      arith,
      (after_write-Keeps W (Holding (some d)) (Holding-closed (some d)) cfg d q b).at
          (record r { env = (W.write_secrets d r.env).1 }) (V.writes d r.env b e),
    )
    on_secrets-Promised d q skipped r (ok b) (err y) e h = absurd (ground arith)
    on_secrets-Promised d q skipped r (err (coded f)) (ok w) e h = cc
    on_secrets-Promised d q skipped r (err (coded f)) (err y) e h =
        elim (V.fails d r.env (coded f) e) [ inl old ↦ inl old | inr new ↦ inr (p, new) ]
    on_secrets-Promised d q skipped r (err (other f)) x e h = cc

    on_files-Promised :
        (d : Dict String String) (r : Run W) (o : Result Fault FilesResult)
        (x : Result CodedError Written)
        → (on_files W cfg d o r).0 ≡ ok x
        → Promised P d (V.content r.env) x (V.content ((on_files W cfg d o r).1.env))
    unfolding on_files previous_secrets ◌>>=◌
    on_files-Promised d r (ok result) x h = on_secrets-Promised d _ result.skipped r _ x refl h
    on_files-Promised d r (err (coded f)) (ok w) h = cc
    on_files-Promised d r (err (coded f)) (err y) h = inl refl
    on_files-Promised d r (err (other f)) x h = cc

    write_both-Promised :
        (m : Merged) (r : Run W) (x : Result CodedError Written)
        → (write_both W cfg m r).0 ≡ ok x
        → Promised P m.secrets (V.content r.env) x (V.content ((write_both W cfg m r).1.env))
    unfolding write_both ◌>>=◌
    write_both-Promised m r x h =
        rw (← V.files_keeps m.files r.env)
          (on_files-Promised m.secrets (record r { env = (W.write_files m.files r.env).1 }) _ x h)

  refuse-ne-ok :
      (d : Dict String String) (last : Option ℕ) (r : Run W) (w : Written)
      → ¬ ((refuse W cfg d last r).0 ≡ ok (ok w))
  unfolding refuse ◌>>=◌
  refuse-ne-ok d last r w h = ground arith

  refuse-Promised :
      (P : Type 0) (d : Dict String String) (last : Option ℕ) (r : Run W)
      (x : Result CodedError Written)
      → (refuse W cfg d last r).0 ≡ ok x
      → Promised P d (V.content r.env) x (V.content ((refuse W cfg d last r).1.env))
  refuse-Promised P d last r (ok w) h = absurd (refuse-ne-ok d last r w h)
  refuse-Promised P d last r (err e) h =
      inl ((refuse-Keeps W (Holding (V.content r.env)) (Holding-closed _) cfg d last).at r refl)

  decided-Promised :
      (m : Merged) (last : Option ℕ) (b : Bool) (r : Run W) (x : Result CodedError Written)
      → ((if b then refuse W cfg m.secrets last else write_both W cfg m) r).0 ≡ ok x
      → Promised
          (b ≡ false)
          m.secrets
          (V.content r.env)
          x
          (V.content (((if b then refuse W cfg m.secrets last else write_both W cfg m) r).1.env))
  decided-Promised m last true r x h = refuse-Promised (true ≡ false) m.secrets last r x h
  decided-Promised m last false r x h = write_both-Promised (false ≡ false) refl m r x h

  -- The guard lets the set of `m` through, at the count that the supervisor remembers.
  abbrev pub Passes : Bool → Merged → Run W → Type 0
  Passes force m r =
      check_shrink W.floats (length m.secrets) r.sup.last_items cfg.shrink_guard_percent force
      ≡ false

  -- When the guard and the writes return without an error, secrets.yaml holds exactly the merged set;
  -- with one, it holds what it held before, or the merged set if that passes the guard.
  pub guarded_write-Promised :
      (force : Bool) (m : Merged) (r : Run W) (x : Result CodedError Written)
      → (guarded_write W cfg force m r).0 ≡ ok x
      → Promised
          (Passes force m r)
          m.secrets
          (V.content r.env)
          x
          (V.content ((guarded_write W cfg force m r).1.env))
  unfolding guarded_write ◌>>=◌
  guarded_write-Promised force m r x h = decided-Promised m r.sup.last_items _ r x h
