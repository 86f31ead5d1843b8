-- ===== src/SecretsSync/Supervisor/Atomic.antt =====
-- What the part of a cycle behind the merge leaves in secrets.yaml: the old content, or all of the set
-- that the cycle rendered, if that passed the guard.
use homeassistant_addons.Common.{
  ◌≡◌, refl, ap, ◌∙◌, Bool, String, List, Option, some, Result, ok, err, arith, ◌⊎◌, inl, inr,
}
use homeassistant_addons.Common.Action.{◌>>=◌}
use homeassistant_addons.Common.Dict.{Dict}
use homeassistant_addons.SecretsSync.Contract.{CodedError}
use homeassistant_addons.SecretsSync.World.{World}
use homeassistant_addons.SecretsSync.World.Lawful.{View}
use homeassistant_addons.SecretsSync.Merge.{Merged}
use homeassistant_addons.SecretsSync.Supervisor.{Run, Config}
use homeassistant_addons.SecretsSync.Supervisor.Write.{Written, guarded_write, synthesize}
use homeassistant_addons.SecretsSync.Supervisor.Cycle.{
  Success, write_stage, after_synthesis, after_merge,
}
use homeassistant_addons.SecretsSync.Supervisor.EnvCycle.{synthesize-Keeps}
use homeassistant_addons.SecretsSync.Supervisor.Fatal.{
  Passes, guarded_write-Promised, Holding, Holding-closed,
}

module _ (W : World) (V : View W) (cfg : Config) where
  -- `d` is the set that the cycle rendered from the merged one, and the guard let it through.
  abbrev pub Attempted : Bool → Result CodedError Merged → Run W → Dict String String → Type 0
  Attempted force merged r d =
      (m : Merged) × (rendered : Merged) × (names : List String) × (merged ≡ ok m)
      × ((synthesize W cfg m r).0 ≡ ok (ok (rendered, names)))
      × Passes W V cfg force rendered ((synthesize W cfg m r).1)
      × (d ≡ rendered.secrets)

  -- Without a fatal error, the content is the set that the cycle reports. With one, it is the old content,
  -- or the set that the cycle attempted to write.
  abbrev pub PromisedContent :
      (Dict String String → Type 0)
      → Option (Dict String String)
      → Result CodedError Success
      → Option (Dict String String)
      → Type 0
  PromisedContent Q old (ok x) c = c ≡ some x.merged.secrets
  PromisedContent Q old (err e) c = (c ≡ old) ⊎ ((d : Dict String String) × Q d × (c ≡ some d))

  module _ (Q : Dict String String → Type 0) where
    stage-case :
        (force : Bool) (m : Merged) (names : List String) (r : Run W)
        (o : Result CodedError Written) (x : Result CodedError Success)
        → (Passes W V cfg force m r → Q m.secrets)
        → (guarded_write W cfg force m r).0 ≡ ok o
        → (write_stage W cfg force (m, names) r).0 ≡ ok x
        → PromisedContent Q
            (V.content r.env)
            x
            (V.content ((write_stage W cfg force (m, names) r).1.env))
    unfolding write_stage ◌>>=◌
    stage-case force m names r (ok w) (ok x) q e h =
        ground (arith, guarded_write-Promised W V cfg force m r (ok w) e)
    stage-case force m names r (ok w) (err y) q e h = absurd (ground arith)
    stage-case force m names r (err w) (ok x) q e h = absurd (ground arith)
    stage-case force m names r (err w) (err y) q e h =
        rw e (elim (guarded_write-Promised W V cfg force m r (err w) e) [
          | inl old ↦ inl old
          | inr (p, new) ↦ inr (m.secrets, q p, new)
        ])

    stage-raises :
        (force : Bool) (m : Merged) (names : List String) (r : Run W) (y : String)
        (x : Result CodedError Success)
        → (guarded_write W cfg force m r).0 ≡ err y
        → ¬ ((write_stage W cfg force (m, names) r).0 ≡ ok x)
    unfolding write_stage ◌>>=◌
    stage-raises force m names r y x e h = ground arith

    write_stage-Promised :
        (force : Bool) (m : Merged) (names : List String) (r : Run W)
        (x : Result CodedError Success)
        → (Passes W V cfg force m r → Q m.secrets)
        → (write_stage W cfg force (m, names) r).0 ≡ ok x
        → PromisedContent Q
            (V.content r.env)
            x
            (V.content ((write_stage W cfg force (m, names) r).1.env))
    write_stage-Promised force m names r x q h = go _ refl
      where
        go :
            (o : Result String (Result CodedError Written))
            → (guarded_write W cfg force m r).0 ≡ o
            → PromisedContent Q
                (V.content r.env)
                x
                (V.content ((write_stage W cfg force (m, names) r).1.env))
        go (ok o) e = stage-case force m names r o x q e h
        go (err y) e = absurd (stage-raises force m names r y x e h)

    after_synthesis-Promised :
        (force : Bool) (s : Result CodedError (Merged × List String)) (r : Run W)
        (x : Result CodedError Success)
        → ((m : Merged) (names : List String)
            → s ≡ ok (m, names)
            → Passes W V cfg force m r
            → Q m.secrets)
        → (after_synthesis W cfg force s r).0 ≡ ok x
        → PromisedContent Q
            (V.content r.env)
            x
            (V.content ((after_synthesis W cfg force s r).1.env))
    unfolding after_synthesis
    after_synthesis-Promised force (ok (m, names)) r x q h =
        write_stage-Promised force m names r x (q m names refl) h
    after_synthesis-Promised force (err e) r (ok x) q h = absurd (ground arith)
    after_synthesis-Promised force (err e) r (err y) q h = inl refl

  synthesized-Promised :
      (force : Bool) (m : Merged) (r : Run W)
      (o : Result String (Result CodedError (Merged × List String))) (x : Result CodedError Success)
      → (synthesize W cfg m r).0 ≡ o
      → (after_merge W cfg force (ok m) r).0 ≡ ok x
      → PromisedContent
          (Attempted force (ok m) r)
          (V.content r.env)
          x
          (V.content ((after_merge W cfg force (ok m) r).1.env))
  unfolding after_merge ◌>>=◌
  synthesized-Promised force m r (ok s) x e h =
      let kept =
        (synthesize-Keeps W (Holding W V cfg (V.content r.env)) (Holding-closed W V cfg _) cfg m).at
          r refl in
      let h' = rw (e, after_merge, ◌>>=◌) at h in
      rw (e, ← kept)
        (after_synthesis-Promised (Attempted force (ok m) r) force s ((synthesize W cfg m r).1) x
          (λ rendered names same passes.
            (m, rendered, names, refl, e ∙ ap (λ z. ok z) same, passes, refl))
          h')
  synthesized-Promised force m r (err y) x e h = cc (rw (e, after_merge, ◌>>=◌) at h)

  -- When the part of a cycle behind the merge returns without a fatal error, secrets.yaml holds exactly
  -- the set that the cycle reports. When it returns with one (a collision, a lost provider, an unsafe
  -- path, a failing template, the shrink guard or a write error), secrets.yaml holds what it held before,
  -- or exactly the set that this cycle merged and rendered, if the guard let that set through.
  pub after_merge-content :
      (force : Bool) (merged : Result CodedError Merged) (r : Run W) (x : Result CodedError Success)
      → (after_merge W cfg force merged r).0 ≡ ok x
      → PromisedContent
          (Attempted force merged r)
          (V.content r.env)
          x
          (V.content ((after_merge W cfg force merged r).1.env))
  unfolding after_merge
  after_merge-content force (ok m) r x h = synthesized-Promised force m r _ x refl h
  after_merge-content force (err e) r (ok x) h = absurd (ground arith)
  after_merge-content force (err e) r (err y) h = inl refl
