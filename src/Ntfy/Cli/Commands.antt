-- ===== src/Ntfy/Cli/Commands.antt =====
-- What a call of the ntfy program keeps of the environment, with its retries and their pauses.
use homeassistant_addons.Common.{
  ℕ, zero, suc, Bool, true, false, String, ◌<>◌, List, [], ◌∷◌, Option, none, some, string_eq,
}
use homeassistant_addons.Common.Action.Keeps.{Keeps, Keeps-pure, Keeps-raise, Keeps-if, Keeps-bind}
use homeassistant_addons.Ntfy.Contract.{value_error}
use homeassistant_addons.Ntfy.Host.{Host, Spawned, ended, timed_out, os_error, Ctx, M, call}
use homeassistant_addons.Ntfy.Cli.{
  lock_retries, require, attempted, attempts, run, run_quiet, user_add, user_change_pass,
  access_set,
}

module _ (H : Host) (P : H.Env → Type 0) where
  abbrev pub OnEnv : Ctx H → Type 0
  OnEnv c = P c.env

  -- The program keeps `P` when it gets these arguments.
  abbrev pub Harmless : List String → Type 0
  Harmless args = (password : Option String) (e : H.Env) → P e → P (H.spawn args password e).1

-- The same for a property of the whole context.
abbrev pub Steady : (H : Host) → (Ctx H → Type 0) → List String → Type 0
Steady H Q args =
    (password : Option String) (c : Ctx H)
    → Q c
    → Q (record c { env = (H.spawn args password c.env).1 })

module _ (H : Host) (Q : Ctx H → Type 0)
    (sleep : (c : Ctx H) → Q c → Q (record c { env = H.sleep c.env })) where
  require-Keeps : (test : Bool) (message : String) → Keeps Q (require H test message)
  require-Keeps test message = Keeps-if test _ _ (Keeps-pure tt) (Keeps-raise (value_error message))

  attempted-Keeps :
      (last : Bool) (again : M H String) (outcome : Spawned)
      → Keeps Q again
      → Keeps Q (attempted H last again outcome)
  unfolding attempted
  attempted-Keeps last again timed_out k = Keeps-raise _
  attempted-Keeps last again (os_error exception) k = Keeps-raise _
  attempted-Keeps last again (ended zero out error) k = Keeps-pure out
  attempted-Keeps last again (ended (suc n) out error) k = Keeps-if _ _ _ k (Keeps-raise _)

  spawn-Keeps :
      (args : List String) (password : Option String)
      → Steady H Q args
      → Keeps Q (call H (H.spawn args password))
  spawn-Keeps args password h = record { at = λ c p. h password c p }

  sleep-Keeps : Keeps Q (call H (λ e. (tt {0}, H.sleep e)))
  sleep-Keeps = record { at = λ c p. sleep c p }

  attempts-Keeps :
      (n : ℕ) (args : List String) (password : Option String)
      → Steady H Q args
      → Keeps Q (attempts H n args password)
  unfolding attempts
  attempts-Keeps zero args password h =
      Keeps-bind _ _ (spawn-Keeps args password h) (λ r. attempted-Keeps true _ r (Keeps-pure ""))
  attempts-Keeps (suc n) args password h = Keeps-bind _ _ (spawn-Keeps args password h) (λ r.
      attempted-Keeps false _ r
        (Keeps-bind _ _ sleep-Keeps (λ _. attempts-Keeps n args password h)))

  run_quiet-Keeps :
      (args : List String) (password : Option String)
      → Steady H Q args
      → Keeps Q (run_quiet H args password)
  unfolding run
  run_quiet-Keeps args password h =
      Keeps-bind _ _ (attempts-Keeps lock_retries args password h) (λ _. Keeps-pure tt)

  pub user_add-Keeps :
      (name password role : String)
      → Steady H Q ("user" ∷ "add" ∷ ("--role=" <> role) ∷ name ∷ [])
      → Keeps Q (user_add H name password role)
  unfolding user_add
  user_add-Keeps name password role h = Keeps-bind _ _ (require-Keeps _ _) (λ _.
      Keeps-bind _ _ (require-Keeps _ _)
        (λ _. Keeps-bind _ _ (require-Keeps _ _) (λ _. run_quiet-Keeps _ (some password) h)))

  pub user_change_pass-Keeps :
      (name password : String)
      → Steady H Q ("user" ∷ "change-pass" ∷ name ∷ [])
      → Keeps Q (user_change_pass H name password)
  unfolding user_change_pass
  user_change_pass-Keeps name password h =
      Keeps-bind _ _ (require-Keeps _ _)
        (λ _. Keeps-bind _ _ (require-Keeps _ _) (λ _. run_quiet-Keeps _ (some password) h))

  pub access_set-Keeps :
      (user topic permission : String)
      → Steady H Q ("access" ∷ user ∷ topic ∷ permission ∷ [])
      → Keeps Q (access_set H user topic permission)
  unfolding access_set
  access_set-Keeps user topic permission h = Keeps-bind _ _ (require-Keeps _ _) (λ _.
      Keeps-bind _ _ (require-Keeps _ _)
        (λ _. Keeps-bind _ _ (require-Keeps _ _) (λ _. run_quiet-Keeps _ none h)))
