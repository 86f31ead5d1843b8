-- ===== src/SecretsSync/Supervisor/Env.antt =====
-- What every method of the supervisor keeps of its environment: any property that the calls keep,
-- where a write of secrets.yaml must keep it only for a set that is not empty.
use homeassistant_addons.Common.{
  ℕ, String, List, [], ◌∷◌, Option, none, some, Result, ok, err, string_eq,
}
use homeassistant_addons.Common.Action.{gets}
use homeassistant_addons.Common.Action.Keeps.{Keeps, keeps_rules, Keeps-bind, Keeps-if, Keeps-catch}
use homeassistant_addons.Common.Dict.{Dict}
use homeassistant_addons.SecretsSync.Contract.{Bytes, Problem, Snapshot}
use homeassistant_addons.SecretsSync.State.{StateStore}
use homeassistant_addons.SecretsSync.World.{World, Fault, coded, other, Scan}
use homeassistant_addons.SecretsSync.Supervisor.{
  Run, Supervisor, Config, set_sup, call, call_raising, event, emit, clean,
}
use homeassistant_addons.SecretsSync.Supervisor.Fetch.{fetched, try_fetch, loaded, fetch_provider}
use homeassistant_addons.SecretsSync.Supervisor.Finish.{
  announce_missing, scanned, refresh_usage, finish,
}

pub record Closed (W : World) (Q : W.Env → Type 0) : Type 0 where
  pub clock : (e : W.Env) → Q e → Q ((W.clock e).1)
  pub load : (name : String) (e : W.Env) → Q e → Q ((W.load name e).1)
  pub validate : (name : String) (e : W.Env) → Q e → Q ((W.validate name e).1)
  pub fetch : (name : String) (e : W.Env) → Q e → Q ((W.fetch name e).1)
  pub check : (name : String) (e : W.Env) → Q e → Q ((W.check name e).1)
  pub reload : (e : W.Env) → Q e → Q ((W.reload e).1)
  pub wait : (n : ℕ) (e : W.Env) → Q e → Q ((W.wait n e).1)
  pub wake : (e : W.Env) → Q e → Q (W.wake e)
  pub clear : (e : W.Env) → Q e → Q (W.clear e)
  pub files : (files : Dict String Bytes) (e : W.Env) → Q e → Q ((W.write_files files e).1)
  pub save : (st : StateStore) (e : W.Env) → Q e → Q (W.save st e)

abbrev pub Holds : (W : World) → (W.Env → Type 0) → Run W → Type 0
Holds W Q r = Q r.env

module _ (W : World) (Q : W.Env → Type 0) (closed : Closed W Q) where
  pub call-Keeps :
      {A : Type 0} (f : W.Env → A × W.Env)
      → ((e : W.Env) → Q e → Q ((f e).1))
      → Keeps (Holds W Q) (call W f)
  call-Keeps f h = record { at = λ r q. h r.env q }

  pub call_raising-Keeps :
      {A : Type 0} (f : W.Env → Result String A × W.Env)
      → ((e : W.Env) → Q e → Q ((f e).1))
      → Keeps (Holds W Q) (call_raising W f)
  call_raising-Keeps f h = record { at = λ r q. h r.env q }

  pub set-Keeps : (f : Supervisor → Supervisor) → Keeps (Holds W Q) (set_sup W f)
  set-Keeps f = record { at = λ r q. q }

  pub clean-Keeps : (text : String) → Keeps (Holds W Q) (clean W text)
  clean-Keeps text = record { at = λ r q. q }

  pub now-Keeps : Keeps (Holds W Q) (call W W.clock)
  now-Keeps = call-Keeps W.clock closed.clock

  pub save_state-Keeps :
      (st : StateStore)
      → Keeps {E = String} (Holds W Q) (λ (r : Run W). (ok tt, record r { env = W.save st r.env }))
  save_state-Keeps st = record { at = λ r q. closed.save st r.env q }

  pub read-Keeps : {A : Type 0} (f : Run W → A) → Keeps {E = String} (Holds W Q) (gets f)
  read-Keeps f = record { at = λ r q. q }

  pub ruleset basic = (keeps_rules, set-Keeps, clean-Keeps, now-Keeps, read-Keeps)

  pub event-Keeps :
      (level code message : String) (provider : Option String)
      → Keeps (Holds W Q) (event W level code message provider)
  unfolding event
  event-Keeps level code message provider = search basic

  pub emit-Keeps :
      (level code message : String) (provider : Option String)
      → Keeps (Holds W Q) (emit W level code message provider)
  unfolding emit
  emit-Keeps level code message provider = search (basic, event-Keeps)

  fetched-Keeps :
      (name : String) (problems : List Problem) (r : Result Fault Snapshot)
      → Keeps (Holds W Q) (fetched W name problems r)
  unfolding fetched
  fetched-Keeps name problems (ok snap) = search basic
  fetched-Keeps name problems (err (coded e)) = search basic
  fetched-Keeps name problems (err (other x)) = search basic

  load-Keeps : (name : String) → Keeps (Holds W Q) (call W (W.load name))
  load-Keeps name = call-Keeps (W.load name) (closed.load name)

  validate-Keeps : (name : String) → Keeps (Holds W Q) (call W (W.validate name))
  validate-Keeps name = call-Keeps (W.validate name) (closed.validate name)

  fetch-Keeps : (name : String) → Keeps (Holds W Q) (call W (W.fetch name))
  fetch-Keeps name = call-Keeps (W.fetch name) (closed.fetch name)

  try_fetch-Keeps :
      (name : String) (problems blocking : List Problem)
      → Keeps (Holds W Q) (try_fetch W name problems blocking)
  unfolding try_fetch
  try_fetch-Keeps name problems [] = search (basic, fetch-Keeps, fetched-Keeps)
  try_fetch-Keeps name problems (p ∷ ps) = search basic

  loaded-Keeps : (name : String) (r : Result Fault (Unit {0})) → Keeps (Holds W Q) (loaded W name r)
  unfolding loaded
  loaded-Keeps name (err (coded e)) = search basic
  loaded-Keeps name (err (other exception)) = search basic
  loaded-Keeps name (ok _) = search (basic, validate-Keeps, try_fetch-Keeps)

  pub fetch_provider-Keeps : (name : String) → Keeps (Holds W Q) (fetch_provider W name)
  unfolding fetch_provider
  fetch_provider-Keeps name = search (basic, load-Keeps, loaded-Keeps)

  module _ (cfg : Config) where
    announce-Keeps : (names : List String) → Keeps (Holds W Q) (announce_missing W cfg names)
    unfolding announce_missing
    announce-Keeps [] = search basic
    announce-Keeps (m ∷ ms) = search (basic, emit-Keeps)

    scanned-Keeps :
        (t : ℕ) (known : Option (Dict String String)) (r : Result String Scan)
        → Keeps (Holds W Q) (scanned W cfg t known r)
    unfolding scanned
    scanned-Keeps t none r = search basic
    scanned-Keeps t (some known) (err e) = search basic
    scanned-Keeps t (some known) (ok result) = search (basic, announce-Keeps)

    refresh_usage-Keeps : (t : ℕ) → Keeps (Holds W Q) (refresh_usage W cfg t)
    unfolding refresh_usage
    refresh_usage-Keeps t = search (basic, scanned-Keeps) depth 12

    pub finish-Keeps :
        (t : ℕ) (status : String) (code : Option String) (sigs : List String)
        → Keeps (Holds W Q) (finish W cfg t status code sigs)
    unfolding finish
    finish-Keeps t status code sigs = search (basic, refresh_usage-Keeps, save_state-Keeps) depth 9
