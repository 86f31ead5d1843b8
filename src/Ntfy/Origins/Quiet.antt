-- ===== src/Ntfy/Origins/Quiet.antt =====
-- What the store of origins keeps of the environment.
use homeassistant_addons.Common.{String, Option, none, some, contains, string_eq}
use homeassistant_addons.Common.Action.{◌>>◌}
use homeassistant_addons.Common.Action.Keeps.{
  Keeps, Keeps-pure, Keeps-raise, Keeps-gets, Keeps-if, Keeps-bind,
}
use homeassistant_addons.Common.Dict
use homeassistant_addons.Ntfy.Contract.{value_error, known_origins}
use homeassistant_addons.Ntfy.Host.{Host, Doc}
use homeassistant_addons.Ntfy.Cli.Commands.{OnEnv}
use homeassistant_addons.Ntfy.Origins.{
  taken, refresh, read, save, write, check_origin, get_acl, snapshot, set_user, set_acl, put_inner,
}

-- `P` is kept when the file is read again and when it is written.
pub record Quiet (H : Host) (P : H.Env → Type 0) : Type 0 where
  pub refresh : (e : H.Env) → P e → P (H.refresh e).1
  pub save : (d : Doc) (e : H.Env) → P e → P (H.save d e).1

module _ (H : Host) (P : H.Env → Type 0) (closed : Quiet H P) where
  taken-Keeps : (changed : Option Doc) → Keeps (OnEnv H P) (taken H changed)
  taken-Keeps none = Keeps-pure tt
  taken-Keeps (some d) = record { at = λ c p. p }

  refresh-Keeps : Keeps (OnEnv H P) (refresh H)
  unfolding refresh
  refresh-Keeps =
      Keeps-bind _ _ (record { at = λ c p. closed.refresh c.env p }) (λ r. taken-Keeps r)

  pub read-Keeps : {A : Type 0} (f : Doc → A) → Keeps (OnEnv H P) (read H f)
  unfolding read
  read-Keeps f = Keeps-bind _ _ refresh-Keeps (λ _. Keeps-gets (λ c. f c.doc))

  save-Keeps : Keeps (OnEnv H P) (save H)
  unfolding save
  save-Keeps =
      Keeps-bind _ _ (Keeps-gets (λ c. c.doc)) (λ d. record { at = λ c p. closed.save d c.env p })

  write-Keeps : (f : Doc → Doc) → Keeps (OnEnv H P) (write H f)
  unfolding write
  write-Keeps f =
      Keeps-bind _ _ refresh-Keeps
        (λ _. Keeps-bind _ _ (record { at = λ c p. p }) (λ _. save-Keeps))

  checked-Keeps :
      (origin : String) (f : Doc → Doc) → Keeps (OnEnv H P) (check_origin H origin >> write H f)
  checked-Keeps origin f =
      Keeps-bind _ _
        (Keeps-if (contains known_origins origin) _ _ (Keeps-pure tt)
          (Keeps-raise (value_error "unknown origin")))
        (λ _. write-Keeps f)

  pub set_user-Keeps : (name origin : String) → Keeps (OnEnv H P) (set_user H name origin)
  unfolding set_user
  set_user-Keeps name origin =
      checked-Keeps origin (λ d. record d { users = Dict.set name origin d.users })

  pub set_acl-Keeps : (user topic origin : String) → Keeps (OnEnv H P) (set_acl H user topic origin)
  unfolding set_acl
  set_acl-Keeps user topic origin =
      checked-Keeps origin (λ d. record d { acls = put_inner user topic origin d.acls })

  pub get_acl-Keeps : (user topic : String) → Keeps (OnEnv H P) (get_acl H user topic)
  unfolding get_acl
  get_acl-Keeps user topic = read-Keeps _

  pub snapshot-Keeps : Keeps (OnEnv H P) (snapshot H)
  unfolding snapshot
  snapshot-Keeps = read-Keeps _
