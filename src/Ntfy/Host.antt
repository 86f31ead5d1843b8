-- ===== src/Ntfy/Host.antt =====
-- What the services stand on: sqlite on auth.db, the ntfy program, the backups and the files.
use homeassistant_addons.Common.{ℕ, Bool, String, List, Option, Result}
use homeassistant_addons.Common.Action.{Raises, pure}
use homeassistant_addons.Common.Dict.{Dict}
use homeassistant_addons.Ntfy.Contract.{Fault}

-- An exception of sqlite3: OperationalError with its text, or another.
pub data SqlError : Type 0 where
  operational : (text : String) → SqlError
  sql_error : SqlError

-- Rows of the tables `user` (with `tier`), `user_access` and `user_token` (each with `user`).
pub record DbUser : Type 0 where
  pub name : String
  pub role : String
  pub tier : Option String
  pub provisioned : Bool

pub record DbAcl : Type 0 where
  pub user : String
  pub topic : String
  pub read : Bool
  pub write : Bool
  pub provisioned : Bool

pub record DbToken : Type 0 where
  pub user : String
  pub token : String
  pub label : String
  pub expires : ℕ
  pub last_access : ℕ
  pub last_origin : String
  pub provisioned : Bool

-- `subprocess.run`: a process that ended, a timeout, or an OSError by its type's name.
pub data Spawned : Type 0 where
  ended : (returncode : ℕ) (stdout stderr : String) → Spawned
  timed_out : Spawned
  os_error : (exception : String) → Spawned

-- A rule that a promotion set aside.
pub record StashRule : Type 0 where
  pub topic : String
  pub permission : String
  pub origin : String

-- The document of origins.json. Its schema number is that of every valid document.
pub record Doc : Type 0 where
  pub users : Dict String String
  pub acls : Dict String (Dict String String)
  pub tokens : Dict String (Dict String String)
  pub acl_stash : Dict String (List StashRule)

pub record Host : Type 1 where
  pub Env : Type 0
  -- `self.path.is_file()`, and the rows of the tables, users by name and tokens by user, last access
  -- and label, as their queries order them
  pub is_file : Env → Bool
  pub schema_rows : Env → Result SqlError (List ℕ)
  pub user_rows : Env → Result SqlError (List DbUser)
  pub acl_rows : Env → Result SqlError (List DbAcl)
  pub token_rows : Env → Result SqlError (List DbToken)
  -- The ntfy program, with arguments and a password in its environment.
  pub spawn : List String → Option String → Env → Spawned × Env
  pub sleep : Env → Env
  -- `BackupStore.create(reason)`: the name of the backup
  pub backup : String → Env → Result Fault String × Env
  -- The document that `_load` reads, if another process replaced the file.
  pub refresh : Env → Option Doc × Env
  -- `_save`
  pub save : Doc → Env → Result Fault (Unit {0}) × Env
  -- The first 12 hex digits of the SHA-256 sum, and a time as ISO text.
  pub digest : String → String
  pub iso_utc : ℕ → String

-- The parts of the context that change.
pub record Ctx (H : Host) : Type 0 where
  pub env : H.Env
  pub doc : Doc

module _ (H : Host) where
  abbrev pub M : Type 0 → Type 0
  M A = Raises Fault (Ctx H) A

  -- A call of the environment, and one that may raise.
  abbrev pub call : {A : Type 0} → (H.Env → A × H.Env) → M A
  call f c = pure ((f c.env).0) (record c { env = (f c.env).1 })

  abbrev pub call_raising : {A : Type 0} → (H.Env → Result Fault A × H.Env) → M A
  call_raising f c = ((f c.env).0, record c { env = (f c.env).1 })

  -- A query, which changes nothing.
  abbrev pub query : {A : Type 0} → (H.Env → Result Fault A) → M A
  query f c = (f c.env, c)
