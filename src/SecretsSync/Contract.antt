-- ===== src/SecretsSync/Contract.antt =====
-- secrets-sync/app/providers/base.py: what providers return, and the errors that carry a code.
use homeassistant_addons.Common.{ℕ, String, List}
use homeassistant_addons.Common.Dict.{Dict}

pub record Problem : Type 0 where
  pub code : String
  pub message : String
  pub severity : String

-- File contents, as bytes.
abbrev pub Bytes : Type 0
Bytes = List ℕ

pub record Snapshot : Type 0 where
  pub secrets : Dict String String
  pub files : Dict String Bytes
  pub revision : String
  pub check_token : String

-- An exception with a code and a message: ProviderError, MergeError, WriteError, ProviderLoadError.
pub record CodedError : Type 0 where
  pub code : String
  pub message : String

-- SyntheticFailure, which names the key as well.
pub record SyntheticFailure : Type 0 where
  pub code : String
  pub message : String
  pub name : String
