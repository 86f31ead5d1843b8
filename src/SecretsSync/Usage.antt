-- ===== src/SecretsSync/Usage.antt =====
-- `summarize` of secrets-sync/app/engine/usage.py: which secrets are used, missing and unused.
use homeassistant_addons.Common.{
  ℕ, Bool, String, List, [], ◌∷◌, not, or_default, contains, string_eq, if◌then◌else◌,
}
use homeassistant_addons.Common.Dict
use homeassistant_addons.Common.Dict.{Dict}
use homeassistant_addons.Common.Sort.{sort, str_le}
use homeassistant_addons.SecretsSync.State.{UsageEntry, UsageBlock}
use homeassistant_addons.SecretsSync.World.{Scan}

-- `entry(key)`. A key of `refs` is one of `counts`, since the scan writes both.
abbrev usage_entry : Scan → String → UsageEntry
usage_entry result key = record {
  count = or_default (Dict.get key result.counts) 0;
  refs = or_default (Dict.get key result.refs) [];
}

-- `{k: entry(k) for k in keys if test(k)}`
unfoldable pub entries_where : (String → Bool) → Scan → List String → Dict String UsageEntry
entries_where test result [] = []
entries_where test result (k ∷ ks) =
    let rest = entries_where test result ks in
    if test k then (k, usage_entry result k) ∷ rest else rest

-- `known - set(refs)`
unfoldable pub minus : List String → List String → List String
minus [] bs = []
minus (a ∷ as') bs = let rest = minus as' bs in if contains bs a then rest else a ∷ rest

-- `summarize`, with the time that the caller adds
unfoldable pub summarize : Scan → List String → ℕ → UsageBlock
unfolding entries_where minus
summarize result known now =
    let refs = sort str_le (Dict.keys result.refs) in
    record {
      roots = result.roots;
      files_scanned = result.files_scanned;
      truncated = result.truncated;
      used = entries_where (contains known) result refs;
      missing = entries_where (λ k. not (contains known k)) result refs;
      unused = sort str_le (minus known (Dict.keys result.refs));
      scanned_at = now;
    }
