-- ===== src/SecretsSync/Supervisor/Finish/Backoff.antt =====
-- When the next cycle comes.
use native.Mathlib.Nat.{two-pow-succ}
use homeassistant_addons.Common.{
  ℕ, zero, suc, [], ◌∷◌, ltb, ◌+◌, ◌^◌, ◌≤◌, ◌<◌, ◌≡◌, String, Option, List, arith, ◌==◌, string_eq,
  if◌then◌else◌,
}
use homeassistant_addons.SecretsSync.World.{World}
use homeassistant_addons.SecretsSync.Supervisor.{Supervisor, Config}
use homeassistant_addons.SecretsSync.Supervisor.Finish.{delay, schedule}

lt_two_pow : (n : ℕ) → n < 2 ^ n
lt_two_pow zero = omega arith
lt_two_pow (suc n) = omega (arith, lt_two_pow n, two-pow-succ n)

pow_grows : (n k : ℕ) → 2 ^ n ≤ 2 ^ (k + n)
pow_grows n zero = let e : 0 + n ≡ n = omega arith in rw e (omega arith)
pow_grows n (suc k) =
    let e : suc k + n ≡ suc (k + n) = omega arith in
    rw e (omega (arith, pow_grows n k, two-pow-succ (k + n)))

-- From the first failure on the delay never gets shorter, and from failure number
-- `interval + 1` on it is the whole interval.
pub delay_mono :
    (interval n k : ℕ)
    → (delay interval (suc n) ≤ delay interval (suc (k + n)))
      × (delay interval (suc (interval + k)) ≡ interval)
unfolding delay
delay_mono interval n k = (omega (arith, pow_grows n k), omega (arith, lt_two_pow (interval + k)))

-- An end of a cycle, as `_finish` is told of it.
pub record Ending : Type 0 where
  pub time : ℕ
  pub status : String
  pub code : Option String
  pub sigs : List String

-- The supervisor after such ends, the latest one first.
unfoldable pub ended : (W : World) → Config → Supervisor → List Ending → Supervisor
ended W cfg s [] = s
ended W cfg s (x ∷ earlier) = schedule W cfg x.time x.status x.code x.sigs (ended W cfg s earlier)

-- How many ends in a row, up to the latest, had another status than "ok", in front of `before`.
unfoldable pub failed_in_row : ℕ → List Ending → ℕ
failed_in_row before [] = before
failed_in_row before (x ∷ earlier) =
    let rest = failed_in_row before earlier in if x.status == "ok" then 0 else suc rest

-- Half a minute, doubled `n` times.
unfoldable pub doubled : ℕ → ℕ
doubled zero = 30
doubled (suc n) = doubled n + doubled n

-- The wait after `n` failures in a row.
unfoldable pub pause : ℕ → ℕ → ℕ
unfolding doubled
pause interval zero = interval
pause interval (suc n) = if ltb (doubled n) interval then doubled n else interval
