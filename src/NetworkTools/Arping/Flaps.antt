-- ===== src/NetworkTools/Arping/Flaps.antt =====
-- The flap detection over a sequence of scans.
use homeassistant_addons.Common.{
  ℕ, suc, max, ◌≡◌, Bool, true, false, not, List, [], ◌∷◌, leb, arith, if◌then◌else◌,
}
use homeassistant_addons.NetworkTools.Arping.{HostState, fresh, flap}

-- The state after the raw results of scans, the latest first.
unfoldable pub after_scans : ℕ → List Bool → HostState
after_scans threshold [] = fresh
after_scans threshold (raw ∷ earlier) = flap threshold raw (after_scans threshold earlier)

-- How many of the latest scans failed in a row.
unfoldable pub failed_in_row : List Bool → ℕ
failed_in_row [] = 0
failed_in_row (raw ∷ earlier) = let rest = failed_in_row earlier in if raw then 0 else suc rest

-- A host counts as reachable exactly as long as fewer scans than the threshold, and at least one, failed
-- in a row up to the latest; the state has their number.
pub after_scans_lem :
    (threshold : ℕ) (raws : List Bool)
    → ((after_scans threshold raws).consecutive_failures ≡ failed_in_row raws)
      × ((after_scans threshold raws).effective_reachable
          ≡ not (leb (max 1 threshold) (failed_in_row raws)))
unfolding after_scans flap failed_in_row fresh
after_scans_lem threshold [] = ground arith
after_scans_lem threshold (true ∷ earlier) = ground arith
after_scans_lem threshold (false ∷ earlier) = ground (arith, after_scans_lem threshold earlier)
