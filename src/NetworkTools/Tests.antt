-- ===== src/NetworkTools/Tests.antt =====
-- The theorems at two hosts, of which one answers.
use homeassistant_addons.Common.{
  ◌≡◌, refl, max, Bool, true, false, not, String, List, [], ◌∷◌, none, some, leb, ◌==◌, string_eq,
  contains, or_default, if◌then◌else◌,
}
use homeassistant_addons.Common.Dict
use homeassistant_addons.NetworkTools.Arping.{
  HostOption, flap, fresh, Probe, arping_failure_dict, scan_hosts,
}
use homeassistant_addons.NetworkTools.Arping.Flaps.{after_scans, failed_in_row, after_scans_lem}
use homeassistant_addons.NetworkTools.Arping.Scans.{addresses, Distinct, scan_hosts_updates}

after_scans_lem_example :
    ((after_scans 3 (false ∷ false ∷ true ∷ [])).consecutive_failures
      ≡ failed_in_row (false ∷ false ∷ true ∷ []))
    × ((after_scans 3 (false ∷ false ∷ true ∷ [])).effective_reachable
        ≡ not (leb (max 1 3) (failed_in_row (false ∷ false ∷ true ∷ []))))
after_scans_lem_example = after_scans_lem 3 (false ∷ false ∷ true ∷ [])

abbrev host : String → HostOption
host ip = record { ip = some ip; label = none; mac = none; device_name = none }

abbrev lan : List HostOption
lan = host "10.0.0.1" ∷ host "10.0.0.2" ∷ []

abbrev no_answer : String → Probe Bool
no_answer ip = arping_failure_dict "timeout" 2000

lan-Distinct : Distinct (addresses lan)
unfolding addresses string_eq
lan-Distinct = (refl, (refl, tt))

has_address : ◌==◌ {A = String} "10.0.0.2" "" ≡ false
unfolding string_eq
has_address = refl

scan_hosts_updates_example : Dict.get {K = String} "10.0.0.2" (scan_hosts no_answer 2 lan []).1 ≡ (
    if contains (addresses lan) "10.0.0.2"
    then some (
        flap 2
          (no_answer "10.0.0.2").reachable
          (or_default (Dict.get {K = String} "10.0.0.2" []) fresh))
    else Dict.get {K = String} "10.0.0.2" [])
scan_hosts_updates_example =
    scan_hosts_updates no_answer 2 "10.0.0.2" lan [] lan-Distinct has_address
