-- ===== src/NetworkTools/Arping/Scans.antt =====
-- What a scan does to the state of each host.
use homeassistant_addons.Common.{
  ℕ, ◌≡◌, refl, true, false, not, ◌||◌, String, List, [], ◌∷◌, some, or_default, contains, ◌==◌,
  string_eq, arith, if◌then◌else◌,
}
use homeassistant_addons.Common.Dict
use homeassistant_addons.Common.Dict.{Dict, get-set}
use homeassistant_addons.NetworkTools.Arping.{
  HostOption, Probe, State, fresh, flap, updated, scan_hosts,
}

unfoldable pub addresses : List HostOption → List String
addresses [] = []
addresses (host ∷ hosts) = or_default host.ip "" ∷ addresses hosts

-- No address twice, but for hosts without one.
abbrev pub Distinct : List String → Type 0
Distinct [] = Unit
Distinct (x ∷ xs) = (x == "" || not (contains xs x) ≡ true) × Distinct xs

module _ {F : Type 0} (arping : String → Probe F) (threshold : ℕ) where
  -- A host that is not scanned keeps its state.
  scan_hosts_others :
      (ip : String) (hosts : List HostOption) (state : State)
      → contains (addresses hosts) ip ≡ false
      → Dict.get ip (scan_hosts arping threshold hosts state).1 ≡ Dict.get ip state
  unfolding scan_hosts addresses
  scan_hosts_others ip [] state n = refl
  scan_hosts_others ip (host ∷ hosts) state n = ground (
    arith,
    get-set ip (or_default host.ip "") (updated arping threshold (or_default host.ip "") state)
        state,
    scan_hosts_others ip hosts state,
    scan_hosts_others ip hosts (
        Dict.set (or_default host.ip "") (updated arping threshold (or_default host.ip "") state)
          state),
  )

  -- With different addresses, a scan updates the state of each host that has one by its raw result, and
  -- leaves the state of every other address as it is.
  pub scan_hosts_updates :
      (ip : String) (hosts : List HostOption) (state : State)
      → Distinct (addresses hosts)
      → ip == "" ≡ false
      → Dict.get ip (scan_hosts arping threshold hosts state).1 ≡ (
          if contains (addresses hosts) ip
          then some (flap threshold (arping ip).reachable (or_default (Dict.get ip state) fresh))
          else Dict.get ip state)
  unfolding scan_hosts addresses
  scan_hosts_updates ip [] state d n = refl
  scan_hosts_updates ip (host ∷ hosts) state d n =
      let a = or_default host.ip "" in
      let h = updated arping threshold a state in
      let next : State = Dict.set a h state in
      elim (string_eq.dec a "") [
        | yes p ↦ ground (arith, p, scan_hosts_updates ip hosts state d.1 n)
        | no q ↦ elim (string_eq.dec ip a) [
          | yes p ↦ ground (arith, get-set ip a h state, scan_hosts_others ip hosts next)
          | no m ↦ ground (arith, get-set ip a h state, scan_hosts_updates ip hosts next d.1 n)
        ]
      ]
