-- ===== src/NetworkTools/Arping.antt =====
-- network-tools/arping_scan.py: the scan of the hosts, with its flap detection.
pub mod Flaps
pub mod Scans
use Prim.Native.Char.{Char, code}
use homeassistant_addons.Common.{
  ℕ, zero, suc, ◌+◌, ◌-◌, Bool, true, false, not, ◌&&◌, ◌||◌, String, List, [], ◌∷◌, Option, none,
  some, or_default, is_some, length, ◌==◌, string_eq, ltb, leb, if◌then◌else◌,
}
use homeassistant_addons.Common.Dict
use homeassistant_addons.Common.Dict.{Dict}
use homeassistant_addons.Common.Text.{upper}

-- A configured host; a field that is not there is `none`.
pub record HostOption : Type 0 where
  pub ip : Option String
  pub label : Option String
  pub mac : Option String
  pub device_name : Option String

-- `F` is the type of floats.
pub record Probe (F : Type 0) : Type 0 where
  pub reachable : Bool
  pub mac : Option String
  pub rtt_ms : Option F
  pub rtt_min_ms : Option F
  pub rtt_max_ms : Option F
  pub rtt_stddev_ms : Option F
  pub packets_sent : Option ℕ
  pub packets_received : Option ℕ
  pub packet_loss_pct : Option F
  pub hostname : Option String
  pub error : Option String
  pub duration_ms : ℕ

-- `_arping_failure_dict`
unfoldable pub arping_failure_dict : {F : Type 0} → String → ℕ → Probe F
arping_failure_dict error duration_ms = record {
  reachable = false;
  mac = none;
  rtt_ms = none;
  rtt_min_ms = none;
  rtt_max_ms = none;
  rtt_stddev_ms = none;
  packets_sent = none;
  packets_received = none;
  packet_loss_pct = none;
  hostname = none;
  error = some error;
  duration_ms = duration_ms;
}

-- A host in the state file, without the raw result of its last scan where there is none yet.
pub record HostState : Type 0 where
  pub consecutive_failures : ℕ
  pub effective_reachable : Bool
  pub last_raw_reachable : Option Bool

unfoldable pub fresh : HostState
fresh = record { consecutive_failures = 0; effective_reachable = true; last_raw_reachable = none }

-- The update of a host's state by a raw result.
unfoldable pub flap : ℕ → Bool → HostState → HostState
flap threshold true h = record {
  consecutive_failures = 0;
  effective_reachable = true;
  last_raw_reachable = some true;
}
flap threshold false h = record {
  consecutive_failures = h.consecutive_failures + 1;
  effective_reachable =
      if leb threshold (h.consecutive_failures + 1) then false else h.effective_reachable;
  last_raw_reachable = some false;
}

pub record ScanResult (F : Type 0) : Type 0 where
  pub label : String
  pub ip : String
  pub expected_mac : Option String
  pub device_name : Option String
  pub mac_match : Option Bool
  pub probe : Probe F
  pub effective_reachable : Bool
  pub consecutive_failures : ℕ

-- `x or None`
abbrev or_none : Option String → Option String
or_none none = none
or_none (some s) = if s == "" then none else some s

-- `(host.get("mac") or "").upper() or None`
abbrev expected_mac_of : Option String → Option String
expected_mac_of none = none
expected_mac_of (some mac) = or_none (some (upper mac))

-- A MAC of a probe is never empty.
abbrev mac_match_of : Option String → Option String → Option Bool
mac_match_of (some expected) (some mac) = some (mac == expected)
mac_match_of (some expected) none = none
mac_match_of none mac = none

abbrev pub State : Type 0
State = Dict String HostState

-- The `arping` of a host, which runs the program.
module _ {F : Type 0} (arping : String → Probe F) (threshold : ℕ) where
  abbrev pub updated : String → State → HostState
  updated ip state = flap threshold (arping ip).reachable (or_default (Dict.get ip state) fresh)

  -- One host of the loop.
  unfoldable pub result_of : String → HostOption → HostState → ScanResult F
  result_of ip host h = record {
    label = or_default host.label ip;
    ip = ip;
    expected_mac = expected_mac_of host.mac;
    device_name = or_none host.device_name;
    mac_match = mac_match_of (expected_mac_of host.mac) (arping ip).mac;
    probe = arping ip;
    effective_reachable = h.effective_reachable;
    consecutive_failures = h.consecutive_failures;
  }

  -- The loop: a host without an address is passed over.
  unfoldable pub scan_hosts : List HostOption → State → List (ScanResult F) × State
  scan_hosts [] state = ([], state)
  scan_hosts (host ∷ hosts) state =
      let ip = or_default host.ip "" in
      let h = updated ip state in
      let (results, state') = scan_hosts hosts (if ip == "" then state else Dict.set ip h state) in
      if ip == "" then (results, state') else (result_of ip host h ∷ results, state')

unfoldable pub count_reachable : {F : Type 0} → List (ScanResult F) → ℕ
count_reachable [] = 0
count_reachable (r ∷ results) =
    let rest = count_reachable results in if r.effective_reachable then suc rest else rest

-- The report, without its time and interface.
pub record Report (F : Type 0) : Type 0 where
  pub disconnect_threshold : ℕ
  pub hosts_total : ℕ
  pub hosts_reachable : ℕ
  pub results : List (ScanResult F)

unfoldable pub scan :
    {F : Type 0} → (String → Probe F) → List HostOption → ℕ → State → Report F × State
scan arping hosts threshold state =
    let (results, state') = scan_hosts arping threshold hosts state in
    (
      record {
        disconnect_threshold = threshold;
        hosts_total = length hosts;
        hosts_reachable = count_reachable results;
        results = results;
      },
      state',
    )
