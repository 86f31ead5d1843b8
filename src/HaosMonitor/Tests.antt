-- ===== src/HaosMonitor/Tests.antt =====
-- The theorems at a small log and at a file of two hosts.
use mathlib.Core.List.{reverse}
use homeassistant_addons.Common.{◌≡◌, String, [], ◌∷◌, some, take, arith}
use homeassistant_addons.HaosMonitor.Incidents.{Bytes, last_incidents}
use homeassistant_addons.HaosMonitor.Incidents.Lines.{incidents, counted}
use homeassistant_addons.HaosMonitor.Incidents.Scan.{last_incidents_lem}
use homeassistant_addons.HaosMonitor.Hosts.{load_hosts}
use homeassistant_addons.HaosMonitor.Hosts.Listed.{Listed, OnOk, load_hosts-Listed}

abbrev as_text : Bytes → String
as_text line = "an incident"

-- `x INCIDENT \n`
abbrev log : Bytes
log = b'x' ∷ 32 ∷ b'I' ∷ b'N' ∷ b'C' ∷ b'I' ∷ b'D' ∷ b'E' ∷ b'N' ∷ b'T' ∷ 32 ∷ 10 ∷ []

last_incidents_lem_example :
    last_incidents as_text 500 20 4 100 (some log)
    ≡ reverse (take 20 (reverse (incidents as_text 500 (counted 100 log))))
last_incidents_lem_example = last_incidents_lem as_text 500 20 4 100 log (omega arith)

load_hosts-Listed_example :
    OnOk (Listed []) (load_hosts (some "haos\tHome\thost\n\nhaos\tAgain\tother"))
load_hosts-Listed_example = load_hosts-Listed "haos\tHome\thost\n\nhaos\tAgain\tother"
