-- ===== src/HaosMonitor/Hosts.antt =====
-- haos-monitor/app/hosts.py: the hosts file. A text is that of the decoded file.
pub mod Listed
use Prim.Native.Char.{code}
use homeassistant_addons.Common.{
  ℕ, zero, suc, Bool, true, false, not, ◌&&◌, ◌||◌, String, List, [], ◌∷◌, contains, ◌==◌,
  string_eq, Option, none, some, Result, ok, err, eqb, leb, ltb, if◌then◌else◌,
}
use homeassistant_addons.Common.Text.{len, prefix, without_return, split_on}
use homeassistant_addons.Common.Pattern.{is_lower_alnum, is_char}

abbrev max_slug : ℕ
max_slug = 128

abbrev max_name : ℕ
max_name = 200

abbrev max_host : ℕ
max_host = 255

pub record Host : Type 0 where
  pub slug : String
  pub name : String
  pub host : String

-- `SLUG_RE.fullmatch`, beyond the first character
all_slug : String → Bool
all_slug String.[] = true
all_slug (String.◌∷◌ c s) = (is_lower_alnum c || is_char b'_' c) && all_slug s

unfoldable pub valid_slug : String → Bool
unfolding all_slug
valid_slug slug = ltb 0 (len slug) && (leb (len slug) max_slug && all_slug slug)

abbrev is_control : ℕ → Bool
is_control n = leb n 31 || (leb 127 n && leb n 159)

without_controls : String → String
without_controls String.[] = ""
without_controls (String.◌∷◌ c s) =
    let rest = without_controls s in if is_control (code c) then rest else String.◌∷◌ c rest

unfoldable pub clean_text : String → ℕ → String
unfolding without_controls
clean_text value limit = prefix limit (without_controls value)

-- `clean_text(...) or slug`
abbrev pub named : String → String → String
named name slug = if name == "" then slug else name

-- The columns of a line, if it has a new and valid slug.
unfoldable pub host_of : List String → List String → Option Host
host_of (slug ∷ name ∷ host ∷ rest) seen =
    if not (valid_slug slug) || contains seen slug
    then none
    else some (record {
      slug = slug;
      name = named (clean_text name max_name) slug;
      host = clean_text host max_host;
    })
host_of _ seen = none

abbrev pub columns : String → List String
columns raw = split_on b'\t' (without_return raw)

-- `hosts.append`, and `seen.add`
unfoldable pub load_lines : List String → List String → List Host
load_lines [] seen = []
load_lines (raw ∷ lines) seen = elim (host_of (columns raw) seen) [
  | none ↦ load_lines lines seen
  | some h ↦ h ∷ load_lines lines (h.slug ∷ seen)
]

-- `load_hosts`: a file that cannot be read raises HostsUnavailable.
unfoldable pub load_hosts : Option String → Result String (List Host)
load_hosts none = err "hosts file unavailable"
load_hosts (some text) = ok (load_lines (split_on b'\n' text) [])
