-- ===== src/HaosMonitor/Hosts/Listed.antt =====
-- What holds of the hosts that are listed.
use homeassistant_addons.Common.{
  ◌≡◌, ◌≢◌, refl, Bool-cases, ==_iff, ==_differ, ap, true, false, String, List, [], ◌∷◌, none, some,
  contains, string_eq, Result, ok, err, Option-cases, inl, inr, arith,
}
use homeassistant_addons.Common.Text.{len, split_on}
use homeassistant_addons.HaosMonitor.Hosts.{
  Host, valid_slug, clean_text, named, host_of, columns, load_lines, load_hosts,
}

-- The hosts have valid slugs and names, and no slug twice or of `seen`.
abbrev pub Listed : List String → List Host → Type 0
Listed seen [] = Unit
Listed seen (h ∷ hosts) =
    (valid_slug h.slug ≡ true)
    × (contains seen h.slug ≡ false)
    × (h.name ≢ "")
    × Listed (h.slug ∷ seen) hosts

empty_invalid : valid_slug "" ≡ false
unfolding valid_slug len
empty_invalid = refl

valid_slug-ne : (s : String) → valid_slug s ≡ true → s ≢ ""
valid_slug-ne s h e = cc (empty_invalid, ap valid_slug e)

named-ne : (name slug : String) → valid_slug slug ≡ true → named name slug ≢ ""
named-ne name slug h = elim (string_eq.dec name "") [
  | yes p ↦ rw ((==_iff name "").1 p) (valid_slug-ne slug h)
  | no n ↦ rw (==_differ name "" n) n
]

host_of_lem :
    (columns seen : List String) (h : Host)
    → host_of columns seen ≡ some h
    → (valid_slug h.slug ≡ true) × (contains seen h.slug ≡ false) × (h.name ≢ "")
unfolding host_of
host_of_lem [] seen h e = absurd (ground arith)
host_of_lem (a ∷ []) seen h e = absurd (ground arith)
host_of_lem (a ∷ b ∷ []) seen h e = absurd (ground arith)
host_of_lem (slug ∷ name ∷ host ∷ rest) seen h e = elim (Bool-cases (valid_slug slug)) [
  | inr n ↦ absurd (ground (arith, n))
  | inl v ↦ ground (arith, named-ne (clean_text name 200) slug v)
]

module _ (raw : String) (lines seen : List String) where
  load_lines_skip :
      host_of (columns raw) seen ≡ none → load_lines (raw ∷ lines) seen ≡ load_lines lines seen
  unfolding load_lines
  load_lines_skip e = rw (e, load_lines)

  load_lines_add :
      (h : Host)
      → host_of (columns raw) seen ≡ some h
      → load_lines (raw ∷ lines) seen ≡ h ∷ load_lines lines (h.slug ∷ seen)
  unfolding load_lines
  load_lines_add h e = rw (e, load_lines)

load_lines-Listed : (lines seen : List String) → Listed seen (load_lines lines seen)
load_lines-Listed [] seen = unfold load_lines in tt
load_lines-Listed (raw ∷ lines) seen = elim (Option-cases (host_of (columns raw) seen)) [
  | inl n ↦ rw (load_lines_skip raw lines seen n) (load_lines-Listed lines seen)
  | inr (h, e) ↦
      let ok_host = host_of_lem (columns raw) seen h e in
      rw (load_lines_add raw lines seen h e)
        (ok_host.0, ok_host.1, ok_host.2, load_lines-Listed lines (h.slug ∷ seen))
]

-- What a `Result` holds, if it holds something.
abbrev pub OnOk : (List Host → Type 0) → Result String (List Host) → Type 0
OnOk P (ok hosts) = P hosts
OnOk P (err message) = ⊥

-- A file that can be read gives hosts with valid slugs, each slug once, and with names that are not
-- empty.
pub load_hosts-Listed : (text : String) → OnOk (Listed []) (load_hosts (some text))
unfolding load_hosts
load_hosts-Listed text = load_lines-Listed (split_on b'\n' text) []
