-- ===== src/HaosMonitor/Incidents.antt =====
-- haos-monitor/app/incidents.py: the last lines of a log with an incident, read backwards in blocks.
-- A file is the bytes that it holds when it is opened.
pub mod Lines
pub mod Scan
use Prim.Native.Char.{code}
use mathlib.Core.List.{reverse}
use homeassistant_addons.Common.{
  ℕ, zero, suc, ◌+◌, ◌-◌, min, Bool, true, false, not, ◌&&◌, ◌||◌, String, List, [], ◌∷◌, ◌++◌,
  Option, none, some, length, take, drop, eqb, ltb, leb, if◌then◌else◌,
}
use homeassistant_addons.Common.Text.{prefix, without_return}

abbrev pub Bytes : Type 0
Bytes = List ℕ

-- ` INCIDENT `
abbrev marker : Bytes
marker = 32 ∷ b'I' ∷ b'N' ∷ b'C' ∷ b'I' ∷ b'D' ∷ b'E' ∷ b'N' ∷ b'T' ∷ 32 ∷ []

starts_with : Bytes → Bytes → Bool
starts_with [] s = true
starts_with (a ∷ v) [] = false
starts_with (a ∷ v) (b ∷ s) = eqb a b && starts_with v s

-- `v in s`
contains_bytes : Bytes → Bytes → Bool
unfolding starts_with
contains_bytes v [] = starts_with v []
contains_bytes v (b ∷ s) = starts_with v (b ∷ s) || contains_bytes v s

-- `MARKER in line`
unfoldable pub is_incident : Bytes → Bool
unfolding contains_bytes
is_incident line = contains_bytes marker line

-- `data.split(b"\n")`: the first line, and the others.
unfoldable pub split_lines : Bytes → Bytes × List Bytes
split_lines [] = ([], [])
split_lines (b ∷ s) =
    let (line, lines) = split_lines s in if eqb b 10 then ([], line ∷ lines) else (b ∷ line, lines)

-- `_CONTROL_RE`
abbrev is_control : ℕ → Bool
is_control n = leb n 8 || ((leb 10 n && leb n 31) || (leb 127 n && leb n 159))

unfoldable without_controls : String → String
without_controls String.[] = ""
without_controls (String.◌∷◌ c s) =
    let rest = without_controls s in if is_control (code c) then rest else String.◌∷◌ c rest

-- `decode` is `bytes.decode("utf-8", errors="replace")`.
module _ (decode : Bytes → String) (max_line : ℕ) where
  -- `_clean`
  unfoldable pub clean : Bytes → String
  unfolding without_controls
  clean line = prefix max_line (without_controls (without_return (decode line)))

  module _ (limit : ℕ) where
    -- The inner loop: the lines of a block, from its end.
    unfoldable pub take_lines : List Bytes → List String → List String
    take_lines [] found = found
    take_lines (line ∷ lines) found =
        let found' = if is_incident line then found ++ clean line ∷ [] else found in
        let more = take_lines lines found' in
        if is_incident line && leb limit (length found') then found' else more

-- `pos`, `tail` and `found`, which the loop changes.
pub record Position : Type 0 where
  pub pos : ℕ
  pub tail : Bytes
  pub found : List String

-- `floor`
abbrev pub lowest : ℕ → Bytes → ℕ
lowest max_scan file = length file - max_scan

module _ (block max_scan : ℕ) (file : Bytes) where
  abbrev pub size : ℕ → ℕ
  size pos = min block (pos - lowest max_scan file)

  -- What is read in front of a position, with the partial line.
  unfoldable pub chunk : Position → Bytes
  chunk p = take (size p.pos) (drop (p.pos - size p.pos) file) ++ p.tail

module _ (decode : Bytes → String) (max_line limit block max_scan : ℕ) (file : Bytes) where
  -- A round of the outer loop.
  unfoldable pub round : Position → Position
  round p =
      let (first, lines) = split_lines (chunk block max_scan file p) in
      record {
        pos = p.pos - size block max_scan file p.pos;
        tail = first;
        found = take_lines decode max_line limit (reverse lines) p.found;
      }

  -- The outer loop, on fuel.
  unfoldable pub scan : ℕ → Position → Position
  scan zero p = p
  scan (suc n) p =
      let rest = scan n (round p) in
      if ltb (lowest max_scan file) p.pos && ltb (length p.found) limit then rest else p

  -- The `else` of the loop, where the whole file was read.
  unfoldable pub with_tail : Position → List String
  with_tail p =
      if eqb p.pos 0 && (ltb (length p.found) limit && is_incident p.tail)
      then p.found ++ clean decode max_line p.tail ∷ []
      else p.found

-- A file that cannot be read has no lines. Every round reads a byte if a block has one, so the length
-- of the file is enough fuel.
unfoldable pub last_incidents :
    (Bytes → String) → (max_line limit block max_scan : ℕ) → Option Bytes → List String
last_incidents decode max_line limit block max_scan none = []
last_incidents decode max_line limit block max_scan (some file) =
    let start : Position = record { pos = length file; tail = []; found = [] } in
    reverse (
      with_tail decode max_line limit block max_scan file
        (scan decode max_line limit block max_scan file (length file) start))
