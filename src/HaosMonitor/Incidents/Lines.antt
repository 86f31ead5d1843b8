-- ===== src/HaosMonitor/Incidents/Lines.antt =====
-- The lines of joined texts: a line break in the second one ends the first one's last line.
use mathlib.Core.List.{reverse, append-nil, reverse-cons}
use homeassistant_addons.Common.{
  ℕ, ◌≡◌, refl, String, List, [], ◌∷◌, ◌++◌, Bool-cases, inl, inr, eqb, drop, arith, if◌then◌else◌,
}
use homeassistant_addons.HaosMonitor.Incidents.{Bytes, lowest, is_incident, split_lines, clean}

-- A first line has no line break.
split_lines-first : (s : Bytes) → split_lines (split_lines s).0 ≡ ((split_lines s).0, [])
unfolding split_lines
split_lines-first [] = refl
split_lines-first (b ∷ s) = ground (arith, split_lines-first s)

pub split_lines-append :
    (s t : Bytes)
    → split_lines (s ++ t) ≡ (
      (split_lines (s ++ (split_lines t).0)).0,
      (split_lines (s ++ (split_lines t).0)).1 ++ (split_lines t).1,
    )
unfolding split_lines
split_lines-append [] t = rw (split_lines-first t)
split_lines-append (b ∷ s) t = ground (arith, split_lines-append s t)

-- The lines that count: those that begin behind the first of the last `max_scan` bytes, and the first
-- line of all if these bytes are the whole file.
abbrev pub counted : ℕ → Bytes → List Bytes
counted max_scan file =
    let part = split_lines (drop (lowest max_scan file) file) in
    if eqb (lowest max_scan file) 0 then part.0 ∷ part.1 else part.1

module _ (decode : Bytes → String) (max_line : ℕ) where
  -- The cleaned lines with an incident.
  unfoldable pub incidents : List Bytes → List String
  incidents [] = []
  incidents (line ∷ lines) =
      let rest = incidents lines in
      if is_incident line then clean decode max_line line ∷ rest else rest

  pub incidents-append : (xs ys : List Bytes) → incidents (xs ++ ys) ≡ incidents xs ++ incidents ys
  unfolding incidents
  incidents-append [] ys = refl
  incidents-append (x ∷ xs) ys = ground (arith, incidents-append xs ys)

  pub incidents-reverse : (xs : List Bytes) → incidents (reverse xs) ≡ reverse (incidents xs)
  unfolding incidents
  incidents-reverse [] = refl
  incidents-reverse (x ∷ xs) =
      rw (reverse-cons x xs, incidents-append (reverse xs) (x ∷ []), incidents-reverse xs)
        (elim (Bool-cases (is_incident x)) [
          | inl h ↦ rw (h, reverse-cons (clean decode max_line x) (incidents xs))
          | inr h ↦ rw (h, append-nil (reverse (incidents xs)))
        ])
