-- ===== src/HaosMonitor/Incidents/Scan.antt =====
-- The backward scan finds the lines that a reading of all lines finds.
use mathlib.Core.List.{reverse, append-nil, append_assoc, reverse-append}
use homeassistant_addons.Common.{
  ℕ, zero, suc, ◌+◌, ◌-◌, ◌≤◌, ◌<◌, ◌≡◌, ◌⊎◌, ap, sym, ◌∙◌, String, List, [], ◌∷◌, ◌++◌, some,
  Bool-cases, inl, inr, eqb, leb, ltb, leb→le, ltb→lt, lt→ltb, length, take, drop, length-append,
  length-take, append-take-drop, drop-drop, drop-length, take_of_short, take-append-take,
  take-append_of_full, arith,
}
use homeassistant_addons.HaosMonitor.Incidents.{
  Bytes, Position, is_incident, split_lines, clean, take_lines, lowest, size, chunk, round, scan,
  with_tail, last_incidents,
}
use homeassistant_addons.HaosMonitor.Incidents.Lines.{
  split_lines-append, counted, incidents, incidents-append, incidents-reverse,
}

module _ (decode : Bytes → String) (max_line limit : ℕ) where
  assoc :
      (found : List String) (line : Bytes) (lines : List Bytes)
      → (found ++ clean decode max_line line ∷ []) ++ incidents decode max_line lines
        ≡ found ++ (clean decode max_line line ∷ incidents decode max_line lines)
  assoc found line lines =
      append_assoc found (clean decode max_line line ∷ []) (incidents decode max_line lines)

  full : (xs ys : List String) → length xs ≤ limit → limit ≤ length xs → xs ≡ take limit (xs ++ ys)
  full xs ys short long =
      let all = take_of_short limit xs short in
      sym all ∙ sym (take-append_of_full limit xs ys (rw all long))

  -- The inner loop adds what is there, up to the limit.
  take_lines_lem :
      (lines : List Bytes) (found : List String)
      → length found < limit
      → take_lines decode max_line limit lines found
        ≡ take limit (found ++ incidents decode max_line lines)
  unfolding take_lines incidents
  take_lines_lem [] found h =
      rw (append-nil found) (sym (take_of_short limit found (omega (arith, h))))
  take_lines_lem (line ∷ lines) found h =
      let more = found ++ clean decode max_line line ∷ [] in
      let grown : length more ≡ length found + 1 =
        length-append found (clean decode max_line line ∷ []) in
      elim (Bool-cases (is_incident line)) [
        | inr n ↦ rw n (take_lines_lem lines found h)
        | inl y ↦ elim (Bool-cases (leb limit (length more))) [
          | inl f ↦
              rw (y, f)
                (full more (incidents decode max_line lines) (omega (arith, h, grown))
                    (leb→le limit (length more) f)
                  ∙ ap (λ xs. take limit xs) (assoc found line lines))
          | inr f ↦
              rw (y, f)
                (take_lines_lem lines more (ground (arith, grown))
                  ∙ ap (λ xs. take limit xs) (assoc found line lines))
        ]
      ]

  -- Older lines come behind the newer ones.
  joined :
      (found : List String) (older newer : List Bytes)
      → found ≡ take limit (incidents decode max_line (reverse newer))
      → take limit (found ++ incidents decode max_line (reverse older))
        ≡ take limit (incidents decode max_line (reverse (older ++ newer)))
  joined found older newer e =
      let of_newer = incidents decode max_line (reverse newer) in
      let of_older = incidents decode max_line (reverse older) in
      ap (λ xs. take limit (xs ++ of_older)) e
      ∙ take-append-take limit of_newer of_older
      ∙ ap (λ xs. take limit xs)
          (sym (incidents-append decode max_line (reverse newer) (reverse older))
            ∙ ap (λ ls. incidents decode max_line ls) (sym (reverse-append older newer)))

  module _ (block max_scan : ℕ) (file : Bytes) where
    -- The lines that begin behind a position.
    abbrev behind : ℕ → Bytes × List Bytes
    behind pos = split_lines (drop pos file)

    -- What holds between two rounds: the partial line, and the newest incidents of the lines behind it.
    record Right (p : Position) : Type 0 where
      above : lowest max_scan file ≤ p.pos
      within : p.pos ≤ length file
      tail_right : p.tail ≡ (behind p.pos).0
      found_right : p.found ≡ take limit (incidents decode max_line (reverse (behind p.pos).1))

    -- The lines from the start of a chunk on.
    behind-chunk :
        (p : Position)
        → Right p
        → behind (p.pos - size block max_scan file p.pos) ≡ (
          (split_lines (chunk block max_scan file p)).0,
          (split_lines (chunk block max_scan file p)).1 ++ (behind p.pos).1,
        )
    unfolding chunk
    behind-chunk p r =
        let n = size block max_scan file p.pos in
        let start = p.pos - n in
        let at : start + n ≡ p.pos = omega (arith, r.above) in
        let parts : drop start file ≡ take n (drop start file) ++ drop p.pos file =
          sym (append-take-drop n (drop start file))
          ∙ ap (λ xs. take n (drop start file) ++ xs)
              (drop-drop n start file ∙ ap (λ k. drop k file) at) in
        ap split_lines parts
        ∙ split_lines-append (take n (drop start file)) (drop p.pos file)
        ∙ rw (sym r.tail_right)

    round-Right :
        (p : Position)
        → length p.found < limit
        → Right p
        → Right (round decode max_line limit block max_scan file p)
    unfolding round
    round-Right p h r = record {
      above = omega (arith, r.above);
      within = omega (arith, r.within);
      tail_right = ap (λ (x : Bytes × List Bytes). x.0) (sym (behind-chunk p r));
      found_right =
          take_lines_lem (reverse (split_lines (chunk block max_scan file p)).1) p.found h
          ∙ joined p.found (split_lines (chunk block max_scan file p)).1 (behind p.pos).1
              r.found_right
          ∙ ap (λ (x : Bytes × List Bytes). take limit (incidents decode max_line (reverse x.1)))
              (sym (behind-chunk p r));
    }

    round_less :
        (p : Position)
        → 0 < block
        → lowest max_scan file < p.pos
        → (round decode max_line limit block max_scan file p).pos < p.pos
    unfolding round
    round_less p b h = omega arith

    abbrev Done : Position → Type 0
    Done p = (p.pos ≡ lowest max_scan file) ⊎ (limit ≤ length p.found)

    -- With a byte to a round, the loop ends where it must.
    scan-Right :
        (n : ℕ) (p : Position)
        → 0 < block
        → p.pos - lowest max_scan file ≤ n
        → Right p
        → Right (scan decode max_line limit block max_scan file n p)
          × Done (scan decode max_line limit block max_scan file n p)
    unfolding scan
    scan-Right zero p b e r = (r, inl (omega (arith, r.above)))
    scan-Right (suc n) p b e r = elim (Bool-cases (ltb (lowest max_scan file) p.pos)) [
      | inr low ↦ rw low (r, inl (ground (arith, r.above)))
      | inl high ↦ elim (Bool-cases (ltb (length p.found) limit)) [
        | inr enough ↦ rw (high, enough) (r, inr (ground arith))
        | inl short ↦
            rw (high, short)
              (scan-Right n (round decode max_line limit block max_scan file p) b
                (omega (arith, round_less p b (ltb→lt (lowest max_scan file) p.pos high), e))
                (round-Right p (ltb→lt (length p.found) limit short) r))
      ]
    ]

    found_short : (p : Position) → Right p → length p.found ≤ limit
    found_short p r =
        let cut = incidents decode max_line (reverse (behind p.pos).1) in
        omega (arith, ap (λ (xs : List String). length xs) r.found_right, length-take limit cut)

    -- The lines behind a position are the last ones that count.
    counted-behind :
        (pos : ℕ)
        → lowest max_scan file ≤ pos
        → (older : List Bytes) × ((counted max_scan file) ≡ older ++ (behind pos).1)
    counted-behind pos above =
        let low = lowest max_scan file in
        let n = pos - low in
        let at : low + n ≡ pos = omega (arith, above) in
        let parts : drop low file ≡ take n (drop low file) ++ drop pos file =
          sym (append-take-drop n (drop low file))
          ∙ ap (λ xs. take n (drop low file) ++ xs)
              (drop-drop n low file ∙ ap (λ k. drop k file) at) in
        let cut =
          ap split_lines parts ∙ split_lines-append (take n (drop low file)) (drop pos file) in
        let front = split_lines (take n (drop low file) ++ (behind pos).0) in
        elim (Bool-cases (eqb low 0)) [
          | inl z ↦ (front.0 ∷ front.1, rw (z, cut))
          | inr z ↦ (front.1, rw (z, cut))
        ]

    with_tail_full :
        (p : Position)
        → Right p
        → limit ≤ length p.found
        → with_tail decode max_line limit block max_scan file p
          ≡ take limit (incidents decode max_line (reverse (counted max_scan file)))
    unfolding with_tail
    with_tail_full p r long =
        let (older, e) = counted-behind p.pos r.above in
        let stays : with_tail decode max_line limit block max_scan file p ≡ p.found =
          ground arith in
        stays
        ∙ full p.found (incidents decode max_line (reverse older)) (found_short p r) long
        ∙ joined p.found older (behind p.pos).1 r.found_right
        ∙ ap (λ ls. take limit (incidents decode max_line (reverse ls))) (sym e)

    -- The last partial line of a whole file counts.
    with_tail_whole :
        (p : Position)
        → p.pos ≡ 0
        → length p.found < limit
        → with_tail decode max_line limit block max_scan file p
          ≡ take limit (p.found ++ incidents decode max_line (p.tail ∷ []))
    unfolding with_tail incidents
    with_tail_whole p zero_pos short =
        let one = clean decode max_line p.tail ∷ [] in
        elim (Bool-cases (is_incident p.tail)) [
          | inl y ↦
              rw (zero_pos, lt→ltb (length p.found) limit short, y)
                (sym (
                  take_of_short limit (p.found ++ one)
                    (omega (arith, short, length-append p.found one))))
          | inr n ↦
              rw (zero_pos, lt→ltb (length p.found) limit short, n, append-nil p.found)
                (sym (take_of_short limit p.found (omega (arith, short))))
        ]

    with_tail_end :
        (p : Position)
        → Right p
        → p.pos ≡ lowest max_scan file
        → length p.found < limit
        → with_tail decode max_line limit block max_scan file p
          ≡ take limit (incidents decode max_line (reverse (counted max_scan file)))
    unfolding with_tail
    with_tail_end p r e short = elim (Bool-cases (eqb (lowest max_scan file) 0)) [
      | inr z ↦
          let stays : with_tail decode max_line limit block max_scan file p ≡ p.found =
            ground (arith, e) in
          let same : (behind p.pos).1 ≡ (counted max_scan file) = rw z (ap (λ k. (behind k).1) e) in
          stays
          ∙ r.found_right
          ∙ ap (λ ls. take limit (incidents decode max_line (reverse ls))) same
      | inl z ↦
          let first : p.pos ≡ 0 = ground (arith, e) in
          let same : p.tail ∷ (behind p.pos).1 ≡ (counted max_scan file) = rw z (
            ap (λ t. t ∷ (behind p.pos).1) r.tail_right
            ∙ ap (λ k. (behind k).0 ∷ (behind k).1) e) in
          with_tail_whole p first short
          ∙ joined p.found (p.tail ∷ []) (behind p.pos).1 r.found_right
          ∙ ap (λ ls. take limit (incidents decode max_line (reverse ls))) same
    ]

    with_tail_lem :
        (p : Position)
        → Right p × Done p
        → with_tail decode max_line limit block max_scan file p
          ≡ take limit (incidents decode max_line (reverse (counted max_scan file)))
    with_tail_lem p (r, inr long) = with_tail_full p r long
    with_tail_lem p (r, inl e) = elim (Bool-cases (ltb (length p.found) limit)) [
      | inl short ↦ with_tail_end p r e (ltb→lt (length p.found) limit short)
      | inr long ↦ with_tail_full p r (ground arith)
    ]

    start-Right : Right (record { pos = length file; tail = []; found = [] })
    unfolding split_lines incidents
    start-Right = record {
      above = omega arith;
      within = omega arith;
      tail_right = rw (drop-length file);
      found_right = rw (drop-length file) (sym (take_of_short limit [] (omega arith)));
    }

-- With blocks of at least a byte, what is found are the last `limit` cleaned lines with an incident, in
-- their order, of the lines that begin behind the first of the last `max_scan` bytes, and of the file's
-- first line too if these bytes are the whole file.
pub last_incidents_lem :
    (decode : Bytes → String) (max_line limit block max_scan : ℕ) (file : Bytes)
    → 0 < block
    → last_incidents decode max_line limit block max_scan (some file)
      ≡ reverse (take limit (reverse (incidents decode max_line (counted max_scan file))))
unfolding last_incidents
last_incidents_lem decode max_line limit block max_scan file b =
    let start : Position = record { pos = length file; tail = []; found = [] } in
    let ends =
      scan-Right decode max_line limit block max_scan file (length file) start b (omega arith)
        (start-Right decode max_line limit block max_scan file) in
    ap (λ xs. reverse xs)
      (with_tail_lem decode max_line limit block max_scan file
          (scan decode max_line limit block max_scan file (length file) start) ends
        ∙ ap (λ xs. take limit xs) (incidents-reverse decode max_line (counted max_scan file)))
