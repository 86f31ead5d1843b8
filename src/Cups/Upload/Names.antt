-- ===== src/Cups/Upload/Names.antt =====
-- The names of the files around a document: which suffixes they have.
use Prim.Native.Char.{Char}
use Prim.Native.String.append.{nil, cons}
use homeassistant_addons.Common.{
  ◌≡◌, ◌≢◌, refl, sym, ap, ◌∙◌, true, false, String, ◌<>◌, ◌==◌, ==_iff, string_eq, arith,
}
use homeassistant_addons.Cups.Upload.{
  has_dot, before_dot, from_dot, stem, suffix, sidecar_name, retry_name, tagged,
}

module _ (t : String) where
  nil_append : "" <> t ≡ t
  nil_append i = nil t i

  cons_append : (c : Char) (s : String) → String.◌∷◌ c s <> t ≡ String.◌∷◌ c (s <> t)
  cons_append c s i = cons c s t i

  has_dot-append : (s : String) → has_dot t ≡ true → has_dot (s <> t) ≡ true
  unfolding has_dot
  has_dot-append String.[] h = rw nil_append h
  has_dot-append (String.◌∷◌ c s) h = rw (cons_append c s, has_dot-append s h) (ground arith)

  from_dot-append : (s : String) → has_dot t ≡ true → from_dot (s <> t) ≡ from_dot t
  unfolding from_dot
  from_dot-append String.[] h = rw nil_append refl
  from_dot-append (String.◌∷◌ c s) h =
      rw (cons_append c s, has_dot-append s h) (from_dot-append s h)

  -- Behind a stem that is not empty.
  suffix-stem :
      (name : String) → suffix name ≢ "" → has_dot t ≡ true → suffix (stem name <> t) ≡ from_dot t
  unfolding suffix stem
  suffix-stem String.[] n h = absurd (n refl)
  suffix-stem (String.◌∷◌ c s) n h =
      rw (cons_append c (before_dot s)) (from_dot-append (before_dot s) h)

dot_json : (has_dot ".json" ≡ true) × (from_dot ".json" ≡ ".json")
unfolding has_dot from_dot
dot_json = (refl, refl)

dot_retry_json : (has_dot ".retry.json" ≡ true) × (from_dot ".retry.json" ≡ ".json")
unfolding has_dot from_dot
dot_retry_json = (refl, refl)

dot_pdf : (has_dot ".pdf" ≡ true) × (from_dot ".pdf" ≡ ".pdf")
unfolding has_dot from_dot
dot_pdf = (refl, refl)

other_ends :
    (◌==◌ {A = String} ".pdf" ".json" ≡ false)
    × (◌==◌ {A = String} ".pdf" "" ≡ false)
    × (◌==◌ {A = String} ".json" "" ≡ false)
unfolding string_eq
other_ends = (refl, refl, refl)

apart_by_test : (a b : String) → a == b ≡ false → a ≢ b
apart_by_test a b h e = cc (h, (==_iff a b).1 e)

module _ (end name : String) where
  suffix-tagged :
      has_dot end ≡ true
      → from_dot end ≡ end
      → end == "" ≡ false
      → suffix name ≡ end
      → (tag : String) → suffix (tagged name tag) ≡ end
  suffix-tagged dot same full h tag =
      let n : suffix name ≢ "" = rw h (apart_by_test end "" full) in
      let step : suffix (stem name <> (tag <> end)) ≡ from_dot (tag <> end) =
        suffix-stem (tag <> end) name n (has_dot-append end tag dot) in
      rw h (step ∙ from_dot-append end tag dot ∙ same)

-- A document's name is no name of a sidecar or of a state of retries.
module _ (name : String) (pdf : suffix name ≡ ".pdf") where
  named : suffix name ≢ ""
  named = rw pdf (apart_by_test ".pdf" "" other_ends.1)

  pub suffix-sidecar_name : suffix (sidecar_name name) ≡ ".json"
  suffix-sidecar_name = suffix-stem ".json" name named dot_json.0 ∙ dot_json.1

  pub suffix-retry_name : suffix (retry_name name) ≡ ".json"
  suffix-retry_name = suffix-stem ".retry.json" name named dot_retry_json.0 ∙ dot_retry_json.1

  pub json-tagged : (tag : String) → suffix (tagged (sidecar_name name) tag) ≡ ".json"
  json-tagged =
      suffix-tagged ".json" (sidecar_name name) dot_json.0 dot_json.1 other_ends.2
        suffix-sidecar_name

  pub pdf-tagged : (tag : String) → suffix (tagged name tag) ≡ ".pdf"
  pdf-tagged = suffix-tagged ".pdf" name dot_pdf.0 dot_pdf.1 other_ends.1 pdf

  pub pdf_ne : (other : String) → suffix other ≡ ".json" → name ≢ other
  pdf_ne other json e = apart_by_test ".pdf" ".json" other_ends.0 (sym pdf ∙ ap suffix e ∙ json)
