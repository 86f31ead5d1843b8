-- ===== src/Cups/Upload/Retained.antt =====
-- Where a document is after an attempt.
use homeassistant_addons.Common.{
  ◌≡◌, ◌≢◌, ◌⊎◌, inl, inr, refl, sym, ap, Bool, true, false, String, List, [], ◌∷◌, some, ==_refl,
  string_eq, pair_eq, leb, ℕ, ◌+◌, Result, ok, err, if◌then◌else◌,
}
use homeassistant_addons.Common.Action.{Action, pure, ◌>>=◌, ◌>>◌, resume}
use homeassistant_addons.Common.Action.Keeps.{Keeps, Keeps-pure, Keeps-gets, Keeps-if, Keeps-bind}
use homeassistant_addons.Common.Dict
use homeassistant_addons.Common.Dict.{get-set}
use homeassistant_addons.Cups.Upload.{
  Place, incoming, processing, sent, failed, place_eq, FilePath, Content, Config, Box, exists_file,
  suffix, sidecar_name, retry_name, tagged, unique_destination, done, moved, replace_file, relocate,
  unlink_file, retry_count_of, deliver, move_sidecar, give_up, try_later, attempt_and_route,
}
use homeassistant_addons.Cups.Upload.Names.{
  pdf-tagged, json-tagged, pdf_ne, suffix-sidecar_name, suffix-retry_name,
}
use homeassistant_addons.Cups.Upload.Kept.{
  Still, unlink-Keeps, upload-Keeps, save-Keeps, relocate-Keeps,
}

-- Where a document may be: in `processing/`, or, under its name or the one with the tag, in `sent/` or
-- in `failed/`.
abbrev pub Home : String → String → FilePath → Type 0
Home name tag (incoming, file) = ⊥
Home name tag (processing, file) = file ≡ name
Home name tag (sent, file) = (file ≡ name) ⊎ (file ≡ tagged name tag)
Home name tag (failed, file) = (file ≡ name) ⊎ (file ≡ tagged name tag)

abbrev pub Retained : String → String → Content → Box → Type 0
Retained name tag content b =
    (path : FilePath) × Home name tag path × (Dict.get path b.files ≡ some content)

-- The document's move, and what follows if it succeeds.
module _ (name tag : String) (content : Content) (to : FilePath) (home : Home name tag to)
    (rest : Action Box (Unit {0})) (k : Keeps (Still to (some content) tag) rest) where
  move_then :
      (b : Box) (disk : List Bool)
      → Still (processing, name) (some content) tag b
      → Retained name tag content
          (let (r, b') = done (moved (processing, name) to content) disk b in
            resume r (λ _. rest) b').1
  move_then b [] s = (
    to,
    home,
    (k.at _ (
      rw (get-set to to content (Dict.remove (processing, name) b.files), ==_refl to) refl,
      s.1,
    )).0,
  )
  move_then b (true ∷ disk) s = (
    to,
    home,
    (k.at _ (
      rw (get-set to to content (Dict.remove (processing, name) b.files), ==_refl to) refl,
      s.1,
    )).0,
  )
  move_then b (false ∷ disk) s = ((processing, name), refl, s.0)

  move-Retained :
      (b : Box)
      → Still (processing, name) (some content) tag b
      → Retained name tag content ((replace_file (processing, name) to >> rest) b).1
  unfolding replace_file ◌>>=◌
  move-Retained b s = rw s.0 (move_then b b.disk s)

-- A step that keeps `P`, and one that leads from `P` to `Q`, which holds behind an exception too.
module _ {A B : Type 0} {P Q : Box → Type 0} where
  bind_leads :
      (m : Action Box A) (f : A → Action Box B)
      → Keeps P m
      → ((b : Box) → P b → Q b)
      → ((a : A) (b : Box) → P b → Q (f a b).1)
      → (b : Box) → P b
      → Q ((m >>= f) b).1
  unfolding ◌>>=◌
  bind_leads m f k weak next b p = ends (m b).0 (m b).1 (k.at b p)
    where
      ends : (r : Result String A) (b' : Box) → P b' → Q (resume r f b').1
      ends (ok a) b' p' = next a b' p'
      ends (err e) b' p' = weak b' p'

pure_end : (m : Action Box (Unit {0})) (b : Box) → ((m >> pure tt) b).1 ≡ (m b).1
unfolding ◌>>=◌
pure_end m b = ends (m b).0 (m b).1
  where
    ends : (r : Result String (Unit {0})) (b' : Box) → (resume r (λ _. pure tt) b').1 ≡ b'
    ends (ok u) b' = refl
    ends (err e) b' = refl

-- An attempt for a document, whose name ends in `.pdf`.
module _ (config : Config) (name tag : String) (content : Content)
    (pdf : suffix name ≡ ".pdf") where
  abbrev Waiting : Box → Type 0
  Waiting = Still (processing, name) (some content) tag

  pub apart :
      (path : FilePath) (p : Place) (other : String)
      → suffix path.1 ≡ ".pdf"
      → suffix other ≡ ".json"
      → path ≢ (p, other)
  apart path p other h j e = pdf_ne path.1 h other j (ap (λ (q : FilePath). q.1) e)

  waiting-Home : (b : Box) → Waiting b → Retained name tag content b
  waiting-Home b s = ((processing, name), refl, s.0)

  pub unique-Home :
      (place : Place) (b : Box)
      → b.tag ≡ tag
      → Home name tag (place, name)
      → Home name tag (place, tagged name tag)
      → Home name tag (unique_destination place name b)
  unfolding unique_destination
  unique-Home place b e plain other = rw e (choose (exists_file (place, name) b))
    where
      choose : (c : Bool) → Home name tag (if c then (place, tagged name tag) else (place, name))
      choose true = other
      choose false = plain

  either_pdf : (file : String) → (file ≡ name) ⊎ (file ≡ tagged name tag) → suffix file ≡ ".pdf"
  either_pdf file (inl e) = rw e pdf
  either_pdf file (inr e) = rw e (pdf-tagged name pdf tag)

  pub Home-pdf : (path : FilePath) → Home name tag path → suffix path.1 ≡ ".pdf"
  Home-pdf (incoming, file) h = absurd h
  Home-pdf (processing, file) h = rw h pdf
  Home-pdf (sent, file) h = either_pdf file h
  Home-pdf (failed, file) h = either_pdf file h

  relocate-Retained :
      (place : Place) (rest : Action Box (Unit {0}))
      → Home name tag (place, name)
      → Home name tag (place, tagged name tag)
      → ((to : FilePath) → suffix to.1 ≡ ".pdf" → Keeps (Still to (some content) tag) rest)
      → (b : Box) → Waiting b
      → Retained name tag content ((relocate (processing, name) place name >> rest) b).1
  unfolding relocate ◌>>=◌
  relocate-Retained place rest plain other k b s =
      let home = unique-Home place b s.1 plain other in
      let to = unique_destination place name b in
      move-Retained name tag content to home rest (k to (Home-pdf to home)) b s

  deliver-Retained : (b : Box) → Waiting b → Retained name tag content (deliver name b).1
  unfolding deliver
  deliver-Retained =
      bind_leads _ _
        (unlink-Keeps _ (some content) tag _
          (apart (processing, name) _ _ pdf (suffix-sidecar_name name pdf)))
        waiting-Home
        (λ _.
          bind_leads _ _
            (unlink-Keeps _ (some content) tag _
              (apart (processing, name) _ _ pdf (suffix-retry_name name pdf)))
            waiting-Home
            (λ _ b s.
              rw (sym (pure_end (relocate (processing, name) sent name) b)) (
                relocate-Retained sent (pure tt) (inl refl) (inr refl) (λ to h. Keeps-pure tt) b
                  s)))

  pub cleanup-Keeps :
      (to : FilePath)
      → suffix to.1 ≡ ".pdf"
      → Keeps
          (Still to (some content) tag)
          (move_sidecar name >> unlink_file (processing, retry_name name))
  unfolding move_sidecar
  cleanup-Keeps to h =
      Keeps-bind _ _
        (Keeps-bind _ _ (Keeps-gets _) (λ there.
          Keeps-if there _ _
            (relocate-Keeps to content tag _ failed (sidecar_name name)
              (apart to processing _ h (suffix-sidecar_name name pdf))
              (apart to failed _ h (json-tagged name pdf tag)))
            (Keeps-pure tt)))
        (λ _.
          unlink-Keeps to (some content) tag _
            (apart to processing _ h (suffix-retry_name name pdf)))

  give_up-Retained : (b : Box) → Waiting b → Retained name tag content (give_up name b).1
  unfolding give_up
  give_up-Retained b s = relocate-Retained failed _ (inl refl) (inr refl) cleanup-Keeps b s

  later-Keeps : (attempts : ℕ) → Keeps Waiting (try_later config name attempts)
  unfolding try_later
  later-Keeps attempts = Keeps-bind _ _ (Keeps-gets _) (λ now.
      save-Keeps _ (some content) tag name attempts _
        (apart (processing, name) _ _ pdf (suffix-retry_name name pdf)))

  attempt-Retained :
      (prior : ℕ) (b : Box)
      → Waiting b
      → Retained name tag content (attempt_and_route config name prior b).1
  unfolding attempt_and_route
  attempt-Retained prior =
      bind_leads _ _ (upload-Keeps _ (some content) tag name) waiting-Home
        (λ uploaded b s. routed uploaded (leb (retry_count_of config) (prior + 1)) b s)
    where
      routed :
          (uploaded spent : Bool) (b : Box)
          → Waiting b
          → Retained name tag content
              ((if uploaded
                  then deliver name
                  else if spent
                  then give_up name
                  else try_later config name (prior + 1))
                b).1
      routed true spent b s = deliver-Retained b s
      routed false true b s = give_up-Retained b s
      routed false false b s =
          waiting-Home (try_later config name (prior + 1) b).1 ((later-Keeps (prior + 1)).at b s)

-- Whatever the disk and the server do, a document in `processing/` whose name ends in `.pdf` is still
-- there after an attempt, or under its name or the one with the suffix of that moment in `sent/` or
-- `failed/`.
pub attempt_and_route-Retained :
    (config : Config) (name : String) (content : Content) (prior : ℕ) (b : Box)
    → suffix name ≡ ".pdf"
    → Dict.get (processing, name) b.files ≡ some content
    → Retained name b.tag content (attempt_and_route config name prior b).1
attempt_and_route-Retained config name content prior b pdf h =
    attempt-Retained config name b.tag content pdf prior b (h, refl)
