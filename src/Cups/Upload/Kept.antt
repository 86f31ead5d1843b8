-- ===== src/Cups/Upload/Kept.antt =====
-- What the attempts leave alone: the files of `sent/` and of `failed/`.
use homeassistant_addons.Common.{
  ◌≡◌, ◌≢◌, refl, ap, ◌∙◌, Bool, true, false, String, List, [], ◌∷◌, Option, none, some, is_some,
  ==_differ, Bool-cases, inl, inr, string_eq, pair_eq, leb, ℕ, ◌+◌, ok, if◌then◌else◌,
}
use homeassistant_addons.Common.Action.{◌>>=◌}
use homeassistant_addons.Common.Action.Keeps.{Keeps, Keeps-pure, Keeps-gets, Keeps-if, Keeps-bind}
use homeassistant_addons.Common.Dict
use homeassistant_addons.Common.Dict.{get-set, get-remove}
use homeassistant_addons.Cups.Upload.{
  Place, incoming, processing, sent, failed, place_eq, FilePath, Content, retry, Response, Config,
  Box, exists_file, sidecar_name, retry_name, tagged, unique_destination, done, moved,
  replace_found, replace_file, relocate, unlink_now, unlink_file, save_retry_state, answer_with,
  upload_document, retry_count_of, deliver, move_sidecar, give_up, try_later, attempt_and_route,
  process_new_document, process_due_retry,
}

-- At `path` is `found`, a file or none, at the moment of `tag`.
abbrev pub Still : FilePath → Option Content → String → Box → Type 0
Still path found tag b = (Dict.get path b.files ≡ found) × (b.tag ≡ tag)

module _ (path : FilePath) (held : Option Content) (tag : String) where
  done-Keeps :
      (f : Box → Box)
      → ((b : Box) → Still path held tag b → Still path held tag (f b))
      → Keeps (Still path held tag) (λ b. done f b.disk b)
  done-Keeps f h = record { at = λ b. step b b.disk }
    where
      step :
          (b : Box) (disk : List Bool)
          → Still path held tag b
          → Still path held tag (done f disk b).1
      step b [] s = h b s
      step b (true ∷ rest) s = h b s
      step b (false ∷ rest) s = s

  -- Neither end of a move is `path`.
  pub get-moved :
      (from to : FilePath) (c : Content) (files : Dict.Dict FilePath Content)
      → path ≢ from
      → path ≢ to
      → Dict.get path (Dict.set to c (Dict.remove from files)) ≡ Dict.get path files
  get-moved from to c files f t =
      rw
        (
          get-set path to c (Dict.remove from files),
          ==_differ path to t,
          get-remove path from files,
          ==_differ path from f,
        )
        refl

  replace_found-Still :
      (from to : FilePath) (found : Option Content) (b : Box)
      → path ≢ from
      → path ≢ to
      → Still path held tag b
      → Still path held tag (replace_found from to found b).1
  replace_found-Still from to none b f t s = s
  replace_found-Still from to (some c) b f t s =
      (done-Keeps (moved from to c) (λ b' s'. (get-moved from to c b'.files f t ∙ s'.0, s'.1))).at b
        s

  replace-Keeps :
      (from to : FilePath)
      → path ≢ from
      → path ≢ to
      → Keeps (Still path held tag) (replace_file from to)
  unfolding replace_file
  replace-Keeps from to f t = record {
    at = λ b s. replace_found-Still from to (Dict.get from b.files) b f t s;
  }

  unlink-Still :
      (at : FilePath) (there : Bool) (b : Box)
      → path ≢ at
      → Still path held tag b
      → Still path held tag (if there then unlink_now at b else (ok tt, b)).1
  unlink-Still at false b n s = s
  unlink-Still at true b n s =
      (done-Keeps _
          (λ b' s'. (rw (get-remove path at b'.files, ==_differ path at n) s'.0, s'.1))).at
        b s

  pub unlink-Keeps : (at : FilePath) → path ≢ at → Keeps (Still path held tag) (unlink_file at)
  unfolding unlink_file
  unlink-Keeps at n = record { at = λ b s. unlink-Still at (exists_file at b) b n s }

  pub save-Keeps :
      (name : String) (attempts at : ℕ)
      → path ≢ (processing, retry_name name)
      → Keeps (Still path held tag) (save_retry_state name attempts at)
  unfolding save_retry_state
  save-Keeps name attempts at n = done-Keeps _ (λ b s. (
    rw
        (
          get-set path (processing, retry_name name) (retry attempts at) b.files,
          ==_differ path (processing, retry_name name) n,
        )
        s.0,
    s.1,
  ))

  answer-Still :
      (b : Box) (answers : List Response)
      → Still path held tag b
      → Still path held tag (answer_with answers b).1
  answer-Still b [] s = s
  answer-Still b (r ∷ rest) s = s

  pub upload-Keeps : (name : String) → Keeps (Still path held tag) (upload_document name)
  unfolding upload_document
  upload-Keeps name =
      Keeps-bind _ _ (done-Keeps (λ b. b) (λ b s. s))
        (λ u. record { at = λ b s. answer-Still b b.answers s })

  pub relocate_away-Keeps :
      (from : FilePath) (place : Place) (name : String)
      → path ≢ from
      → path.0 ≢ place
      → Keeps (Still path held tag) (relocate from place name)
  unfolding relocate ◌>>=◌ unique_destination
  relocate_away-Keeps from place name f n = record {
    at = λ b s.
        (replace-Keeps from (unique_destination place name b) f
            (choose b (exists_file (place, name) b))).at
          b s;
  }
    where
      choose :
          (b : Box) (c : Bool) → path ≢ (if c then (place, tagged name b.tag) else (place, name))
      choose b true e = n (ap (λ (q : FilePath). q.0) e)
      choose b false e = n (ap (λ (q : FilePath). q.0) e)

module _ (path : FilePath) (content : Content) (tag : String) where
  -- A file that is there is not where another one goes, unless it has the name with the tag.
  unique_destination_ne :
      (place : Place) (name : String) (b : Box)
      → path ≢ (place, tagged name tag)
      → Still path (some content) tag b
      → path ≢ unique_destination place name b
  unfolding unique_destination
  unique_destination_ne place name b n s = elim (Bool-cases (exists_file (place, name) b)) [
    | inl there ↦ rw (there, s.1) n
    | inr free ↦ rw free (λ e. cc (free, e, ap is_some s.0))
  ]

  pub relocate-Keeps :
      (from : FilePath) (place : Place) (name : String)
      → path ≢ from
      → path ≢ (place, tagged name tag)
      → Keeps (Still path (some content) tag) (relocate from place name)
  unfolding relocate ◌>>=◌
  relocate-Keeps from place name f n = record {
    at = λ b s.
        (replace-Keeps path (some content) tag from (unique_destination place name b) f
            (unique_destination_ne place name b n s)).at
          b s;
  }

-- A file of a place that no attempt takes files from.
module _ (place : Place) (file : String) (content : Content) (tag : String) (config : Config)
    (name : String) (away : place ≢ processing) (back : place ≢ incoming)
    (pdf : file ≢ tagged name tag) (json : file ≢ tagged (sidecar_name name) tag) where
  abbrev Here : Box → Type 0
  Here = Still (place, file) (some content) tag

  other_place : {p : Place} (f : String) → place ≢ p → ◌≢◌ {A = FilePath} (place, file) (p, f)
  other_place f n e = n (ap (λ (q : FilePath). q.0) e)

  other_file : (p : Place) (f : String) → file ≢ f → ◌≢◌ {A = FilePath} (place, file) (p, f)
  other_file p f n e = n (ap (λ (q : FilePath). q.1) e)

  deliver-Keeps : Keeps Here (deliver name)
  unfolding deliver
  deliver-Keeps = Keeps-bind _ _ (unlink-Keeps _ (some content) tag _ (other_place _ away)) (λ _.
      Keeps-bind _ _ (unlink-Keeps _ (some content) tag _ (other_place _ away)) (λ _.
        relocate-Keeps _ content tag _ sent name (other_place name away) (other_file sent _ pdf)))

  move_sidecar-Keeps : Keeps Here (move_sidecar name)
  unfolding move_sidecar
  move_sidecar-Keeps = Keeps-bind _ _ (Keeps-gets _) (λ there.
      Keeps-if there _ _
        (relocate-Keeps _ content tag _ failed (sidecar_name name) (other_place _ away)
          (other_file failed _ json))
        (Keeps-pure tt))

  give_up-Keeps : Keeps Here (give_up name)
  unfolding give_up
  give_up-Keeps =
      Keeps-bind _ _
        (relocate-Keeps _ content tag _ failed name (other_place name away)
          (other_file failed _ pdf))
        (λ _.
          Keeps-bind _ _ move_sidecar-Keeps
            (λ _. unlink-Keeps _ (some content) tag _ (other_place _ away)))

  attempt-Keeps : (prior : ℕ) → Keeps Here (attempt_and_route config name prior)
  unfolding attempt_and_route try_later
  attempt-Keeps prior = Keeps-bind _ _ (upload-Keeps _ (some content) tag name) (λ uploaded.
      Keeps-if uploaded _ _ deliver-Keeps (
        Keeps-if (leb (retry_count_of config) (prior + 1)) _ _ give_up-Keeps (
          Keeps-bind _ _ (Keeps-gets _)
            (λ now. save-Keeps _ (some content) tag name (prior + 1) _ (other_place _ away)))))

  new-Keeps : Keeps Here (process_new_document config name)
  unfolding process_new_document
  new-Keeps =
      Keeps-bind _ _
        (replace-Keeps _ (some content) tag _ _ (other_place name back) (other_place name away))
        (λ _. Keeps-bind _ _ (Keeps-gets _) (λ there.
          Keeps-bind _ _
            (Keeps-if there _ _
              (replace-Keeps _ (some content) tag _ _ (other_place _ back) (other_place _ away))
              (Keeps-pure tt))
            (λ _. attempt-Keeps 0)))

  retry-Keeps : Keeps Here (process_due_retry config name)
  unfolding process_due_retry
  retry-Keeps = Keeps-bind _ _ (Keeps-gets _) attempt-Keeps

-- Whatever the disk and the server do, neither a new document nor a retry changes or removes a file of
-- `sent/` or `failed/`, if it does not have one of the two names with the suffix of that moment.
pub documents_kept :
    (place : Place) (file : String) (content : Content) (config : Config) (name : String) (b : Box)
    → place ≢ processing
    → place ≢ incoming
    → file ≢ tagged name b.tag
    → file ≢ tagged (sidecar_name name) b.tag
    → Dict.get (place, file) b.files ≡ some content
    → (Dict.get (place, file) (process_new_document config name b).1.files ≡ some content)
      × (Dict.get (place, file) (process_due_retry config name b).1.files ≡ some content)
documents_kept place file content config name b away back pdf json h = (
  ((new-Keeps place file content b.tag config name away back pdf json).at b (h, refl)).0,
  ((retry-Keeps place file content b.tag config name away back pdf json).at b (h, refl)).0,
)
