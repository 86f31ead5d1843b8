-- ===== src/Cups/Upload/Quiet.antt =====
-- One attempt while no upload is accepted and the disk works.
use homeassistant_addons.Common.{
  ◌≡◌, ◌≢◌, ◌≤◌, ◌⊎◌, inl, inr, refl, sym, ◌∙◌, true, false, String, [], ◌∷◌, none, some, ==_differ,
  ==_refl, Bool-cases, string_eq, pair_eq, leb, ℕ, ◌+◌, Result, ok, err, arith,
}
use homeassistant_addons.Common.Action.{pure, catch, recover, ◌>>=◌, ◌>>◌, resume}
use homeassistant_addons.Common.Action.Keeps.{Keeps, Keeps-pure, Keeps-gets, Keeps-if, Keeps-bind}
use homeassistant_addons.Common.Dict
use homeassistant_addons.Common.Dict.{Dict, get-set, get-remove}
use homeassistant_addons.Cups.Upload.{
  processing, failed, place_eq, FilePath, Content, retry, Config, Box, exists_file, suffix,
  sidecar_name, retry_name, tagged, unique_destination, replace_file, relocate, unlink_file,
  save_retry_state, upload_document, retry_count_of, retry_delay_of, move_sidecar, give_up,
  try_later, attempt_and_route, process_due_retry, is_due, poll_due,
}
use homeassistant_addons.Cups.Upload.Names.{suffix-sidecar_name, suffix-retry_name}
use homeassistant_addons.Cups.Upload.Kept.{Still, unlink-Keeps, relocate_away-Keeps}
use homeassistant_addons.Cups.Upload.Retained.{Home, apart, cleanup-Keeps, unique-Home, Home-pdf}

-- A box whose disk works, while no upload is accepted.
abbrev pub quiet : Dict FilePath Content → ℕ → String → Box
quiet files now tag = record { files = files; now = now; tag = tag; disk = []; answers = [] }

-- The document is in `failed/`, and no longer in `processing/`.
abbrev pub GivenUp : String → Content → Box → Type 0
GivenUp name content b =
    (Dict.get (processing, name) b.files ≡ none)
    × ((Dict.get (failed, name) b.files ≡ some content)
        ⊎ (Dict.get (failed, tagged name b.tag) b.files ≡ some content))

module _ (config : Config) (name tag : String) (content : Content) (pdf : suffix name ≡ ".pdf")
    (files : Dict FilePath Content) (now prior : ℕ) where
  pub try_later_lem :
      leb (retry_count_of config) (prior + 1) ≡ false
      → attempt_and_route config name prior (quiet files now tag) ≡ (
        ok tt,
        quiet
            (Dict.set
              (processing, retry_name name)
              (retry (prior + 1) (now + retry_delay_of config))
              files)
            now
            tag,
      )
  unfolding attempt_and_route upload_document try_later save_retry_state ◌>>=◌
  try_later_lem e = rw e refl

  pub give_up_lem :
      leb (retry_count_of config) (prior + 1) ≡ true
      → attempt_and_route config name prior (quiet files now tag)
        ≡ give_up name (quiet files now tag)
  unfolding attempt_and_route upload_document ◌>>=◌
  give_up_lem e = rw e refl

  passed_end :
      (r : Result String (Unit {0})) (b : Box)
      → (resume
          (recover {S = Box} r (λ exception. pure tt) b).0
          (λ u. pure tt)
          (recover r (λ exception. pure tt) b).1).1
        ≡ b
  passed_end (ok u) b = refl
  passed_end (err e) b = refl

  pub poll_due_lem :
      (at : ℕ)
      → Dict.get (processing, retry_name name) files ≡ some (retry prior at)
      → at ≤ now
      → (poll_due config (name ∷ []) (quiet files now tag)).1
        ≡ (attempt_and_route config name prior (quiet files now tag)).1
  unfolding poll_due process_due_retry is_due ◌>>=◌ catch
  poll_due_lem at e h =
      rw (e, leb_true)
        (rw e (
          passed_end (attempt_and_route config name prior (quiet files now tag)).0
            (attempt_and_route config name prior (quiet files now tag)).1))
    where
      leb_true : leb at now ≡ true
      leb_true = ground arith

  -- A document that is given up.
  abbrev target : FilePath
  target = unique_destination failed name (quiet files now tag)

  cleanup_lem :
      Dict.get (processing, name) files ≡ some content
      → give_up name (quiet files now tag)
        ≡ (move_sidecar name >> unlink_file (processing, retry_name name))
            (quiet (Dict.set target content (Dict.remove (processing, name) files)) now tag)
  unfolding give_up relocate replace_file ◌>>=◌
  cleanup_lem e = rw e refl

  target_cases : (target ≡ (failed, name)) ⊎ (target ≡ (failed, tagged name tag))
  unfolding unique_destination
  target_cases = elim (Bool-cases (exists_file (failed, name) (quiet files now tag))) [
    | inl there ↦ rw there (inr refl)
    | inr free ↦ rw free (inl refl)
  ]

  target-Home : Home name tag target
  target-Home =
      unique-Home config name tag content pdf failed (quiet files now tag) refl (inl refl)
        (inr refl)

  target_ne : ◌≢◌ {A = FilePath} (processing, name) target
  target_ne e = elim target_cases [
    | inl p ↦ place_ne name (e ∙ p)
    | inr q ↦ place_ne (tagged name tag) (e ∙ q)
  ]
    where
      place_ne : (file : String) → ◌≡◌ {A = FilePath} (processing, name) (failed, file) → ⊥
      place_ne file p = ground arith

  at_target :
      (b : Box)
      → Dict.get target b.files ≡ some content
      → b.tag ≡ tag
      → (Dict.get (failed, name) b.files ≡ some content)
        ⊎ (Dict.get (failed, tagged name b.tag) b.files ≡ some content)
  at_target b e t = elim target_cases [ inl p ↦ inl (rw (sym p) e) | inr q ↦ inr (rw (t, sym q) e) ]

  gone-Keeps :
      Keeps
        (Still (processing, name) none tag)
        (move_sidecar name >> unlink_file (processing, retry_name name))
  unfolding move_sidecar
  gone-Keeps =
      Keeps-bind _ _
        (Keeps-bind _ _ (Keeps-gets _) (λ there.
          Keeps-if there _ _
            (relocate_away-Keeps (processing, name) none tag _ failed (sidecar_name name)
              (apart config name tag content pdf (processing, name) processing _ pdf
                (suffix-sidecar_name name pdf))
              (λ e. ground arith))
            (Keeps-pure tt)))
        (λ _.
          unlink-Keeps (processing, name) none tag _
            (apart config name tag content pdf (processing, name) processing _ pdf
              (suffix-retry_name name pdf)))

  -- The files behind the document's move.
  abbrev moved_files : Dict FilePath Content
  moved_files = Dict.set target content (Dict.remove (processing, name) files)

  moved_gone : Dict.get (processing, name) moved_files ≡ none
  moved_gone =
      rw
        (
          get-set (processing, name) target content (Dict.remove (processing, name) files),
          ==_differ (processing, name) target target_ne,
          get-remove (processing, name) (processing, name) files,
          ==_refl {A = FilePath} (processing, name),
        )
        refl

  moved_there : Dict.get target moved_files ≡ some content
  moved_there =
      rw (get-set target target content (Dict.remove (processing, name) files), ==_refl target) refl

  pub give_up-GivenUp :
      Dict.get (processing, name) files ≡ some content
      → GivenUp name content (give_up name (quiet files now tag)).1
  give_up-GivenUp e =
      let gone = gone-Keeps.at (quiet moved_files now tag) (moved_gone, refl) in
      let there =
        (cleanup-Keeps config name tag content pdf target
            (Home-pdf config name tag content pdf target target-Home)).at
          (quiet moved_files now tag) (moved_there, refl) in
      rw (cleanup_lem e) (
        gone.0,
        at_target
            ((move_sidecar name >> unlink_file (processing, retry_name name))
              (quiet moved_files now tag)).1
            there.0 there.1,
      )
