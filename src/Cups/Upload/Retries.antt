-- ===== src/Cups/Upload/Retries.antt =====
-- A server that answers no upload: the retries of a document end in `failed/`.
use homeassistant_addons.Common.{
  ◌≡◌, ◌≤◌, ◌<◌, ◌⊎◌, inl, inr, String, [], ◌∷◌, some, string_eq, pair_eq, ℕ, zero, suc, ◌+◌,
}
use homeassistant_addons.Common.Dict
use homeassistant_addons.Common.Dict.{Dict, get-remove}
use homeassistant_addons.Cups.Upload.{
  incoming, processing, place_eq, FilePath, Content, retry, Config, Box, suffix, sidecar_name,
  retry_name, retry_count_of, retry_delay_of, attempt_and_route, process_new_document, poll_due,
}
use homeassistant_addons.Cups.Upload.Quiet.{quiet, GivenUp}

-- A poll after the time between two attempts.
abbrev pub next_poll : Config → String → Box → Box
next_poll config name b =
    (poll_due config (name ∷ []) (record b { now = b.now + retry_delay_of config })).1

unfoldable pub polled : Config → String → ℕ → Box → Box
polled config name zero b = b
polled config name (suc n) b = next_poll config name (polled config name n b)

-- The document waits in `processing/` after `attempts` attempts.
abbrev pub Waiting : String → Content → ℕ → Box → Type 0
Waiting name content attempts b =
    (Dict.get (processing, name) b.files ≡ some content)
    × (at : ℕ) × (Dict.get (processing, retry_name name) b.files ≡ some (retry attempts at))

-- The same in a box whose disk works, for a next attempt that is due at the next poll.
abbrev Due : Config → String → String → Content → ℕ → Box → Type 0
Due config name tag content attempts b =
    (files : Dict FilePath Content) × (now : ℕ) × (at : ℕ) × (b ≡ quiet files now tag)
    × (Dict.get (processing, name) files ≡ some content)
    × (Dict.get (processing, retry_name name) files ≡ some (retry attempts at))
    × (at ≤ now + retry_delay_of config)

-- What `attempts` attempts have led to, of at most the configured ones.
abbrev Reached : Config → String → String → Content → ℕ → Box → Type 0
Reached config name tag content attempts b =
    ((attempts < retry_count_of config) × Due config name tag content attempts b)
    ⊎ ((attempts ≡ retry_count_of config) × GivenUp name content b)

module _ (config : Config) (name tag : String) (content : Content)
    (pdf : suffix name ≡ ".pdf") where
  -- A new document's way into `processing/`.
  module _ (files : Dict FilePath Content) (now : ℕ) where
    abbrev arrived : Dict FilePath Content
    arrived = Dict.set (processing, name) content (Dict.remove (incoming, name) files)

    with_sidecar : Content → Dict FilePath Content
    with_sidecar c =
        Dict.set (processing, sidecar_name name) c
          (Dict.remove (incoming, sidecar_name name) arrived)

    -- The files of the first attempt.
    Started : Type 0
    Started =
        (started : Dict FilePath Content) × (Dict.get (processing, name) started ≡ some content)
        × (process_new_document config name (quiet files now tag)
            ≡ attempt_and_route config name 0 (quiet started now tag))

-- What is left of `Reached` for a document, seen from the folders.
outcome :
    (config : Config) (name tag : String) (content : Content) (attempts : ℕ) (b : Box)
    → Reached config name tag content attempts b
    → ((attempts < retry_count_of config) × Waiting name content attempts b)
      ⊎ ((attempts ≡ retry_count_of config) × GivenUp name content b)
outcome config name tag content attempts b (inl (l, (files, now, at, e, doc, state, due))) =
    inl (l, rw e (doc, at, state))
outcome config name tag content attempts b (inr g) = inr g
