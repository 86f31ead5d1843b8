-- ===== src/Cups/Tests.antt =====
-- The theorems at a full disk, and at a scanned document.
use homeassistant_addons.Common.{
  none, ℕ, ◌≡◌, ◌≢◌, refl, true, false, String, [], ◌∷◌, some, ◌==◌, ==_iff, ◌∙◌, string_eq,
  pair_eq, arith,
}
use homeassistant_addons.Common.Dict
use homeassistant_addons.Common.Dict.{Dict}
use homeassistant_addons.Cups.History.{Job, Store, poll_rounds}
use homeassistant_addons.Cups.History.Once.{Grown, sound, poll_rounds-Grown}
use homeassistant_addons.Cups.Upload.{
  processing, incoming, sent, place_eq, has_dot, before_dot, from_dot, stem, suffix, sidecar_name,
  tagged, FilePath, Content, document, answered, Config, Box, process_new_document,
  process_due_retry, attempt_and_route,
}
use homeassistant_addons.Cups.Upload.Kept.{documents_kept}
use homeassistant_addons.Cups.Upload.Retained.{Retained, attempt_and_route-Retained}

abbrev config : Config
config = record { retry_count = 2; retry_delay = 60 }

-- A file of that name was sent before, and the first two file operations fail.
abbrev files : Dict FilePath Content
files = ((sent, "a.pdf"), document "old") ∷ ((processing, "a.pdf"), document "new") ∷ []

abbrev box : Box
box = record {
  files = files;
  now = 5;
  tag = "-T";
  disk = true ∷ false ∷ [];
  answers = answered 200 true ∷ [];
}

is_pdf : suffix "a.pdf" ≡ ".pdf"
unfolding suffix from_dot has_dot
is_pdf = refl

other_names :
    (◌==◌ {A = String} "a.pdf" "a-T.pdf" ≡ false) × (◌==◌ {A = String} "a.pdf" "a-T.json" ≡ false)
unfolding string_eq
other_names = (refl, refl)

tagged_names : (tagged "a.pdf" "-T" ≡ "a-T.pdf") × (tagged (sidecar_name "a.pdf") "-T" ≡ "a-T.json")
unfolding stem suffix before_dot from_dot has_dot
tagged_names = (refl, refl)

pdf_tag : "a.pdf" ≢ tagged "a.pdf" "-T"
pdf_tag e = cc (other_names.0, (==_iff {A = String} "a.pdf" "a-T.pdf").1 (e ∙ tagged_names.0))

json_tag : "a.pdf" ≢ tagged (sidecar_name "a.pdf") "-T"
json_tag e = cc (other_names.1, (==_iff {A = String} "a.pdf" "a-T.json").1 (e ∙ tagged_names.1))

there : Dict.get {K = FilePath} (sent, "a.pdf") files ≡ some (document "old")
unfolding Dict.get place_eq pair_eq string_eq
there = refl

waiting : Dict.get {K = FilePath} (processing, "a.pdf") files ≡ some (document "new")
unfolding Dict.get place_eq pair_eq string_eq
waiting = refl

documents_kept_example :
    (Dict.get (sent, "a.pdf") (process_new_document config "a.pdf" box).1.files
      ≡ some (document "old"))
    × (Dict.get (sent, "a.pdf") (process_due_retry config "a.pdf" box).1.files
        ≡ some (document "old"))
documents_kept_example =
    documents_kept sent "a.pdf" (document "old") config "a.pdf" box (λ e. ground arith)
      (λ e. ground arith) pdf_tag json_tag there

attempt_and_route-Retained_example :
    Retained "a.pdf" "-T" (document "new") (attempt_and_route config "a.pdf" 1 box).1
attempt_and_route-Retained_example =
    attempt_and_route-Retained config "a.pdf" (document "new") 1 box is_pdf waiting

abbrev arriving : Dict FilePath Content
arriving = ((incoming, "a.pdf"), document "new") ∷ []

-- Two new jobs, of which the disk takes the first one.
abbrev job : ℕ → Job
job id = record { printer = "Office"; id = id; user = "phil" }

abbrev store : Store
store = record { history = job 3 ∷ []; saved = some 3; disk = true ∷ false ∷ [] }

poll_rounds-Grown_example : Grown 3 (job 3 ∷ []) (
    poll_rounds
      (some (job 5 ∷ job 4 ∷ []) ∷ none ∷ some (job 5 ∷ job 6 ∷ []) ∷ [])
      (3, sound (job 3 ∷ []) (some 3)))
poll_rounds-Grown_example =
    poll_rounds-Grown (some (job 5 ∷ job 4 ∷ []) ∷ none ∷ some (job 5 ∷ job 6 ∷ []) ∷ []) 3
      (job 3 ∷ []) (some 3)
