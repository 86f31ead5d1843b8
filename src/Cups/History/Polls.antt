-- ===== src/Cups/History/Polls.antt =====
-- What the rounds of the poller record.
use homeassistant_addons.Common.{
  ℕ, ◌≡◌, ◌⊎◌, Bool, String, List, [], ◌++◌, Option, none, some, Result, ok, err,
}
use homeassistant_addons.Cups.History.{Job, Store, new_jobs, last_id}

-- What a loop over `jobs` leaves: it records them in their order, all if it returns.
abbrev Appended : List Job → List Job → Result String (Unit {0}) × Store → Type 0
Appended before jobs (ok _, s) = s.history ≡ before ++ jobs
Appended before jobs (err exception, s) =
    (part : List Job) × (rest : List Job) × (part ++ rest ≡ jobs) × (s.history ≡ before ++ part)

abbrev store : List Job → Option ℕ → List Bool → Store
store history saved disk = record { history = history; saved = saved; disk = disk }

-- The new jobs of an answer.
unfoldable pub news : Option (List Job) → ℕ → List Job
news none last = []
news (some jobs) last = new_jobs last jobs

-- What a round leaves of the new jobs: it records the first of them, and the id moves on to the last one
-- only if it has recorded all.
abbrev pub Recorded : List Job → ℕ × Store → ℕ × Store → Type 0
Recorded fresh (last, s) (last', s') =
    (part : List Job) × (rest : List Job) × (part ++ rest ≡ fresh)
    × (s'.history ≡ s.history ++ part)
    × ((last' ≡ last) ⊎ ((part ≡ fresh) × (last' ≡ last_id last fresh)))
