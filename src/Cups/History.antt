-- ===== src/Cups/History.antt =====
-- cups/print-history-poller.py: finished print jobs, recorded by a poller. A write of a file raises an
-- OSError where the disk says so.
pub mod Polls
pub mod Once
use homeassistant_addons.Common.{
  ℕ, max, Bool, true, false, not, String, List, [], ◌∷◌, ◌++◌, Option, none, some, Result, ok, err,
  is_empty, ltb, leb, if◌then◌else◌,
}
use homeassistant_addons.Common.Action.{Action, pure, raise, ◌>>=◌, ◌>>◌}
use homeassistant_addons.Common.Sort.{sort}

-- What `lpstat` says of a finished job.
pub record Job : Type 0 where
  pub printer : String
  pub id : ℕ
  pub user : String

-- The history's records without their time, the id in the state file, and whether the next writes
-- succeed, where those behind the list's end do.
pub record Store : Type 0 where
  pub history : List Job
  pub saved : Option ℕ
  pub disk : List Bool

abbrev written : (Store → Store) → List Bool → Action Store (Unit {0})
written f [] s = (ok tt, f s)
written f (fine ∷ rest) s =
    if fine
    then (ok tt, record (f s) { disk = rest })
    else (err "OSError", record s { disk = rest })

abbrev write : (Store → Store) → Action Store (Unit {0})
write f s = written f s.disk s

unfoldable pub append_history : Job → Action Store (Unit {0})
append_history job = write (λ s. record s { history = s.history ++ job ∷ [] })

unfoldable pub save_last_seen_job_id : ℕ → Action Store (Unit {0})
save_last_seen_job_id id = write (λ s. record s { saved = some id })

-- The jobs above the last one seen.
unfoldable pub above : ℕ → List Job → List Job
above last [] = []
above last (job ∷ jobs) = let rest = above last jobs in if ltb last job.id then job ∷ rest else rest

abbrev pub by_id : Job → Job → Bool
by_id a b = leb a.id b.id

unfoldable pub new_jobs : ℕ → List Job → List Job
new_jobs last jobs = sort by_id (above last jobs)

-- The loop over the new jobs.
unfoldable pub append_all : List Job → Action Store (Unit {0})
append_all [] = pure tt
append_all (job ∷ jobs) = do append_history job; append_all jobs

-- `new_jobs[-1][1]`, or the id for no jobs
unfoldable pub last_id : ℕ → List Job → ℕ
last_id last [] = last
last_id last (job ∷ jobs) = last_id job.id jobs

-- The answer is that of `query_completed_jobs`.
unfoldable pub poll_once : Option (List Job) → ℕ → Action Store ℕ
poll_once none last = pure last
poll_once (some jobs) last = do
  append_all (new_jobs last jobs)
  if is_empty (new_jobs last jobs)
      then pure tt
      else save_last_seen_job_id (last_id last (new_jobs last jobs))
  pure (last_id last (new_jobs last jobs))

unfoldable pub max_id : List Job → ℕ
max_id [] = 0
max_id (job ∷ jobs) = max job.id (max_id jobs)

unfoldable pub establish_baseline : Option (List Job) → Action Store (Option ℕ)
establish_baseline none = pure none
establish_baseline (some jobs) = do save_last_seen_job_id (max_id jobs); pure (some (max_id jobs))

-- A round of the endless loop, with what it prints left out: an exception leaves the id as it was.
abbrev or_last : ℕ → Result String ℕ → ℕ
or_last last (ok id) = id
or_last last (err exception) = last

unfoldable pub poll_round : Option (List Job) → ℕ × Store → ℕ × Store
poll_round answer (last, s) = let (r, s') = poll_once answer last s in (or_last last r, s')

-- The rounds for a list of answers.
unfoldable pub poll_rounds : List (Option (List Job)) → ℕ × Store → ℕ × Store
poll_rounds [] state = state
poll_rounds (answer ∷ answers) state = poll_rounds answers (poll_round answer state)
