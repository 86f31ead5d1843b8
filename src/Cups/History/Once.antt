-- ===== src/Cups/History/Once.antt =====
-- What many rounds record while every write succeeds.
use mathlib.Core.List.{append-nil, append_assoc}
use homeassistant_addons.Common.{
  ℕ, ◌≤◌, ◌<◌, ◌≡◌, ◌⊎◌, refl, ap, ◌∙◌, Bool, true, false, List, [], ◌∷◌, ◌++◌, Option, none, some,
  All, All-append, is_empty, arith, if◌then◌else◌, ok,
}
use homeassistant_addons.Common.Action.{pure, ◌>>=◌, ◌>>◌}
use homeassistant_addons.Common.Sort.{sort, IsSorted, AllBehind, sort-IsSorted, All-sort}
use homeassistant_addons.Cups.History.{
  Job, Store, append_history, save_last_seen_job_id, above, by_id, new_jobs, append_all, last_id,
  poll_once, poll_round, poll_rounds, or_last,
}

total : (a b : Job) → (by_id a b ≡ true) ⊎ (by_id b a ≡ true)
total a b = ground arith

trans : (a b c : Job) → by_id a b ≡ true → by_id b c ≡ true → by_id a c ≡ true
trans a b c h k = ground arith

-- Ids above `low`, and up to `high`.
abbrev pub Between : ℕ → ℕ → List Job → Type 0
Between low high jobs = All (λ job. (low < job.id) × (job.id ≤ high)) jobs

widen :
    (low low' high high' : ℕ) (jobs : List Job)
    → low' ≤ low
    → high ≤ high'
    → Between low high jobs
    → Between low' high' jobs
widen low low' high high' [] l h b = tt
widen low low' high high' (job ∷ jobs) l h ((p, q), b) =
    ((omega arith, omega arith), widen low low' high high' jobs l h b)

above_low : (last : ℕ) (jobs : List Job) → All (λ job. last < job.id) (above last jobs)
unfolding above
above_low last [] = tt
above_low last (job ∷ jobs) = ground (arith, above_low last jobs)

-- The last of sorted jobs has the highest id.
at_least :
    (a : Job) (jobs : List Job)
    → AllBehind by_id total trans a jobs
    → All (λ job. a.id ≤ job.id) jobs
at_least a [] b = tt
at_least a (job ∷ jobs) (h, b) = (ground arith, at_least a jobs b)

last_id_high :
    (low : ℕ) (jobs : List Job)
    → All (λ job. low ≤ job.id) jobs
    → IsSorted by_id total trans jobs
    → (low ≤ last_id low jobs) × All (λ job. job.id ≤ last_id low jobs) jobs
unfolding last_id
last_id_high low [] a s = (omega arith, tt)
last_id_high low (job ∷ jobs) (p, a) (b, s) =
    let (q, c) = last_id_high job.id jobs (at_least job jobs b) s in (omega (arith, p, q), (q, c))

-- The new jobs of an answer lie above the last id seen, and up to the next one.
both :
    (low high : ℕ) (jobs : List Job)
    → All (λ job. low < job.id) jobs
    → All (λ job. job.id ≤ high) jobs
    → Between low high jobs
both low high [] a b = tt
both low high (job ∷ jobs) (p, a) (q, b) = ((p, q), both low high jobs a b)

weaken :
    (low : ℕ) (jobs : List Job) → All (λ job. low < job.id) jobs → All (λ job. low ≤ job.id) jobs
weaken low [] a = tt
weaken low (job ∷ jobs) (p, a) = (omega arith, weaken low jobs a)

new_jobs-Between :
    (last : ℕ) (jobs : List Job)
    → (last ≤ last_id last (new_jobs last jobs))
      × Between last (last_id last (new_jobs last jobs)) (new_jobs last jobs)
unfolding new_jobs
new_jobs-Between last jobs =
    let low = (All-sort by_id (λ job. last < job.id) (above last jobs)).1 (above_low last jobs) in
    let (q, c) =
      last_id_high last (sort by_id (above last jobs)) (weaken last _ low)
        (sort-IsSorted by_id total trans (above last jobs)) in
    (
      q,
      both last (last_id last (sort by_id (above last jobs))) (sort by_id (above last jobs)) low c,
    )

-- A store whose writes succeed.
abbrev pub sound : List Job → Option ℕ → Store
sound history saved = record { history = history; saved = saved; disk = [] }

append_all_lem :
    (jobs before : List Job) (saved : Option ℕ)
    → append_all jobs (sound before saved) ≡ (ok tt, sound (before ++ jobs) saved)
unfolding append_all append_history ◌>>=◌
append_all_lem [] before saved = rw (append-nil before) refl
append_all_lem (job ∷ jobs) before saved =
    append_all_lem jobs (before ++ job ∷ []) saved
    ∙ ap (λ h. (ok tt, sound h saved)) (append_assoc before (job ∷ []) jobs)

-- What rounds leave: more records, between the last id seen before them and the one after them.
abbrev pub Grown : ℕ → List Job → ℕ × Store → Type 0
Grown last history (last', s') =
    (more : List Job) × (saved : Option ℕ) × (s' ≡ sound (history ++ more) saved)
    × (last ≤ last')
    × Between last last' more

-- The state file is written last.
round_end :
    (b : Bool) (id last : ℕ) (history more : List Job) (saved : Option ℕ)
    → (last ≤ id) × Between last id more
    → Grown last history (
      or_last last
          (((if b then pure tt else save_last_seen_job_id id) >> pure id)
            (sound (history ++ more) saved)).0,
      (((if b then pure tt else save_last_seen_job_id id) >> pure id)
          (sound (history ++ more) saved)).1,
    )
unfolding save_last_seen_job_id ◌>>=◌
round_end true id last history more saved (q, c) = (more, saved, refl, q, c)
round_end false id last history more saved (q, c) = (more, some id, refl, q, c)

poll_round-Grown :
    (answer : Option (List Job)) (last : ℕ) (history : List Job) (saved : Option ℕ)
    → Grown last history (poll_round answer (last, sound history saved))
unfolding poll_round poll_once ◌>>=◌
poll_round-Grown none last history saved =
    ([], saved, rw (append-nil history) refl, omega arith, tt)
poll_round-Grown (some jobs) last history saved =
    rw (append_all_lem (new_jobs last jobs) history saved) (
      round_end (is_empty (new_jobs last jobs)) (last_id last (new_jobs last jobs)) last history
        (new_jobs last jobs) saved (new_jobs-Between last jobs))

-- Rounds after rounds.
Grown-Grown :
    (last last' : ℕ) (history more : List Job) (end : ℕ × Store)
    → last ≤ last'
    → Between last last' more
    → Grown last' (history ++ more) end
    → Grown last history end
Grown-Grown last last' history more (id, s) l b (more', saved, e, q, c) = (
  more ++ more',
  saved,
  e ∙ ap (λ h. sound h saved) (append_assoc history more more'),
  omega arith,
  All-append (λ job. (last < job.id) × (job.id ≤ id)) more more'
      (widen last last last' id more (omega arith) q b)
      (widen last' last id id more' l (omega arith) c),
)

-- While every write succeeds, whatever is answered, rounds add to the history only jobs with ids above the
-- last one seen before them, and up to the last one seen after them, which is not below the first.
pub poll_rounds-Grown :
    (answers : List (Option (List Job))) (last : ℕ) (history : List Job) (saved : Option ℕ)
    → Grown last history (poll_rounds answers (last, sound history saved))
unfolding poll_rounds
poll_rounds-Grown [] last history saved = ([], saved, rw (append-nil history) refl, omega arith, tt)
poll_rounds-Grown (answer ∷ answers) last history saved =
    next (poll_round answer (last, sound history saved))
      (λ last' h saved'. poll_rounds-Grown answers last' h saved')
      (poll_round-Grown answer last history saved)
  where
    next :
        (state : ℕ × Store)
        → ((last' : ℕ) (h : List Job) (saved' : Option ℕ)
            → Grown last' h (poll_rounds answers (last', sound h saved')))
        → Grown last history state
        → Grown last history (poll_rounds answers state)
    next (last', s) rest (more, saved', e, q, c) = rw e (
        Grown-Grown last last' history more
          (poll_rounds answers (last', sound (history ++ more) saved')) q c
          (rest last' (history ++ more) saved'))
