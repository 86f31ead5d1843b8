-- ===== src/Cups/Upload.antt =====
-- cups/upload-worker.py: documents on their way to paperless-ngx. A file operation raises an OSError
-- where the disk says so, and then has changed nothing.
pub mod Names
pub mod Kept
pub mod Retained
pub mod Quiet
pub mod Retries
use Prim.Native.Char.{code}
use homeassistant_addons.Common.{
  ℕ, zero, suc, ◌+◌, ◌≡◌, Bool, true, false, not, ◌&&◌, ◌||◌, String, ◌<>◌, List, [], ◌∷◌, Option,
  none, some, is_some, Eq, ◌==◌, string_eq, pair_eq, Result, ok, err, eqb, ltb, leb, if◌then◌else◌,
}
use homeassistant_addons.Common.Action.{Action, pure, raise, gets, catch, ◌>>=◌, ◌>>◌}
use homeassistant_addons.Common.Dict
use homeassistant_addons.Common.Dict.{Dict}

-- The four folders.
pub data Place : Type 0 where
  incoming processing sent failed : Place

Place-discrete : Discrete Place
Place-discrete = hlevel

instance unfoldable pub place_eq : Eq Place
unfolding Place-discrete
place_eq = record { dec = Place-discrete }

abbrev pub FilePath : Type 0
FilePath = Place × String

-- What a file holds: a document, a JSON object without the keys of a retry state, such as a sidecar, a
-- retry state with the attempts and the next one's time, or anything that is no JSON object.
pub data Content : Type 0 where
  document : String → Content
  sidecar : String → Content
  retry : (attempts next_attempt_at : ℕ) → Content
  malformed : String → Content

-- An answer of paperless-ngx; `task_id` says whether its body is a JSON string that is not empty.
pub data Response : Type 0 where
  unreachable : Response
  answered : (status : ℕ) (task_id : Bool) → Response

pub record Config : Type 0 where
  pub retry_count : ℕ
  pub retry_delay : ℕ

-- `now` is the time of the clock, `tag` the suffix of that moment, `disk` and `answers` say what the
-- next file operations and uploads do; behind their ends, operations succeed and uploads fail.
pub record Box : Type 0 where
  pub files : Dict FilePath Content
  pub now : ℕ
  pub tag : String
  pub disk : List Bool
  pub answers : List Response

abbrev pub exists_file : FilePath → Box → Bool
exists_file path b = is_some (Dict.get path b.files)

-- The place of the last dot: what stands before it, and what begins with it.
unfoldable pub has_dot : String → Bool
has_dot String.[] = false
has_dot (String.◌∷◌ c s) = eqb (code c) b'.' || has_dot s

unfoldable pub before_dot : String → String
unfolding has_dot
before_dot String.[] = ""
before_dot (String.◌∷◌ c s) =
    let rest = before_dot s in
    if has_dot s then String.◌∷◌ c rest else if eqb (code c) b'.' then "" else String.◌∷◌ c rest

unfoldable pub from_dot : String → String
unfolding has_dot
from_dot String.[] = ""
from_dot (String.◌∷◌ c s) =
    let rest = from_dot s in
    if has_dot s then rest else if eqb (code c) b'.' then String.◌∷◌ c s else rest

-- `Path.stem` and `Path.suffix`, for a name that does not end in a dot; a first dot does not count.
unfoldable pub stem : String → String
unfolding before_dot
stem String.[] = ""
stem (String.◌∷◌ c s) = String.◌∷◌ c (before_dot s)

unfoldable pub suffix : String → String
unfolding from_dot
suffix String.[] = ""
suffix (String.◌∷◌ c s) = from_dot s

abbrev pub sidecar_name : String → String
sidecar_name name = stem name <> ".json"

-- `retry_state_path`
abbrev pub retry_name : String → String
retry_name name = stem name <> ".retry.json"

abbrev pub tagged : String → String → String
tagged name tag = stem name <> (tag <> suffix name)

-- `unique_destination`, for the suffix of that moment or one that is given
unfoldable pub unique_destination : Place → String → Box → FilePath
unique_destination place name b =
    if exists_file (place, name) b then (place, tagged name b.tag) else (place, name)

abbrev pub done : (Box → Box) → List Bool → Action Box (Unit {0})
done f [] b = (ok tt, f b)
done f (fine ∷ rest) b =
    if fine
    then (ok tt, record (f b) { disk = rest })
    else (err "OSError", record b { disk = rest })

abbrev pub moved : FilePath → FilePath → Content → Box → Box
moved from to content b = record b { files = Dict.set to content (Dict.remove from b.files) }

abbrev pub replace_found : FilePath → FilePath → Option Content → Action Box (Unit {0})
replace_found from to none b = (err "FileNotFoundError", b)
replace_found from to (some content) b = done (moved from to content) b.disk b

-- `from.replace(to)`, over what is there
unfoldable pub replace_file : FilePath → FilePath → Action Box (Unit {0})
replace_file from to b = replace_found from to (Dict.get from b.files) b

-- `from.replace(unique_destination(place, name))`
unfoldable pub relocate : FilePath → Place → String → Action Box (Unit {0})
relocate from place name = gets (unique_destination place name) >>= replace_file from

abbrev pub unlink_now : FilePath → Action Box (Unit {0})
unlink_now path b = done (λ b. record b { files = Dict.remove path b.files }) b.disk b

-- `if path.exists(): path.unlink()`
unfoldable pub unlink_file : FilePath → Action Box (Unit {0})
unlink_file path b = if exists_file path b then unlink_now path b else (ok tt, b)

unfoldable pub save_retry_state : String → ℕ → ℕ → Action Box (Unit {0})
save_retry_state name attempts at b =
    done
      (λ b. record b { files = Dict.set (processing, retry_name name) (retry attempts at) b.files })
      b.disk b

-- The answers that count as an upload.
unfoldable pub accepted : Response → Bool
accepted unreachable = false
accepted (answered status task_id) =
    if leb 300 status && ltb status 400
    then false
    else if eqb status 200 && not task_id
    then false
    else eqb status 200

abbrev pub answer_with : List Response → Action Box Bool
answer_with [] b = (ok false, b)
answer_with (r ∷ rest) b = (ok (accepted r), record b { answers = rest })

-- `upload_document`: a document that cannot be opened raises.
unfoldable pub upload_document : String → Action Box Bool
upload_document name = do λ b. done (λ b. b) b.disk b; λ b. answer_with b.answers b

-- `int(config.get(key, default) or default)`
abbrev or_number : ℕ → ℕ → ℕ
or_number zero d = d
or_number (suc n) d = suc n

abbrev pub retry_count_of : Config → ℕ
retry_count_of config = or_number config.retry_count 5

abbrev pub retry_delay_of : Config → ℕ
retry_delay_of config = or_number config.retry_delay 60

-- The ends of an attempt: `sent/`, `failed/`, and `processing/` with the state of the retries.
unfoldable pub deliver : String → Action Box (Unit {0})
deliver name = do
  unlink_file (processing, sidecar_name name)
  unlink_file (processing, retry_name name)
  relocate (processing, name) sent name

-- The sidecar shares the document's suffix, where both collide.
unfoldable pub move_sidecar : String → Action Box (Unit {0})
move_sidecar name = do
  there ← gets (exists_file (processing, sidecar_name name))
  if there then relocate (processing, sidecar_name name) failed (sidecar_name name) else pure tt

unfoldable pub give_up : String → Action Box (Unit {0})
give_up name = do
  relocate (processing, name) failed name
  move_sidecar name
  unlink_file (processing, retry_name name)

unfoldable pub try_later : Config → String → ℕ → Action Box (Unit {0})
try_later config name attempts = do
  now ← gets (λ b. b.now)
  save_retry_state name attempts (now + retry_delay_of config)

unfoldable pub attempt_and_route : Config → String → ℕ → Action Box (Unit {0})
attempt_and_route config name prior_attempts = do
  uploaded ← upload_document name
  if uploaded
      then deliver name
      else if leb (retry_count_of config) (prior_attempts + 1)
      then give_up name
      else try_later config name (prior_attempts + 1)

unfoldable pub process_new_document : Config → String → Action Box (Unit {0})
process_new_document config name = do
  replace_file (incoming, name) (processing, name)
  there ← gets (exists_file (incoming, sidecar_name name))
  if there
      then replace_file (incoming, sidecar_name name) (processing, sidecar_name name)
      else pure tt
  attempt_and_route config name 0

-- `load_retry_state(...) or {}`, and its attempts
abbrev attempts_of : Option Content → ℕ
attempts_of (some (retry attempts at)) = attempts
attempts_of _ = 0

abbrev due_at : ℕ → Option Content → Bool
due_at now (some (retry attempts at)) = leb at now
due_at now _ = true

unfoldable pub is_due : String → Box → Bool
is_due name b = due_at b.now (Dict.get (processing, retry_name name) b.files)

unfoldable pub process_due_retry : Config → String → Action Box (Unit {0})
process_due_retry config name = do
  prior ← gets (λ b. attempts_of (Dict.get (processing, retry_name name) b.files))
  attempt_and_route config name prior

-- The loops of `poll_once` over the names that were listed; an exception is printed and passed over.
abbrev passed : Action Box (Unit {0}) → Action Box (Unit {0})
passed m = catch m (λ exception. pure tt)

unfoldable pub poll_new : Config → List String → Action Box (Unit {0})
poll_new config [] = pure tt
poll_new config (name ∷ names) = do passed (process_new_document config name); poll_new config names

unfoldable pub poll_due : Config → List String → Action Box (Unit {0})
poll_due config [] = pure tt
poll_due config (name ∷ names) = do
  passed (do due ← gets (is_due name); if due then process_due_retry config name else pure tt)
  poll_due config names
