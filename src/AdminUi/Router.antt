-- ===== src/AdminUi/Router.antt =====
-- admin-ui/app/web/skeleton/router.py: which handler a request gets, and which requests need no ingress.
-- Handlers are values of a type `H`.
pub mod Matches
pub mod Public
pub mod Literal
pub mod Served
use Prim.Native.Char.{Char}
use homeassistant_addons.Common.{
  ℕ, ◌≡◌, Bool, true, false, not, ◌&&◌, ◌||◌, String, List, [], ◌∷◌, ◌++◌, Option, none, some,
  Result, ok, err, contains, length, eqb, ◌==◌, string_eq, pair_eq, if◌then◌else◌,
}
use homeassistant_addons.Common.Text.{starts, upper, drop, split_on, strip, without_last, ends_in}
use homeassistant_addons.Common.Pattern.{at_end, is_alnum, is_char}
use homeassistant_addons.Common.Dict
use homeassistant_addons.Common.Dict.{Dict}
use homeassistant_addons.Common.Action.{Action, pure, raise, modify, ◌>>=◌, ◌>>◌}

pub record Route (H : Type 0) : Type 0 where
  pub method : String
  pub pattern : String
  pub parts : List String
  pub handler : H

pub record Router (H : Type 0) : Type 0 where
  pub routes : List (Route H)
  pub public_routes : List (String × String)

abbrev pub new_router : (H : Type 0) → Router H
new_router H = record { routes = []; public_routes = [] }

-- `PUBLIC_PATH_RE`: behind `/`, and in a segment
abbrev pub segment_start : Char → Bool
segment_start c = is_alnum c || (is_char b'_' c || is_char b'-' c)

abbrev pub segment_char : Char → Bool
segment_char c = segment_start c || is_char b'.' c

unfoldable pub segments_end : Bool → String → Bool
unfolding is_alnum at_end
segments_end inside String.[] = inside
segments_end false (String.◌∷◌ c s) = segment_start c && segments_end true s
segments_end true (String.◌∷◌ c s) =
    let next = segments_end false s in
    let more = segments_end true s in
    at_end (String.◌∷◌ c s) || (if is_char b'/' c then next else segment_char c && more)

unfoldable pub public_path : String → Bool
unfolding segments_end
public_path String.[] = false
public_path (String.◌∷◌ c s) = is_char b'/' c && segments_end false s

-- The patterns that `add` takes for public routes.
unfoldable pub may_be_public : String → Bool
unfolding public_path starts split_on
may_be_public pattern = not (
    not (public_path pattern)
    || (contains (split_on b'/' pattern) ".."
        || (contains (split_on b'/' pattern) "."
            || (pattern == "/icon" || (pattern == "/static" || starts "/static/" pattern)))))

-- `pattern.strip("/").split("/")`
unfoldable pub segments_of : String → List String
unfolding strip split_on
segments_of pattern = split_on b'/' (strip b'/' pattern)

-- `self._public.add(...)`, to a set
abbrev pub opened : String × String → List (String × String) → List (String × String)
opened pair pairs = if contains pairs pair then pairs else pairs ++ pair ∷ []

module _ {H : Type 0} where
  abbrev pub open_path : String → String → Router H → Router H
  open_path method pattern r = record r { public_routes = opened (method, pattern) r.public_routes }

  abbrev pub append_route : String → String → H → Router H → Router H
  append_route method pattern handler r = record r {
    routes =
        r.routes
        ++ record {
          method = method;
          pattern = pattern;
          parts = segments_of pattern;
          handler = handler;
        }
          ∷ [];
  }

  unfoldable pub add : String → String → H → Bool → Action (Router H) (Unit {0})
  add method pattern handler public = do
    if public
        then (if may_be_public pattern
            then modify (open_path (upper method) pattern)
            else raise "ValueError")
        else pure tt
    modify (append_route (upper method) pattern handler)

  unfoldable pub is_public : String → String → Router H → Bool
  is_public method path r = contains r.public_routes (method, path)

-- `part.startswith("{") and part.endswith("}")`
unfoldable pub is_param : String → Bool
unfolding starts ends_in
is_param part = starts "{" part && ends_in b'}' part

-- `part[1:-1]`
abbrev pub param_name : String → String
param_name part = without_last (drop 1 part)

pub data MatchError : Type 0 where
  not_found method_not_allowed : MatchError

-- `unquote` is `urllib.parse.unquote`.
module _ (unquote : String → String) where
  -- The loop over `zip(parts, segments)`, with nothing where it breaks
  unfoldable pub bind_params :
      List String → List String → Dict String String → Option (Dict String String)
  unfolding is_param
  bind_params (part ∷ parts) (segment ∷ segments) params =
      let bound =
        bind_params parts segments (Dict.set (param_name part) (unquote segment) params) in
      let same = bind_params parts segments params in
      if is_param part
      then if segment == "" then none else bound
      else if part == segment
      then same
      else none
  bind_params _ _ params = some params

module _ {H : Type 0} (unquote : String → String) where
  unfoldable pub params_of : List String → Route H → Option (Dict String String)
  unfolding bind_params
  params_of segments route =
      if eqb (length route.parts) (length segments)
      then bind_params unquote route.parts segments []
      else none

  -- One turn of the loop over the routes, for the results of its rest: when this route does not fit, and
  -- when its path does but not its method
  abbrev pub match_route :
      Route H
      → String
      → Option (Dict String String)
      → (skipped other_method : Result MatchError (H × Dict String String))
      → Result MatchError (H × Dict String String)
  match_route route method none skipped other_method = skipped
  match_route route method (some params) skipped other_method =
      if route.method == method then ok (route.handler, params) else other_method

  unfoldable pub match_routes :
      List (Route H) → String → List String → Bool → Result MatchError (H × Dict String String)
  unfolding params_of
  match_routes [] method segments path_matched =
      if path_matched then err method_not_allowed else err not_found
  match_routes (route ∷ routes) method segments path_matched =
      let skipped = match_routes routes method segments path_matched in
      let other_method = match_routes routes method segments true in
      match_route route method (params_of segments route) skipped other_method

  unfoldable pub match : String → String → Router H → Result MatchError (H × Dict String String)
  unfolding match_routes segments_of
  match method path r = match_routes r.routes method (segments_of path) false
