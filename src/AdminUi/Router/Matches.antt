-- ===== src/AdminUi/Router/Matches.antt =====
-- Which route a request gets.
use homeassistant_addons.Common.{
  ◌≡◌, refl, sym, ap, ◌∙◌, any, Bool, true, false, ◌||◌, ◌&&◌, eqb, is_some, length, String, List,
  [], ◌∷◌, Option, none, some, Result, ok, err, Option-cases, Bool-cases, inl, inr, is_empty, not,
  ◌==◌, string_eq, arith, if◌then◌else◌,
}
use homeassistant_addons.Common.Dict
use homeassistant_addons.Common.Dict.{Dict}
use homeassistant_addons.AdminUi.Router.{
  Route, Router, is_param, param_name, bind_params, MatchError, not_found, method_not_allowed,
  segments_of, params_of, match_routes, match,
}

-- The routes whose parts fit, with their parameters, and the first of them with a method.
abbrev pub Fitting : Type 0 → Type 0
Fitting H = List (Route H × Dict String String)

module _ {H : Type 0} where
  abbrev pub with_params : Route H → Option (Dict String String) → Fitting H → Fitting H
  with_params route none rest = rest
  with_params route (some params) rest = (route, params) ∷ rest

  unfoldable pub fitting : (String → String) → List String → List (Route H) → Fitting H
  fitting unquote segments [] = []
  fitting unquote segments (route ∷ routes) =
      with_params route (params_of unquote segments route) (fitting unquote segments routes)

  abbrev pub first_with : String → Fitting H → Option (H × Dict String String)
  first_with method [] = none
  first_with method ((route, params) ∷ rest) =
      let later = first_with method rest in
      if route.method == method then some (route.handler, params) else later

  -- The answer: that route, or that there is one for another method only, or none at all.
  abbrev pub answer :
      Option (H × Dict String String) → Bool → Result MatchError (H × Dict String String)
  answer (some found) known = ok found
  answer none true = err method_not_allowed
  answer none false = err not_found

  answer_end :
      (known : Bool)
      → (if known then err method_not_allowed else err not_found) ≡ answer none (known || false)
  answer_end true = refl
  answer_end false = refl

  answer_found :
      (here known : Bool) (found : H × Dict String String) (later : Option (H × Dict String String))
      → (if here then ok found else answer later true)
        ≡ answer (if here then some found else later) (known || true)
  answer_found true known found later = refl
  answer_found false true found later = refl
  answer_found false false found later = refl

  match_routes_lem :
      (unquote : String → String) (routes : List (Route H)) (method : String)
      (segments : List String) (known : Bool)
      → match_routes unquote routes method segments known
        ≡ answer
            (first_with method (fitting unquote segments routes))
            (known || not (is_empty (fitting unquote segments routes)))
  unfolding match_routes fitting
  match_routes_lem unquote [] method segments known = answer_end known
  match_routes_lem unquote (route ∷ routes) method segments known =
      elim (Option-cases (params_of unquote segments route)) [
        | inl n ↦ rw (n, match_routes_lem unquote routes method segments known) refl
        | inr (params, e) ↦
            rw (e, match_routes_lem unquote routes method segments true)
              (answer_found (route.method == method) known (route.handler, params)
                (first_with method (fitting unquote segments routes)))
      ]

-- Whether the parts of a route and the segments of a path fit, one by one.
unfoldable pub part_fits : String → String → Bool
unfolding is_param
part_fits part segment = if is_param part then not (segment == "") else part == segment

unfoldable pub fits : List String → List String → Bool
unfolding part_fits
fits [] [] = true
fits [] (segment ∷ segments) = false
fits (part ∷ parts) [] = false
fits (part ∷ parts) (segment ∷ segments) = part_fits part segment && fits parts segments

module _ (unquote : String → String) where
  bind_params_lem :
      (parts segments : List String) (params : Dict String String)
      → length parts ≡ length segments
      → is_some (bind_params unquote parts segments params) ≡ fits parts segments
  unfolding bind_params fits part_fits
  bind_params_lem [] [] params e = refl
  bind_params_lem [] (segment ∷ segments) params e = absurd (omega arith)
  bind_params_lem (part ∷ parts) [] params e = absurd (omega arith)
  bind_params_lem (part ∷ parts) (segment ∷ segments) params e = ground (
    arith,
    bind_params_lem parts segments params,
    bind_params_lem parts segments (Dict.set (param_name part) (unquote segment) params),
  )

  length-fits :
      (parts segments : List String) → fits parts segments ≡ true → length parts ≡ length segments
  unfolding fits
  length-fits [] [] h = refl
  length-fits [] (segment ∷ segments) h = ground arith
  length-fits (part ∷ parts) [] h = ground arith
  length-fits (part ∷ parts) (segment ∷ segments) h = ground (arith, length-fits parts segments)

  fits_differ :
      (parts segments : List String)
      → eqb (length parts) (length segments) ≡ false
      → fits parts segments ≡ false
  fits_differ parts segments h = elim (Bool-cases (fits parts segments)) [
    | inl fit ↦ ground (arith, length-fits parts segments fit)
    | inr no_fit ↦ no_fit
  ]

  pub params_of_lem :
      {H : Type 0} (segments : List String) (route : Route H)
      → is_some (params_of unquote segments route) ≡ fits route.parts segments
  unfolding params_of
  params_of_lem segments route = elim (Bool-cases (eqb (length route.parts) (length segments))) [
    | inl same ↦ rw same (bind_params_lem route.parts segments [] (ground arith))
    | inr differ ↦ rw differ (sym (fits_differ route.parts segments differ))
  ]

  any-fits :
      {H : Type 0} (segments : List String) (routes : List (Route H))
      → not (is_empty (fitting unquote segments routes))
        ≡ any (λ route. fits route.parts segments) routes
  unfolding fitting
  any-fits segments [] = refl
  any-fits segments (route ∷ routes) = elim (Option-cases (params_of unquote segments route)) [
    | inl n ↦ rw (n, sym (params_of_lem segments route)) (rw n (any-fits segments routes))
    | inr (params, e) ↦ rw (e, sym (params_of_lem segments route)) (rw e refl)
  ]

-- A request gets the handler of the first route that has its method and whose parts fit the segments of
-- its path one by one, with that route's parameters; if there is none, the answer is
-- `method_not_allowed` where some route fits the path, and otherwise `not_found`.
pub match_lem :
    {H : Type 0} (unquote : String → String) (method path : String) (r : Router H)
    → match unquote method path r
      ≡ answer
          (first_with method (fitting unquote (segments_of path) r.routes))
          (any (λ route. fits route.parts (segments_of path)) r.routes)
unfolding match
match_lem unquote method path r =
    match_routes_lem unquote r.routes method (segments_of path) false
    ∙ ap (answer (first_with method (fitting unquote (segments_of path) r.routes)))
        (any-fits unquote (segments_of path) r.routes)
