-- ===== src/AdminUi/Router/Served.antt =====
-- What a request that needs no ingress is answered.
use homeassistant_addons.Common.{
  ◌≡◌, refl, sym, ap, ◌∙◌, any, Bool, true, false, ◌&&◌, ◌||◌, String, List, [], ◌∷◌, ◌++◌, Option,
  none, some, is_some, Result, ok, err, Option-cases, Bool-cases, inl, inr, ◌==◌, ==_iff, ==_refl,
  string_eq, pair_eq, arith,
}
use homeassistant_addons.Common.Dict.{Dict}
use homeassistant_addons.Common.Text.{upper}
use homeassistant_addons.Common.Action.{◌>>=◌}
use homeassistant_addons.AdminUi.Router.{
  Route, Router, new_router, may_be_public, segments_of, add, is_public, params_of, match,
}
use homeassistant_addons.AdminUi.Router.Matches.{
  fits, fitting, first_with, answer, params_of_lem, match_lem,
}
use homeassistant_addons.AdminUi.Router.Public.{Call, registered, opens, is_public_lem}
use homeassistant_addons.AdminUi.Router.Literal.{public-fits}

abbrev pub is_ok : {E A : Type 0} → Result E A → Bool
is_ok (ok a) = true
is_ok (err e) = false

module _ {H : Type 0} (method path : String) where
  -- A route with that method that fits that path.
  abbrev serves : Route H → Bool
  serves route = route.method == method && fits route.parts (segments_of path)

  any-append :
      (p : Route H → Bool) (xs ys : List (Route H)) → any p (xs ++ ys) ≡ (any p xs || any p ys)
  any-append p [] ys = refl
  any-append p (x ∷ xs) ys = ground (arith, any-append p xs ys)

  abbrev route_of : Call H → Route H
  route_of call = record {
    method = upper call.method;
    pattern = call.pattern;
    parts = segments_of call.pattern;
    handler = call.handler;
  }

  add-keeps :
      (call : Call H) (r : Router H)
      → any serves r.routes ≡ true
      → any serves (add call.method call.pattern call.handler call.public r).1.routes ≡ true
  unfolding add ◌>>=◌
  add-keeps call r h = elim (Bool-cases call.public) [
    | inr ingress ↦ rw ingress kept
    | inl public ↦ elim (Bool-cases (may_be_public call.pattern)) [
      | inr refused ↦ rw (public, refused) h
      | inl accepted ↦ rw (public, accepted) kept
    ]
  ]
    where
      kept : any serves (r.routes ++ route_of call ∷ []) ≡ true
      kept = rw (any-append serves r.routes (route_of call ∷ []), h) refl

  -- What a call has that opens the path.
  opened_by :
      (call : Call H)
      → opens method path call ≡ true
      → (call.public ≡ true)
        × (may_be_public call.pattern ≡ true)
        × (◌≡◌ {A = String × String} (method, path) (upper call.method, call.pattern))
  opened_by call h = elim (Bool-cases call.public) [
    | inr n ↦ absurd (ground (arith, n))
    | inl public ↦ elim (Bool-cases (may_be_public call.pattern)) [
      | inr n ↦ absurd (ground (arith, n))
      | inl accepted ↦ (
        public,
        accepted,
        (==_iff {A = String × String} (method, path) (upper call.method, call.pattern)).0
            (ground (arith, public, accepted)),
      )
    ]
  ]

  serves-route_of : (call : Call H) → opens method path call ≡ true → serves (route_of call) ≡ true
  serves-route_of call h =
      let (public, accepted, same) = opened_by call h in
      rw
        (
          ap (λ (q : String × String). q.0) same,
          ap (λ (q : String × String). q.1) same,
          ==_refl (upper call.method),
        )
        (public-fits call.pattern accepted)

  add-serves :
      (call : Call H) (r : Router H)
      → opens method path call ≡ true
      → any serves (add call.method call.pattern call.handler call.public r).1.routes ≡ true
  unfolding add ◌>>=◌
  add-serves call r h =
      let (public, accepted, same) = opened_by call h in
      rw (public, accepted, any-append serves r.routes (route_of call ∷ []), serves-route_of call h)
        (ground arith)

  registered-keeps :
      (calls : List (Call H)) (r : Router H)
      → any serves r.routes ≡ true
      → any serves (registered calls r).routes ≡ true
  unfolding registered
  registered-keeps [] r h = h
  registered-keeps (call ∷ calls) r h =
      registered-keeps calls (add call.method call.pattern call.handler call.public r).1
        (add-keeps call r h)

  registered-serves :
      (calls : List (Call H)) (r : Router H)
      → any (opens method path) calls ≡ true
      → any serves (registered calls r).routes ≡ true
  unfolding registered
  registered-serves [] r h = absurd (ground arith)
  registered-serves (call ∷ calls) r h = elim (Bool-cases (opens method path call)) [
    | inl here ↦
        registered-keeps calls (add call.method call.pattern call.handler call.public r).1
          (add-serves call r here)
    | inr later ↦
        registered-serves calls (add call.method call.pattern call.handler call.public r).1
          (sym (rw later refl) ∙ h)
  ]

  first_with-serves :
      (unquote : String → String) (routes : List (Route H))
      → any serves routes ≡ true
      → is_some (first_with method (fitting unquote (segments_of path) routes)) ≡ true
  unfolding fitting
  first_with-serves unquote [] h = absurd (ground arith)
  first_with-serves unquote (route ∷ routes) h =
      elim (Option-cases (params_of unquote (segments_of path) route)) [
        | inl n ↦ rw n (
            ground (
              arith,
              sym (params_of_lem unquote (segments_of path) route) ∙ ap is_some n,
              first_with-serves unquote routes,
            ))
        | inr (params, e) ↦ rw e (ground (arith, first_with-serves unquote routes))
      ]

answer-ok :
    {H : Type 0} (found : Option (H × Dict String String)) (known : Bool)
    → is_some found ≡ true
    → is_ok (answer found known) ≡ true
answer-ok none known h = absurd (ground arith)
answer-ok (some found) known h = refl

-- Whatever `add` was called with, a request whose method and path need no ingress finds a handler.
pub public_served :
    {H : Type 0} (unquote : String → String) (calls : List (Call H)) (method path : String)
    → is_public method path (registered calls (new_router H)) ≡ true
    → is_ok (match unquote method path (registered calls (new_router H))) ≡ true
public_served unquote calls method path h =
    let routes = (registered calls (new_router _)).routes in
    rw (match_lem unquote method path (registered calls (new_router _))) (
      answer-ok (first_with method (fitting unquote (segments_of path) routes)) _ (
        first_with-serves method path unquote routes (
          registered-serves method path calls (new_router _)
            (sym (is_public_lem calls method path) ∙ h))))
