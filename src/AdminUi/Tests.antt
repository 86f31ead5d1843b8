-- ===== src/AdminUi/Tests.antt =====
-- The theorems at a router with a public health check.
use homeassistant_addons.Common.{◌≡◌, Bool, true, false, String, [], ◌∷◌, any}
use homeassistant_addons.AdminUi.Router.{Router, new_router, segments_of, match, is_public}
use homeassistant_addons.AdminUi.Router.Matches.{fits, fitting, first_with, answer, match_lem}
use homeassistant_addons.Common.{refl, ◌∙◌, string_eq, pair_eq}
use homeassistant_addons.Common.Text.{upper, starts, split_on}
use homeassistant_addons.Common.Pattern.{is_alnum, at_end}
use homeassistant_addons.AdminUi.Router.{may_be_public, public_path, segments_end}
use homeassistant_addons.AdminUi.Router.Served.{is_ok, public_served}
use homeassistant_addons.AdminUi.Router.Public.{Call, registered, opens, is_public_lem}

abbrev health : Call Bool
health = record { method = "get"; pattern = "/api/health"; handler = true; public = true }

abbrev job : Call Bool
job = record { method = "GET"; pattern = "/api/jobs/{id}"; handler = false; public = false }

abbrev small : Router Bool
small = registered (health ∷ job ∷ []) (new_router Bool)

abbrev same : String → String
same s = s

match_lem_example :
    match same "GET" "/api/jobs/7" small
    ≡ answer
        (first_with "GET" (fitting same (segments_of "/api/jobs/7") small.routes))
        (any (λ route. fits route.parts (segments_of "/api/jobs/7")) small.routes)
match_lem_example = match_lem same "GET" "/api/jobs/7" small

is_public_lem_example :
    is_public "GET" "/api/health" (registered (health ∷ job ∷ []) (new_router Bool))
    ≡ any (opens "GET" "/api/health") (health ∷ job ∷ [])
is_public_lem_example = is_public_lem (health ∷ job ∷ []) "GET" "/api/health"

health-opens : any (opens "GET" "/api/health") (health ∷ job ∷ []) ≡ true
unfolding upper may_be_public public_path segments_end is_alnum at_end starts split_on string_eq
    pair_eq
health-opens = refl

health_public :
    is_public "GET" "/api/health" (registered (health ∷ job ∷ []) (new_router Bool)) ≡ true
health_public = is_public_lem (health ∷ job ∷ []) "GET" "/api/health" ∙ health-opens

public_served_example :
    is_ok (match same "GET" "/api/health" (registered (health ∷ job ∷ []) (new_router Bool))) ≡ true
public_served_example = public_served same (health ∷ job ∷ []) "GET" "/api/health" health_public
