-- ===== src/Server/Refused.antt =====
-- Requests to the routes of the group /web that name no user.
use identity_mservice.Base.{codes, true, none, Bytes, [], ◌∷◌, ◌≡◌, ◌⊎◌, List}
use identity_mservice.Base.Text.{has_prefix}
use identity_mservice.Backend.{Backend}
use identity_mservice.Access.Http.{Request, Response, abort, respond, empty}
use identity_mservice.Access.Roles.{unauthorized, forbidden}
use identity_mservice.Router.{Route, web, routes, matches, find_route}
use identity_mservice.Server.{Process, Arrival}

-- The paths of the group /web.
abbrev pub web_path : Bytes
web_path = codes "/identity-ms/v1/web/"

-- A route that matches a path of the group is registered in the group.
Grouped : Route → Type 0
Grouped r =
    (path : Bytes) → has_prefix web_path path ≡ true → matches r.pattern path ≡ true → r.chain ≡ web

AllGrouped : List Route → Type 0
unfolding Grouped
AllGrouped [] = Unit
AllGrouped (r ∷ rs) = Grouped r × AllGrouped rs

module _ {b : Backend} (p : Process b) (a : Arrival) where
  -- Who answers a request that does not get through.
  abbrev pub Refusal : Request → Response → Type 0
  Refusal seen resp =
      (p.cross_origin a.verb seen ≡ abort resp)
      ⊎ ((find_route routes a.verb a.path ≡ none) × (resp ≡ respond 404 empty))
      ⊎ (resp ≡ unauthorized)
      ⊎ (resp ≡ forbidden)
