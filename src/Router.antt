-- ===== src/Router.antt =====
-- server/http/router/router.go: the routes, and what stands in front of their handlers.
pub mod Guarded
pub mod Observed
use identity_mservice.Base.{
  Bytes, codes, ◌==◌, ◌&&◌, if◌then◌else◌, Bool, Option, none, some, List, [], ◌∷◌, ◌++◌, length,
}
use identity_mservice.Base.Text.{has_prefix}
use identity_mservice.Base.Members.{member}
use identity_mservice.Backend.{Backend}
use identity_mservice.Access.Http.{Request, Response, Verdict, abort, next, respond, empty}
use identity_mservice.Access.Roles.{require_user, require_role}
use identity_mservice.Access.Internal.{NetParser, require_internal_network}
use identity_mservice.Setup.Log.{request_id_header, request_id_from_header}

pub data Handler : Type 0 where
  ping swagger clerk_callback singpass_callback : Handler
  user_get_profile user_update_profile singpass_login : Handler
  admin_get_current_user auth_forward : Handler

-- The middlewares in front of the handlers; the audit and the access log stop no request.
pub data Middleware : Type 0 where
  recovery otel response_id cors : Middleware
  access_log audit guard_user guard_any_role guard_internal : Middleware

-- A path, or the paths under it.
pub data Pattern : Type 0 where
  exact : Bytes → Pattern
  under : Bytes → Pattern

pub record Route : Type 0 where
  pub verbs : List Bytes
  pub pattern : Pattern
  pub chain : List Middleware
  pub handler : Handler

abbrev service_uri : Bytes → Bytes
service_uri path = codes "/identity-ms/v1" ++ path

abbrev pub global_chain : List Middleware
global_chain = recovery ∷ otel ∷ response_id ∷ cors ∷ []

abbrev pub api_group : List Middleware
api_group = access_log ∷ []

abbrev pub web : List Middleware
web = access_log ∷ guard_user ∷ []

abbrev pub admin : List Middleware
admin = access_log ∷ audit ∷ guard_any_role ∷ []

abbrev route : Bytes → Pattern → List Middleware → Handler → Route
route verb pattern chain handler = record {
  verbs = verb ∷ [];
  pattern = pattern;
  chain = chain;
  handler = handler;
}

-- gin's Any
abbrev any_verb : List Bytes
any_verb =
    codes "GET"
    ∷ codes "POST"
    ∷ codes "PUT"
    ∷ codes "PATCH"
    ∷ codes "HEAD"
    ∷ codes "OPTIONS"
    ∷ codes "DELETE"
    ∷ codes "CONNECT"
    ∷ codes "TRACE"
    ∷ []

unfoldable pub routes : List Route
routes =
    route (codes "GET") (exact (service_uri (codes "/ping"))) [] ping
    ∷ route (codes "GET") (under (service_uri (codes "/swagger/"))) [] swagger
    ∷ route (codes "POST") (exact (service_uri (codes "/clerk/callback"))) api_group clerk_callback
    ∷ route (codes "GET") (exact (service_uri (codes "/kyc/singpass/callback"))) api_group
        singpass_callback
    ∷ route (codes "GET") (exact (service_uri (codes "/web/user-profile"))) web user_get_profile
    ∷ route (codes "PUT") (exact (service_uri (codes "/web/user-profile"))) web user_update_profile
    ∷ route (codes "GET") (exact (service_uri (codes "/web/kyc/singpass/login"))) web singpass_login
    ∷ route (codes "GET") (exact (service_uri (codes "/admin/current-user"))) admin
        admin_get_current_user
    ∷ record {
      verbs = any_verb;
      pattern = exact (codes "/auth/forward");
      chain = access_log ∷ guard_internal ∷ [];
      handler = auth_forward;
    }
    ∷ []

-- What gin's tree of routes finds for a method and a path.
abbrev pub matches : Pattern → Bytes → Bool
matches (exact p) path = p == path
matches (under p) path = has_prefix p path

unfoldable pub find_route : List Route → Bytes → Bytes → Option Route
find_route [] verb path = none
find_route (r ∷ rs) verb path =
    let rest = find_route rs verb path in
    if member verb r.verbs && matches r.pattern path then some r else rest

-- c.Request.Header.Set(RequestIDHeader, id)
unfoldable pub with_request_id : Bytes → Request → Request
with_request_id id req = record req {
  header = λ name. if name == request_id_header then id else req.header name;
}

-- A request is answered in front of its handler, or it reaches the handler.
pub data Outcome : Type 0 where
  answered : Response → Outcome
  handled : Handler → Request → Outcome

-- `cross_origin` is the middleware of package cors with the configuration of corsMiddleware, at the
-- method of the request.
module _ (net : NetParser) (b : Backend) (cross_origin : Request → Verdict) where
  unfoldable pub step : Bytes → Middleware → Request → Verdict
  step id recovery req = next req
  step id otel req = next req
  step id response_id req = next (with_request_id id req)
  step id cors req = cross_origin req
  step id access_log req = next req
  step id audit req = next req
  step id guard_user req = require_user req
  step id guard_any_role req = require_role [] req
  step id guard_internal req = require_internal_network net b req

  abbrev pub and_then : Verdict → (Request → Outcome) → Outcome
  and_then (abort resp) f = answered resp
  and_then (next req) f = f req

  unfoldable pub run_chain : Bytes → List Middleware → (Request → Outcome) → Request → Outcome
  unfolding step
  run_chain id [] last req = last req
  run_chain id (m ∷ ms) last req = and_then (step id m req) (run_chain id ms last)

  abbrev pub to_route : Bytes → Option Route → Request → Outcome
  to_route id none req = answered (respond 404 empty)
  to_route id (some r) req = run_chain id r.chain (handled r.handler) req

-- Package cors looks at the method of a request, for the preflights.
module _ (net : NetParser) (b : Backend) (cross_origin : Bytes → Request → Verdict) where
  -- NewRouter, at one request.
  unfoldable pub serve : Bytes → Bytes → Request → b.Os → Outcome × b.Os
  unfolding run_chain find_route routes with_request_id
  serve verb path req os =
      let (id, os') = request_id_from_header b (req.header request_id_header) os in
      (
        run_chain net b (cross_origin verb) id global_chain
            (to_route net b (cross_origin verb) id (find_route routes verb path)) req,
        os',
      )
