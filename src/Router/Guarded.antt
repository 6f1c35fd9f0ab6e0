-- ===== src/Router/Guarded.antt =====
-- Who reaches which handler.
use identity_mservice.Base.{
  Bytes, ◌==◌, ◌&&◌, ◌||◌, Bool-cases, Option-cases, some, List, [], ◌∷◌, ◌≡◌, true, sym, ap, ◌∙◌,
  subst, inl, inr,
}
use identity_mservice.Base.Members.{member}
use identity_mservice.Model.{role_user}
use identity_mservice.Backend.{Backend}
use identity_mservice.Access.Http.{AuthUser, Request, Verdict, next, Verdict-cases}
use identity_mservice.Access.Roles.{with_user, require_user, require_role}
use identity_mservice.Access.Guards.{IsCaller, require_role_sound, require_user_sound}
use identity_mservice.Access.Internal.{
  NetParser, internal_network_open, is_internal_remote_addr, require_internal_network,
}
use identity_mservice.Setup.Log.{request_id_header, request_id_from_header}
use identity_mservice.Router.{
  Handler, ping, swagger, clerk_callback, singpass_callback, user_get_profile, user_update_profile,
  singpass_login, admin_get_current_user, auth_forward, access_log, guard_internal, Route,
  api_group, web, admin, routes, matches, find_route, with_request_id, Outcome, handled, step,
  run_chain, to_route, global_chain, serve,
}

-- The caller of a guarded handler, who is then in the context.
abbrev pub Identified : List Bytes → Request → Request → Request → Type 0
Identified roles sent req req' =
    (user : AuthUser) × (req' ≡ with_user user req) × IsCaller roles sent user

module _ (net : NetParser) (b : Backend) where
  -- What is known where a request reaches a handler.
  abbrev pub Permitted : Handler → Request → Request → Request → Type 0
  Permitted ping sent req req' = req' ≡ req
  Permitted swagger sent req req' = req' ≡ req
  Permitted clerk_callback sent req req' = req' ≡ req
  Permitted singpass_callback sent req req' = req' ≡ req
  Permitted user_get_profile sent req req' = Identified (role_user ∷ []) sent req req'
  Permitted user_update_profile sent req req' = Identified (role_user ∷ []) sent req req'
  Permitted singpass_login sent req req' = Identified (role_user ∷ []) sent req req'
  Permitted admin_get_current_user sent req req' = Identified [] sent req req'
  Permitted auth_forward sent req req' =
      ((internal_network_open b || is_internal_remote_addr net sent.remote_addr) ≡ true)
      × (req' ≡ req)

  module _ (cross_origin : Request → Verdict) (id : Bytes) where
    handled-eq :
        {h h' : Handler} {r r' : Request} → handled h r ≡ handled h' r' → (h ≡ h') × (r' ≡ r)
    handled-eq e = (cc e, cc e)

    open_chain :
        (h0 h : Handler) (req req' : Request)
        → run_chain net b cross_origin id api_group (handled h0) req ≡ handled h req'
        → (h0 ≡ h) × (req' ≡ req)
    unfolding run_chain step
    open_chain h0 h req req' e = handled-eq e

    web_chain :
        (h0 h : Handler) (req req' : Request)
        → run_chain net b cross_origin id web (handled h0) req ≡ handled h req'
        → (h0 ≡ h) × Identified (role_user ∷ []) req req req'
    unfolding run_chain step
    web_chain h0 h req req' e = elim (Verdict-cases (require_user req)) [
      | inl (resp, stopped) ↦ cc (rw stopped at e)
      | inr (req1, passed) ↦
          let (same, last) = handled-eq (rw passed at e) in
          (same, require_user_sound req req' (passed ∙ ap next (sym last)))
    ]

    admin_chain :
        (h0 h : Handler) (req req' : Request)
        → run_chain net b cross_origin id admin (handled h0) req ≡ handled h req'
        → (h0 ≡ h) × Identified [] req req req'
    unfolding run_chain step
    admin_chain h0 h req req' e = elim (Verdict-cases (require_role [] req)) [
      | inl (resp, stopped) ↦ cc (rw stopped at e)
      | inr (req1, passed) ↦
          let (same, last) = handled-eq (rw passed at e) in
          (same, require_role_sound [] req req' (passed ∙ ap next (sym last)))
    ]

    internal_chain :
        (h0 h : Handler) (req req' : Request)
        → run_chain net b cross_origin id (access_log ∷ guard_internal ∷ []) (handled h0) req
          ≡ handled h req'
        → (h0 ≡ h) × Permitted auth_forward req req req'
    unfolding run_chain step require_internal_network
    internal_chain h0 h req req' e =
        elim (Bool-cases (internal_network_open b || is_internal_remote_addr net req.remote_addr)) [
          | inr closed ↦ cc (rw closed at e)
          | inl lets ↦ let (same, last) = handled-eq (rw lets at e) in (same, (lets, last))
        ]

    -- What a route owes.
    Sound : Route → Type 0
    Sound r =
        (h : Handler) (req req' : Request)
        → run_chain net b cross_origin id r.chain (handled r.handler) req ≡ handled h req'
        → Permitted h req req req'

    AllSound : List Route → Type 0
    AllSound [] = Unit
    AllSound (r ∷ rs) = Sound r × AllSound rs

    transport :
        {h0 h : Handler} (req req' : Request)
        → (h0 ≡ h) × Permitted h0 req req req'
        → Permitted h req req req'
    transport req req' (same, p) = subst (λ h. Permitted h req req req') same p

    all_routes : AllSound routes
    unfolding AllSound Sound routes run_chain
    all_routes = (
      λ h req req' e. transport req req' (handled-eq e),
      (
        λ h req req' e. transport req req' (handled-eq e),
        (
          λ h req req' e. transport req req' (open_chain clerk_callback h req req' e),
          (
            λ h req req' e. transport req req' (open_chain singpass_callback h req req' e),
            (
              λ h req req' e. transport req req' (web_chain user_get_profile h req req' e),
              (
                λ h req req' e. transport req req' (web_chain user_update_profile h req req' e),
                (
                  λ h req req' e. transport req req' (web_chain singpass_login h req req' e),
                  (
                    λ h req req' e.
                        transport req req' (admin_chain admin_get_current_user h req req' e),
                    (
                      λ h req req' e. transport req req' (internal_chain auth_forward h req req' e),
                      tt,
                    ),
                  ),
                ),
              ),
            ),
          ),
        ),
      ),
    )

    find_route-Sound :
        (rs : List Route) (verb path : Bytes) (r : Route)
        → AllSound rs
        → find_route rs verb path ≡ some r
        → Sound r
    unfolding AllSound find_route
    find_route-Sound [] verb path r s e = cc e
    find_route-Sound (q ∷ rs) verb path r (s, t) e =
        elim (Bool-cases (member verb q.verbs && matches q.pattern path)) [
          | inl found ↦
              let same : some q ≡ some r = rw found at e in
              let same' : q ≡ r = cc same in subst Sound same' s
          | inr other ↦ find_route-Sound rs verb path r t (rw other at e)
        ]

    to_route-Permitted :
        (verb path : Bytes) (h : Handler) (req req' : Request)
        → to_route net b cross_origin id (find_route routes verb path) req ≡ handled h req'
        → Permitted h req req req'
    unfolding Sound
    to_route-Permitted verb path h req req' e = elim (Option-cases (find_route routes verb path)) [
      | inl missing ↦ cc (rw missing at e)
      | inr (r, found) ↦
          find_route-Sound routes verb path r all_routes found h req req' (rw found at e)
    ]

    -- The identifier of the request leaves the headers that the guards read.
    pub IsCaller-as_sent :
        (roles : List Bytes) (req : Request) (user : AuthUser)
        → IsCaller roles (with_request_id id req) user
        → IsCaller roles req user
    unfolding with_request_id ◌==◌
    IsCaller-as_sent roles req user c = record {
      id = c.id;
      id_positive = c.id_positive;
      role = c.role;
      role_given = c.role_given;
      allowed = c.allowed;
      email = c.email;
      clerk_user_id = c.clerk_user_id;
    }

    Identified-as_sent :
        (roles : List Bytes) (req req' : Request)
        → Identified roles (with_request_id id req) (with_request_id id req) req'
        → Identified roles req (with_request_id id req) req'
    Identified-as_sent roles req req' (user, same, c) =
        (user, same, IsCaller-as_sent roles req user c)

    Permitted-as_sent :
        (h : Handler) (req req' : Request)
        → Permitted h (with_request_id id req) (with_request_id id req) req'
        → Permitted h req (with_request_id id req) req'
    unfolding with_request_id
    Permitted-as_sent ping req req' p = p
    Permitted-as_sent swagger req req' p = p
    Permitted-as_sent clerk_callback req req' p = p
    Permitted-as_sent singpass_callback req req' p = p
    Permitted-as_sent user_get_profile req req' p = Identified-as_sent (role_user ∷ []) req req' p
    Permitted-as_sent user_update_profile req req' p =
        Identified-as_sent (role_user ∷ []) req req' p
    Permitted-as_sent singpass_login req req' p = Identified-as_sent (role_user ∷ []) req req' p
    Permitted-as_sent admin_get_current_user req req' p = Identified-as_sent [] req req' p
    Permitted-as_sent auth_forward req req' p = p

    chain-Permitted :
        (verb path : Bytes) (h : Handler) (req req' : Request)
        → ((r r' : Request) → cross_origin r ≡ next r' → r' ≡ r)
        → run_chain net b cross_origin id global_chain
            (to_route net b cross_origin id (find_route routes verb path))
            req
          ≡ handled h req'
        → Permitted h req (with_request_id id req) req'
    unfolding run_chain step
    chain-Permitted verb path h req req' keeps e =
        let req0 = with_request_id id req in
        elim (Verdict-cases (cross_origin req0)) [
          | inl (resp, stopped) ↦ cc (rw stopped at e)
          | inr (req1, passed) ↦ Permitted-as_sent h req req' (
              subst (λ r. Permitted h r r req') (keeps req0 req1 passed)
                (to_route-Permitted verb path h req1 req' (rw passed at e)))
        ]

  -- Where the middleware for cross-origin requests passes on only requests as they are: if the
  -- router hands a request to a handler, then a handler of the group /web gets it with a user in
  -- the context whom the two identity headers of the request as sent name, with the role user; the
  -- handler of the current user gets it with such a user of any role; the forward handler gets it
  -- only from an internal address or where APP_ENV is local; and the other handlers get it as it
  -- is but for its identifier.
  pub serve-Permitted :
      (cross_origin : Bytes → Request → Verdict) (verb path : Bytes) (req req' : Request)
      (os os' : b.Os) (h : Handler)
      → ((r r' : Request) → cross_origin verb r ≡ next r' → r' ≡ r)
      → serve net b cross_origin verb path req os ≡ (handled h req', os')
      → Permitted h req
          (with_request_id (request_id_from_header b (req.header request_id_header) os).0 req)
          req'
  unfolding serve
  serve-Permitted cross_origin verb path req req' os os' h keeps e =
      chain-Permitted (cross_origin verb)
        (request_id_from_header b (req.header request_id_header) os).0 verb path h req req' keeps
        (ap (λ (q : Outcome × b.Os). q.0) e)
