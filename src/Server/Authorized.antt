-- ===== src/Server/Authorized.antt =====
-- Who can change the tables and the topics, over all the routes.
use identity_mservice.Base.{
  Bytes, ◌∷◌, [], codes, ◌==◌, not, Bool-cases, Option, none, some, ◌≡◌, ◌⊎◌, inl, inr, refl, ap,
}
use identity_mservice.Model.{role_user}
use identity_mservice.Backend.{Backend}
use identity_mservice.Action.{World}
use identity_mservice.Access.Http.{AuthUser, Request, next}
use identity_mservice.Access.Roles.{with_user}
use identity_mservice.Access.Guards.{IsCaller}
use identity_mservice.Profile.Update.{UpdateUserProfileRequest}
use identity_mservice.Kyc.Service.{singpass_callback as run_callback}
use identity_mservice.Kyc.Service.Outcome.{Entitled, callback_guarded}
use identity_mservice.Registration.Service.{create_user}
use identity_mservice.Registration.Webhook as Webhook
use identity_mservice.Registration.Webhook.Authentic.{Accepted, clerk_callback_guarded}
use identity_mservice.Api.UserProfile as UserProfile
use identity_mservice.Api.KycLogin as KycLogin
use identity_mservice.Setup.Log.{request_id_header, request_id_from_header}
use identity_mservice.Router.{
  Handler, ping, swagger, clerk_callback, singpass_callback, user_get_profile, user_update_profile,
  singpass_login, admin_get_current_user, auth_forward, with_request_id, Outcome, answered, handled,
  serve,
}
use identity_mservice.Router.Guarded.{Permitted, serve-Permitted}
use identity_mservice.Server.{Process, Arrival, dispatch, answer_of, handle}
use identity_mservice.Server.Quiet.{
  Untouched, ReadOnly, Untouched-refl, get_user-Untouched, get_profile-Untouched,
  start_singpass_login-Untouched, auth_forward-Untouched,
}
use identity_mservice.Server.Writes.{Updated, update_profile-Updated}

module _ {b : Backend} (p : Process b) (a : Arrival) where
  -- The three ways to a write, from the request `seen` with its identifier and the world `w` that
  -- the handler finds to the world `w'` that it leaves.
  pub data Cause (seen : Request) (w w' : World b) : Type 0 where
    profile :
        (caller : AuthUser) (body : UpdateUserProfileRequest)
        → IsCaller (role_user ∷ []) a.request caller
        → a.bound ≡ some body
        → Updated caller body w w'
        → Cause seen w w'
    webhook :
        (accepted : Accepted p.registered_producer p.svix seen a.body w)
        → w' ≡ (create_user p.registered_producer accepted.user w).1
        → Cause seen w w'
    callback :
        Entitled p.kyc (seen.query (codes "code")) (seen.query (codes "state")) w
        → w' ≡ (run_callback p.kyc (seen.query (codes "code")) (seen.query (codes "state")) w).1
        → Cause seen w w'

  abbrev Accounted : Request → World b → World b → Type 0
  Accounted seen w w' = Untouched w w' ⊎ Cause seen w w'

  module _ (seen : Request) (w : World b) where
    webhook-Accounted :
        Accounted seen w (Webhook.clerk_callback p.registered_producer p.svix seen a.body w).1
    webhook-Accounted = elim (clerk_callback_guarded p.registered_producer p.svix seen a.body w) [
      | inl same ↦ inl (rw same (Untouched-refl w))
      | inr accepted ↦ inr (webhook accepted (ap (λ (r : _ × World b). r.1) accepted.runs))
    ]

    callback-Accounted :
        Accounted seen w (KycLogin.singpass_callback p.kyc p.post_kyc_redirect_uri seen w).1
    unfolding KycLogin.singpass_callback
    callback-Accounted =
        let code = seen.query (codes "code") in
        let state = seen.query (codes "state") in
        elim (Bool-cases (not (seen.query (codes "error") == []))) [
          | inl refused ↦ inl (rw refused (Untouched-refl w))
          | inr granted ↦ elim (Bool-cases (code == [])) [
            | inl blank ↦ inl (rw (granted, blank) (Untouched-refl w))
            | inr given ↦ elim (Bool-cases (state == [])) [
              | inl blank ↦ inl (rw (granted, given, blank) (Untouched-refl w))
              | inr named ↦ elim (callback_guarded p.kyc code state w) [
                | inl entitled ↦ inr (callback entitled (rw (granted, given, named) refl))
                | inr same ↦
                    inl (rw (granted, given, named) (record { db = same.db; broker = same.broker }))
              ]
            ]
          ]
        ]

    module _ (reads : ReadOnly b) where
      get_profile-Accounted :
          (user : AuthUser)
          → Accounted seen w (UserProfile.user_get_profile (with_user user seen) w).1
      unfolding UserProfile.user_get_profile
      get_profile-Accounted user =
          inl (get_profile-Untouched reads user.internal_user_id user.email w)

      current_user-Accounted :
          (user : AuthUser)
          → Accounted seen w (UserProfile.admin_get_current_user (with_user user seen) w).1
      unfolding UserProfile.admin_get_current_user
      current_user-Accounted user = inl (get_user-Untouched reads user.internal_user_id w)

      login-Accounted :
          (user : AuthUser)
          → Accounted seen w (KycLogin.singpass_login p.kyc (with_user user seen) w).1
      unfolding KycLogin.singpass_login
      login-Accounted user =
          inl (start_singpass_login-Untouched p.kyc user.internal_user_id user.email w)

      update-Accounted :
          (user : AuthUser) (bound : Option UpdateUserProfileRequest)
          → IsCaller (role_user ∷ []) a.request user
          → a.bound ≡ bound
          → Accounted seen w (UserProfile.user_update_profile bound (with_user user seen) w).1
      unfolding UserProfile.user_update_profile
      update-Accounted user none c e = inl (Untouched-refl w)
      update-Accounted user (some body) c e = elim (update_profile-Updated reads user body w) [
        | inl same ↦ inl same
        | inr updated ↦ inr (profile user body c e updated)
      ]

      -- A handler that got a request which its route permits.
      dispatch-Accounted :
          (h : Handler) (req : Request)
          → Permitted p.net_parser b h a.request seen req
          → Accounted seen w (dispatch p a h req w).1
      unfolding dispatch
      dispatch-Accounted ping req e = inl (Untouched-refl w)
      dispatch-Accounted swagger req e = inl (Untouched-refl w)
      dispatch-Accounted clerk_callback req e = rw e webhook-Accounted
      dispatch-Accounted singpass_callback req e = rw e callback-Accounted
      dispatch-Accounted user_get_profile req (user, e, c) = rw e (get_profile-Accounted user)
      dispatch-Accounted user_update_profile req (user, e, c) =
          rw e (update-Accounted user a.bound c refl)
      dispatch-Accounted singpass_login req (user, e, c) = rw e (login-Accounted user)
      dispatch-Accounted admin_get_current_user req (user, e, c) =
          rw e (current_user-Accounted user)
      dispatch-Accounted auth_forward req e = inl (auth_forward-Untouched p.ring p.jwt reads req w)

  -- The request with its identifier, and the world behind the choice of the identifier.
  abbrev pub seen_by : World b → Request
  seen_by w =
      with_request_id (request_id_from_header b (a.request.header request_id_header) w.os).0
        a.request

  abbrev pub identified : World b → World b
  identified w = record w {
    os = (request_id_from_header b (a.request.header request_id_header) w.os).1;
  }

  answer-Accounted :
      ReadOnly b
      → ((verb : Bytes) (r r' : Request) → p.cross_origin verb r ≡ next r' → r' ≡ r)
      → (w : World b) (o : Outcome) (os : b.Os)
      → serve p.net_parser b p.cross_origin a.verb a.path a.request w.os ≡ (o, os)
      → Accounted (seen_by w) (record w { os = os }) (answer_of p a o (record w { os = os })).1
  answer-Accounted reads keeps w (answered r) os e = inl (Untouched-refl (record w { os = os }))
  answer-Accounted reads keeps w (handled h req) os e =
      dispatch-Accounted (seen_by w) (record w { os = os }) reads h req
        (serve-Permitted p.net_parser b p.cross_origin a.verb a.path a.request req w.os os h
          (keeps a.verb) e)

  -- Where reads of the tables change nothing in them, and the middleware for cross-origin requests
  -- passes on only requests as they are: a request to the server, whatever it is, leaves the
  -- tables and the topics as they were, or it is one of three. Either its two identity headers
  -- name a user with the role user, its body binds, and the tables are those that one write made
  -- of them, to the row of this very user, of a struct that its request may make of that row,
  -- while the topics are as before. Or it is a delivery that clerk_callback_guarded describes, and
  -- the world is the one that CreateUser leaves for its user. Or it is a Singpass callback whose
  -- state named a pending session and whose code passed the checks of callback_guarded, and the
  -- world is the one that the callback of the service leaves.
  pub handle-Authorized :
      ReadOnly b
      → ((verb : Bytes) (r r' : Request) → p.cross_origin verb r ≡ next r' → r' ≡ r)
      → (w : World b)
      → Untouched w (handle p a w).1 ⊎ Cause (seen_by w) (identified w) (handle p a w).1
  unfolding handle serve
  handle-Authorized reads keeps w =
      let s = serve p.net_parser b p.cross_origin a.verb a.path a.request w.os in
      elim (answer-Accounted reads keeps w s.0 s.1 refl) [
        | inl same ↦ inl (record { db = same.db; broker = same.broker })
        | inr cause ↦ inr cause
      ]
