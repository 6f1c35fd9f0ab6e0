-- ===== src/Server.antt =====
-- The routes of server/http/router/router.go with their handlers: one request, from the router to
-- the answer, on the state of the process.
pub mod Quiet
pub mod Writes
pub mod Authorized
pub mod Refused
pub mod Unique
pub mod Rows
pub mod Market
pub mod Status
use identity_mservice.Base.{Bytes, codes, Option}
use identity_mservice.Backend.{Backend}
use identity_mservice.Action.{World}
use identity_mservice.Access.Http.{Request, Response, Verdict, message_body, respond}
use identity_mservice.Access.Internal.{NetParser}
use identity_mservice.Events.Producer.{KafkaProducer}
use identity_mservice.Auth.Jwks.{Keyring}
use identity_mservice.Auth.Token.{Jwt}
use identity_mservice.Auth.Forward as Forward
use identity_mservice.Auth.Forward.{IdentityHeaders}
use identity_mservice.Profile.Update.{UpdateUserProfileRequest}
use identity_mservice.Kyc.Service.{KycService}
use identity_mservice.Registration.Webhook as Webhook
use identity_mservice.Registration.Webhook.{ReadBody, Svix}
use identity_mservice.Api.UserProfile as UserProfile
use identity_mservice.Api.KycLogin as KycLogin
use identity_mservice.Router.{
  Handler, ping, swagger, clerk_callback, singpass_callback, user_get_profile, user_update_profile,
  singpass_login, admin_get_current_user, auth_forward, Outcome, answered, handled, serve,
}

-- What the handlers work with: the services, and the libraries behind them.
pub record Process (b : Backend) : Type 0 where
  pub kyc : KycService b
  pub registered_producer : KafkaProducer
  pub svix : Svix
  pub ring : Keyring b
  pub jwt : Jwt
  -- SystemConfig.PostKYCRedirectURI
  pub post_kyc_redirect_uri : Option Bytes
  pub net_parser : NetParser
  -- the middleware of package cors, at the method of a request
  pub cross_origin : Bytes → Request → Verdict

-- A request as it arrives, with what reading its body gives: for a PUT of a profile the struct that
-- ShouldBindJSON fills, for the webhook the bytes.
pub record Arrival : Type 0 where
  pub verb : Bytes
  pub path : Bytes
  pub request : Request
  pub bound : Option UpdateUserProfileRequest
  pub body : ReadBody

-- A response with a body, the status 200 of AuthForward with its two headers or none, or a page of
-- the Swagger handler.
pub data Answer : Type 0 where
  response : Response → Answer
  identity : Option IdentityHeaders → Answer
  documentation : Answer

abbrev of_response : {b : Backend} → Response × World b → Answer × World b
of_response (r, w) = (response r, w)

abbrev of_identity : {b : Backend} → Option IdentityHeaders × World b → Answer × World b
of_identity (h, w) = (identity h, w)

module _ {b : Backend} (p : Process b) where
  -- The handler that a route names, on the request that its guards passed on.
  unfoldable pub dispatch : Arrival → Handler → Request → World b → Answer × World b
  dispatch a ping req w = (response (respond 200 (message_body (codes "pong"))), w)
  dispatch a swagger req w = (documentation, w)
  dispatch a clerk_callback req w =
      of_response (Webhook.clerk_callback p.registered_producer p.svix req a.body w)
  dispatch a singpass_callback req w =
      of_response (KycLogin.singpass_callback p.kyc p.post_kyc_redirect_uri req w)
  dispatch a user_get_profile req w = of_response (UserProfile.user_get_profile req w)
  dispatch a user_update_profile req w = of_response (UserProfile.user_update_profile a.bound req w)
  dispatch a singpass_login req w = of_response (KycLogin.singpass_login p.kyc req w)
  dispatch a admin_get_current_user req w = of_response (UserProfile.admin_get_current_user req w)
  dispatch a auth_forward req w = of_identity (Forward.auth_forward p.ring p.jwt req w)

  abbrev pub answer_of : Arrival → Outcome → World b → Answer × World b
  answer_of a (answered r) w = (response r, w)
  answer_of a (handled h req) w = dispatch a h req w

  unfoldable pub handle : Arrival → World b → Answer × World b
  unfolding dispatch
  handle a w =
      let (o, os) = serve p.net_parser b p.cross_origin a.verb a.path a.request w.os in
      answer_of a o (record w { os = os })
