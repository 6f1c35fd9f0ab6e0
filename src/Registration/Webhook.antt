-- ===== src/Registration/Webhook.antt =====
-- server/http/api/clerk_callback.go
pub mod Authentic
use identity_mservice.Base.{
  Bytes, String, ℕ, ◌^◌, codes, ◌==◌, ◌||◌, not, if◌then◌else◌, [], Bool, Option, none, some, ltb,
  length,
}
use identity_mservice.Backend.{Backend, Result, ok, err}
use identity_mservice.Access.Http.{Request, Response, Body, empty, error_body, respond}
use identity_mservice.Events.Producer.{KafkaProducer}
use identity_mservice.Registration.ClerkData.{
  ClerkCallbackData, ClerkCallbackRequest, clerk_user_id, email_address,
}
use identity_mservice.Registration.Service.{create_user}
use identity_mservice.Api.Common.{Handler, answer, reject}

-- 1 << 20
abbrev pub max_clerk_webhook_body : ℕ
max_clerk_webhook_body = 2 ^ 20

-- What reading the body of a request gives, and what the Svix library and encoding/json say of it.
pub data ReadBody : Type 0 where
  complete : Bytes → ReadBody
  broken : ReadBody

pub record Svix : Type 0 where
  -- NewWebhook accepts the secret of CLERK_WEBHOOK_SECRET
  pub accepts_secret : Bytes → Bool
  -- Verify accepts the payload with the headers, under the secret
  pub verify : Bytes → Bytes → (Bytes → Bytes) → Bool
  pub unmarshal : Bytes → Option ClerkCallbackRequest

abbrev bad_request : String → Response
bad_request text = respond 400 (error_body (codes text))

unfoldable pub created : Result (Unit {0}) → Response
created (ok done) = respond 200 empty
created (err e) = respond 500 (error_body (codes "Failed to create user mapping"))

module _ {b : Backend} (producer : KafkaProducer) (svix : Svix) where
  accept_user : Option ClerkCallbackData → Handler b
  unfolding created
  accept_user none = reject (bad_request "Data is required")
  accept_user (some d) =
      if clerk_user_id (some d) == [] || email_address (some d) == []
      then reject (bad_request "Invalid user data")
      else answer (create_user producer d) created

  accept_event : Option ClerkCallbackRequest → Handler b
  unfolding accept_user
  accept_event none = reject (bad_request "Invalid request body")
  accept_event (some request) =
      if not (request.event_type == codes "user.created")
      then reject (respond 200 empty)
      else accept_user request.payload

  accept_body : Request → ReadBody → Handler b
  unfolding accept_event
  accept_body req broken = reject (bad_request "Read body failed")
  accept_body req (complete payload) =
      let secret = b.getenv (codes "CLERK_WEBHOOK_SECRET") in
      if ltb max_clerk_webhook_body (length payload)
      then reject (respond 413 (error_body (codes "Request body too large")))
      else if not (svix.accepts_secret secret)
      then reject (respond 500 (error_body (codes "Webhook init failed")))
      else if not (svix.verify secret payload req.header)
      then reject (bad_request "Invalid signature")
      else accept_event (svix.unmarshal payload)

  unfoldable pub clerk_callback : Request → ReadBody → Handler b
  unfolding accept_body
  clerk_callback req body =
      if req.header (codes "svix-id") == []
        || req.header (codes "svix-signature") == []
        || req.header (codes "svix-timestamp") == []
      then reject (bad_request "Missing svix headers")
      else accept_body req body
