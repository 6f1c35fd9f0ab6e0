-- ===== src/Registration/Webhook/Authentic.antt =====
-- Which deliveries of the webhook reach the registration.
use identity_mservice.Base.{
  Bytes, ◌≤◌, codes, ◌==◌, eq_iff, [], ◌≡◌, ◌≢◌, ◌⊎◌, inl, inr, refl, arith, true, Option-cases,
  some, length, ltb, Bool-cases, ◌||◌, not,
}
use identity_mservice.Backend.{Backend}
use identity_mservice.Action.{World}
use identity_mservice.Access.Http.{Request}
use identity_mservice.Events.Producer.{KafkaProducer}
use identity_mservice.Registration.ClerkData.{
  ClerkCallbackData, ClerkCallbackRequest, clerk_user_id, email_address,
}
use identity_mservice.Registration.Service.{create_user}
use identity_mservice.Api.Common.{answer}
use identity_mservice.Registration.Webhook.{
  ReadBody, complete, broken, Svix, max_clerk_webhook_body, created, accept_user, accept_event,
  accept_body, clerk_callback,
}

module _ (svix : Svix) (req : Request) where
  -- A signed event of the right type with a Clerk id and a usable email.
  pub record Authentic (secret payload : Bytes) (d : ClerkCallbackData) : Type 0 where
    pub request : ClerkCallbackRequest
    pub id_given : req.header (codes "svix-id") ≢ []
    pub signature_given : req.header (codes "svix-signature") ≢ []
    pub timestamp_given : req.header (codes "svix-timestamp") ≢ []
    pub fits : length payload ≤ max_clerk_webhook_body
    pub signed : svix.verify secret payload req.header ≡ true
    pub decoded : svix.unmarshal payload ≡ some request
    pub user_created : request.event_type ≡ codes "user.created"
    pub user : request.payload ≡ some d
    pub user_id : clerk_user_id (some d) ≢ []
    pub user_email : email_address (some d) ≢ []

module _ {b : Backend} (producer : KafkaProducer) (svix : Svix) (req : Request) where
  pub record Accepted (body : ReadBody) (w : World b) : Type 0 where
    pub payload : Bytes
    pub user : ClerkCallbackData
    pub read : body ≡ complete payload
    pub authentic : Authentic svix req (b.getenv (codes "CLERK_WEBHOOK_SECRET")) payload user
    pub runs :
        clerk_callback producer svix req body w ≡ answer (create_user producer user) created w

  accept_user_cases :
      (request : ClerkCallbackRequest) (w : World b)
      → (accept_event producer svix (some request) w).1 ≡ w
        ⊎ ((d : ClerkCallbackData) × (request.event_type ≡ codes "user.created")
            × (request.payload ≡ some d)
            × (clerk_user_id (some d) ≢ [])
            × (email_address (some d) ≢ [])
            × (accept_event producer svix (some request) w
                ≡ answer (create_user producer d) created w))
  unfolding accept_event accept_user
  accept_user_cases request w = elim (Option-cases request.payload) [
    | inl missing ↦ inl (ground arith)
    | inr (d, given) ↦ elim (Bool-cases (not (request.event_type == codes "user.created"))) [
      | inl other ↦ inl (rw (other, accept_event) refl)
      | inr right ↦
          elim (Bool-cases (clerk_user_id (some d) == [] || email_address (some d) == [])) [
            | inl blank ↦ inl (rw (right, given, blank) refl)
            | inr both ↦ inr (
              d,
              ground (arith, eq_iff request.event_type (codes "user.created")),
              given,
              ground (arith, eq_iff (clerk_user_id (some d)) []),
              ground (arith, eq_iff (email_address (some d)) []),
              rw (right, given, both) refl,
            )
          ]
    ]
  ]

  -- Up to the check of the signature.
  accept_body_cases :
      (payload : Bytes) (w : World b)
      → let secret = b.getenv (codes "CLERK_WEBHOOK_SECRET") in
        (accept_body producer svix req (complete payload) w).1 ≡ w
        ⊎ ((length payload ≤ max_clerk_webhook_body)
            × (svix.verify secret payload req.header ≡ true)
            × (accept_body producer svix req (complete payload) w
                ≡ accept_event producer svix (svix.unmarshal payload) w))
  unfolding accept_body
  accept_body_cases payload w =
      let secret = b.getenv (codes "CLERK_WEBHOOK_SECRET") in
      elim (Bool-cases (ltb max_clerk_webhook_body (length payload))) [
        | inl large ↦ inl (rw large refl)
        | inr fits ↦ elim (Bool-cases (not (svix.accepts_secret secret))) [
          | inl unusable ↦ inl (rw (fits, unusable) refl)
          | inr usable ↦ elim (Bool-cases (not (svix.verify secret payload req.header))) [
            | inl forged ↦ inl (rw (fits, usable, forged) refl)
            | inr signed ↦
                inr (ground arith, ground arith, rw (fits, usable, signed, accept_body) refl)
          ]
        ]
      ]

  -- A delivery to the webhook changes nothing at all, or its three Svix headers are given, its
  -- body is within the limit and verified under the configured secret, it is a user.created event
  -- with a Clerk id and a usable email, and the handler does what CreateUser does for that user.
  pub clerk_callback_guarded :
      (body : ReadBody) (w : World b)
      → ((clerk_callback producer svix req body w).1 ≡ w) ⊎ Accepted body w
  unfolding clerk_callback
  clerk_callback_guarded broken w = inl (ground arith)
  clerk_callback_guarded (complete payload) w =
      let id = req.header (codes "svix-id") in
      let signature = req.header (codes "svix-signature") in
      let timestamp = req.header (codes "svix-timestamp") in
      elim (Bool-cases (id == [] || signature == [] || timestamp == [])) [
        | inl blank ↦ inl (rw blank refl)
        | inr given ↦ elim (accept_body_cases payload w) [
          | inl same ↦ inl (rw given same)
          | inr (fits, signed, body) ↦ elim (Option-cases (svix.unmarshal payload)) [
            | inl unreadable ↦ inl (rw (given, body, unreadable, accept_event) refl)
            | inr (request, decoded) ↦ elim (accept_user_cases request w) [
              | inl same ↦ inl (rw (given, body, decoded) same)
              | inr (d, right, user, user_id, email, runs) ↦ inr (record {
                payload = payload;
                user = d;
                read = refl;
                authentic = record {
                  request = request;
                  id_given = ground (arith, eq_iff id []);
                  signature_given = ground (arith, eq_iff signature []);
                  timestamp_given = ground (arith, eq_iff timestamp []);
                  fits = fits;
                  signed = signed;
                  decoded = decoded;
                  user_created = right;
                  user = user;
                  user_id = user_id;
                  user_email = email;
                };
                runs = rw (given, body, decoded) runs;
              })
            ]
          ]
        ]
      ]
