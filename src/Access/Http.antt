-- ===== src/Access/Http.antt =====
-- What the handlers read of a request and write as a response. Gin's routing, the access log and
-- the recovery from panics are in Router.
use identity_mservice.Base.{Bytes, ℕ, ℤ, negsuc, pos, codes, Bool, Option, ◌≡◌, ◌⊎◌, inl, inr, refl}

-- auth.User of common/auth/context.go.
pub record AuthUser : Type 0 where
  pub internal_user_id : ℤ
  pub clerk_user_id : Bytes
  pub email : Bytes
  pub role : Bytes

pub record Request : Type 0 where
  -- c.GetHeader and c.Query, with the empty text for what is missing
  pub header : Bytes → Bytes
  pub query : Bytes → Bytes
  pub remote_addr : Bytes
  -- the value that WithUser puts into the context
  pub user : Option AuthUser

-- The documents under "data".
pub data Payload : Type 0 where
  null : Payload
  profile : Bytes → Bytes → Bytes → Bytes → Bool → Bytes → Payload
  current_user : ℤ → Bytes → Bytes → Payload
  authorize_url : Bytes → Payload

pub data Body : Type 0 where
  empty : Body
  -- {"code", "message", "data"}
  standard : ℤ → Bytes → Payload → Body
  -- {"error"}, {"message"}
  error_body : Bytes → Body
  message_body : Bytes → Body
  -- {"error", "idp_error", "idp_error_description"}
  idp_error_body : Bytes → Bytes → Bytes → Body
  -- {"code", "message"}
  code_message : ℤ → Bytes → Body
  -- the Location of a redirect
  location : Bytes → Body

pub record Response : Type 0 where
  pub status : ℕ
  pub body : Body

-- A middleware answers and stops the chain, or passes the request on.
pub data Verdict : Type 0 where
  abort : Response → Verdict
  next : Request → Verdict

abbrev pub respond : ℕ → Body → Response
respond status body = record { status = status; body = body }

-- data.JSON with code -1 and no data
abbrev pub failure : ℕ → Bytes → Response
failure status message = respond status (standard (negsuc 0) message null)

-- data.OK
abbrev pub success : Payload → Response
success payload = respond 200 (standard (pos 0) (codes "success") payload)

pub Verdict-cases :
    (v : Verdict) → ((r : Response) × (v ≡ abort r)) ⊎ ((req : Request) × (v ≡ next req))
Verdict-cases (abort r) = inl (r, refl)
Verdict-cases (next req) = inr (req, refl)
