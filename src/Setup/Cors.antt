-- ===== src/Setup/Cors.antt =====
-- corsMiddleware and allowedOrigins of server/http/router/router.go: the configuration that package
-- cors is given.
use identity_mservice.Base.{Bytes, ◌*◌, ◌^◌, codes, Bool, true, Option, none, some, List, [], ◌∷◌}
use identity_mservice.Model.{Time}
use identity_mservice.Access.Roles.{header_internal_user_id, header_user_role}
use identity_mservice.Setup.Log.{request_id_header, trace_id_header}

pub record SystemConfig : Type 0 where
  pub allowed_origins : List Bytes
  pub post_kyc_redirect_uri : Bytes

-- cors.Config, less the fields that are left zero
pub record CorsConfig : Type 0 where
  pub allow_origins : List Bytes
  pub allow_methods : List Bytes
  pub allow_headers : List Bytes
  pub expose_headers : List Bytes
  pub allow_credentials : Bool
  pub max_age : Time

unfoldable pub allowed_origins : Option SystemConfig → List Bytes
allowed_origins none = []
allowed_origins (some system) = system.allowed_origins

unfoldable pub cors_config : Option SystemConfig → CorsConfig
unfolding allowed_origins
cors_config system = record {
  allow_origins = allowed_origins system;
  allow_methods = codes "GET" ∷ codes "POST" ∷ codes "PUT" ∷ codes "DELETE" ∷ codes "OPTIONS" ∷ [];
  allow_headers =
      codes "Origin"
      ∷ codes "Content-Type"
      ∷ codes "Accept"
      ∷ codes "Authorization"
      ∷ header_internal_user_id
      ∷ header_user_role
      ∷ request_id_header
      ∷ trace_id_header
      ∷ [];
  expose_headers =
      codes "Content-Length"
      ∷ header_internal_user_id
      ∷ header_user_role
      ∷ request_id_header
      ∷ trace_id_header
      ∷ [];
  allow_credentials = true;
  max_age = 43200 * 10 ^ 9;
}
