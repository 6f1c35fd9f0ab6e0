-- ===== src/Auth/Forward.antt =====
-- server/http/api/auth_forward.go: the identity headers for the gateway.
pub mod Caller
pub mod Trusted
use identity_mservice.Base.{Bytes, codes, ◌==◌, not, ◌||◌, if◌then◌else◌, [], Option, none, some}
use identity_mservice.Base.Text.{has_prefix, trim_prefix, trim_space}
use identity_mservice.Base.Decimal.{format_int}
use identity_mservice.Backend.{Backend, Result, ok, err}
use identity_mservice.Action.{World}
use identity_mservice.Access.Http.{AuthUser, Request}
use identity_mservice.Auth.Jwks.{Keyring}
use identity_mservice.Auth.Token.{Jwt, new_authenticator, authenticate}

unfoldable pub bearer_from_authorization : Bytes → Option Bytes
bearer_from_authorization header =
    let token = trim_space (trim_prefix (codes "Bearer ") header) in
    if not (has_prefix (codes "Bearer ") header) || token == [] then none else some token

-- The two headers of the response.
pub record IdentityHeaders : Type 0 where
  pub internal_user_id : Bytes
  pub user_role : Bytes

unfoldable pub identity_headers : AuthUser → IdentityHeaders
identity_headers user = record {
  internal_user_id = format_int user.internal_user_id;
  user_role = user.role;
}

headers_of : Result AuthUser → Option IdentityHeaders
unfolding identity_headers
headers_of (ok user) = some (identity_headers user)
headers_of (err e) = none

module _ {b : Backend} (ring : Keyring b) (jwt : Jwt) where
  forward_token : Option Bytes → World b → Option IdentityHeaders × World b
  unfolding headers_of
  forward_token none w = (none, w)
  forward_token (some token) w =
      let (r, w') = authenticate ring jwt (new_authenticator b) token w in (headers_of r, w')

  -- The status is 200 in every case; `none` stands for a response without the headers.
  unfoldable pub auth_forward : Request → World b → Option IdentityHeaders × World b
  unfolding forward_token
  auth_forward req = forward_token (bearer_from_authorization (req.header (codes "Authorization")))
