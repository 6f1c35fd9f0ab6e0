-- ===== src/Tests/Tokens.antt =====
-- Runs of AuthForward.
use identity_mservice.Dao.MappingCache.{get_mapping_from_cache, set_mapping_cache}
use identity_mservice.Dao.Mappings.{get_by_clerk_user_id}
use identity_mservice.Auth.Jwks.{public_key}
use identity_mservice.Tests.Memory.{cache_get, environment}
use identity_mservice.Auth.Token.{
  are_valid_claims, authenticate, decode_jwt_part, new_authenticator, verify_rs256, verify_token,
}
use identity_mservice.Base.Text.{has_prefix, trim_prefix}
use identity_mservice.Auth.Forward.{bearer_from_authorization}
use identity_mservice.Access.Roles.{allowed_roles}
use identity_mservice.Base.{
  Bytes, ◌==◌, if◌then◌else◌, codes, [], ◌∷◌, pos, some, none, true, false, inl, ◌≡◌, ◌≢◌, refl,
  arith,
}
use identity_mservice.Model.{UserAuthMapping, role_user}
use identity_mservice.Backend.{ok}
use identity_mservice.Action.{World}
use identity_mservice.Access.Http.{AuthUser, Request, next}
use identity_mservice.Access.Roles.{
  header_internal_user_id, header_user_role, with_user, require_role,
}
use identity_mservice.Auth.Jwks.{Keyring, JwksCache, new_jwks_cache, refresh}
use identity_mservice.Base.Assoc.{lookup}
use identity_mservice.Auth.Jwks.Keys.{IsFetched, refresh-IsFetched}
use identity_mservice.Auth.Token.{Jwt, Seconds}
use identity_mservice.Auth.Forward.{identity_headers, auth_forward}
use identity_mservice.Auth.Forward.Caller.{caller_of, forwarded_caller}
use identity_mservice.Auth.Forward.Trusted.{Trusted, auth_forward-Trusted}
use identity_mservice.Base.Text.{trim_space}
use identity_mservice.Tests.Memory.{memory}

abbrev clerk : AuthUser
clerk = record {
  internal_user_id = pos 42;
  clerk_user_id = codes "clerk";
  email = codes "ann@x";
  role = role_user;
}

headers : Bytes → Bytes
unfolding ◌==◌ identity_headers
headers name =
    if name == header_internal_user_id
    then (identity_headers clerk).internal_user_id
    else if name == header_user_role
    then (identity_headers clerk).user_role
    else if name == codes "Authorization"
    then codes "Bearer h.c.s"
    else []

abbrev request : Request
request = record { header = headers; query = λ name. []; remote_addr = []; user = none }

role_given : role_user ≢ []
role_given = cc

role_trimmed : trim_space role_user ≡ role_user
unfolding trim_space
role_trimmed = refl

id_header : headers header_internal_user_id ≡ (identity_headers clerk).internal_user_id
unfolding headers
id_header = refl

role_header : headers header_user_role ≡ (identity_headers clerk).user_role
unfolding headers
role_header = refl

forwarded_caller_example : require_role [] request ≡ next (with_user (caller_of clerk) request)
unfolding allowed_roles
forwarded_caller_example =
    forwarded_caller [] clerk request refl (ground arith) role_trimmed role_given (inl refl)
      id_header role_header

abbrev pub ring : Keyring memory
ring = record {
  get = λ url s. (ok (200, codes "keys"), s);
  decode_jwks = λ body.
      some (record { kid = codes "k"; kty = codes "RSA"; n = codes "n"; e = codes "e" } ∷ []);
  decode_base64 = λ raw. some raw;
}

abbrev never : Seconds
never = record { is_zero = true; above_zero = false; to_int64 = pos 0 }

abbrev far : Seconds
far = record { is_zero = false; above_zero = true; to_int64 = pos 4000000000 }

abbrev pub jwt : Jwt
jwt = record {
  decode_header = λ s. some (record { alg = codes "RS256"; kid = codes "k" });
  decode_claims = λ s. some (record {
    subject = codes "clerk";
    issuer = [];
    email = [];
    expiry = far;
    not_before = never;
  });
  sha256 = λ s. s;
  verify_pkcs1v15 = λ key digest signature. digest == codes "h.c";
}

abbrev mapping : UserAuthMapping
mapping = record {
  id = pos 1;
  clerk_user_id = codes "clerk";
  email = codes "ann@x";
  internal_user_id = pos 42;
  role = role_user;
  created_at = 0;
  updated_at = 0;
}

abbrev world : World memory
world = record {
  db = record { users = []; mappings = mapping ∷ [] };
  cache = [];
  broker = [];
  net = 0;
  os = 100;
  items = [];
}

forwards : (auth_forward ring jwt request world).0 ≡ some (identity_headers clerk)
unfolding auth_forward headers bearer_from_authorization has_prefix trim_space trim_prefix
    authenticate verify_token new_authenticator environment decode_jwt_part are_valid_claims
    public_key verify_rs256 get_by_clerk_user_id get_mapping_from_cache cache_get set_mapping_cache
forwards = refl

auth_forward-Trusted_example : Trusted ring jwt request (identity_headers clerk) world
auth_forward-Trusted_example =
    auth_forward-Trusted ring jwt request (identity_headers clerk) world forwards

abbrev clerk_jwks : JwksCache
clerk_jwks = new_jwks_cache (codes "https://clerk/jwks")

abbrev fetched : JwksCache
fetched = record {
  url = codes "https://clerk/jwks";
  expires_at = 300000000100;
  keys = (codes "k", record { n = 110; e = 101 }) ∷ [];
}

abbrev fetched_world : World memory
fetched_world = (refresh ring clerk_jwks world).1

fetches : refresh ring clerk_jwks world ≡ (ok fetched, fetched_world)
unfolding refresh ◌==◌
fetches = refl

finds : lookup (codes "k") fetched.keys ≡ some (record { n = 110; e = 101 })
unfolding lookup ◌==◌
finds = refl

refresh-IsFetched_example :
    IsFetched ring clerk_jwks world (codes "k") (record { n = 110; e = 101 })
refresh-IsFetched_example =
    refresh-IsFetched ring clerk_jwks fetched (codes "k") (record { n = 110; e = 101 }) world
      fetched_world fetches finds
