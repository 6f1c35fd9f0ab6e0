-- ===== src/Tests/Routes.antt =====
-- Runs of the router.
use identity_mservice.Base.Decimal.{parse_int}
use identity_mservice.Access.Roles.{allowed_roles, require_role, require_user, user_from_headers}
use identity_mservice.Base.Text.{has_prefix}
use identity_mservice.Base.Members.{member}
use identity_mservice.Base.{
  Bytes, codes, ◌==◌, if◌then◌else◌, [], ◌∷◌, none, some, pos, ◌≡◌, ◌⊎◌, ◌↔◌, refl, subst, arith,
}
use identity_mservice.Base.Text.{trim_space}
use identity_mservice.Model.{role_user}
use identity_mservice.Access.Http.{AuthUser, Request, next}
use identity_mservice.Access.Roles.{header_internal_user_id, header_user_role, with_user}
use identity_mservice.Access.Internal.{
  NetParser, Ip, v4, IsIp, IsInternal, host_of, require_internal_network,
  require_internal_network_iff,
}
use identity_mservice.Setup.Log.{request_id_header, request_id_from_header}
use identity_mservice.Router.{user_get_profile, handled, with_request_id, serve}
use identity_mservice.Router.Guarded.{Identified, serve-Permitted}
use identity_mservice.Tests.Memory.{memory}

abbrev pub parser : NetParser
parser = record { split_host_port = λ s. some s; parse_ip = λ s. some (v4 10 1 2 3) }

pub headers : Bytes → Bytes
unfolding ◌==◌
headers name =
    if name == header_internal_user_id
    then codes "12"
    else if name == header_user_role
    then codes "user"
    else []

abbrev pub request : Request
request = record {
  header = headers;
  query = λ name. [];
  remote_addr = codes "10.1.2.3";
  user = none;
}

documented :
    (ip : Ip)
    → parser.parse_ip (trim_space (host_of parser request.remote_addr)) ≡ some ip
    → IsIp ip
documented ip e =
    let same : v4 10 1 2 3 ≡ ip = cc e in
    subst IsIp same (omega arith, omega arith, omega arith, omega arith)

require_internal_network_iff_example :
    (require_internal_network parser memory request ≡ next request) ↔ (
      (memory.fold_case (trim_space (memory.getenv (codes "APP_ENV")))
        ≡ memory.fold_case (codes "local"))
      ⊎ ((ip : Ip) × (parser.parse_ip (trim_space (host_of parser request.remote_addr)) ≡ some ip)
          × IsInternal ip))
require_internal_network_iff_example = require_internal_network_iff parser memory request documented

abbrev caller : AuthUser
caller = record { internal_user_id = pos 12; clerk_user_id = []; email = []; role = role_user }

abbrev id : Bytes
id = (request_id_from_header memory (request.header request_id_header) 100).0

abbrev seen : Request
seen = with_request_id id request

served :
    serve parser memory
      (λ verb. next)
      (codes "GET")
      (codes "/identity-ms/v1/web/user-profile")
      request
      100
    ≡ (handled user_get_profile (with_user caller seen), 101)
unfolding serve member request_id_from_header has_prefix trim_space require_user headers
    require_role user_from_headers parse_int allowed_roles
served = refl

keeps : (r r' : Request) → next r ≡ next r' → r' ≡ r
keeps r r' e = cc e

serve-Permitted_example : Identified (role_user ∷ []) request seen (with_user caller seen)
serve-Permitted_example =
    serve-Permitted parser memory (λ verb. next) (codes "GET")
      (codes "/identity-ms/v1/web/user-profile") request (with_user caller seen) 100 101
      user_get_profile keeps served
