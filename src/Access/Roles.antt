-- ===== src/Access/Roles.antt =====
-- RequireRole and userFromHeaders of common/auth/middleware.go, GetUser of context.go.
use identity_mservice.Base.{
  Bytes, ℤ, is_positive, codes, ◌==◌, ◌||◌, ◌&&◌, not, if◌then◌else◌, Bool, true, false, Option,
  none, some, List, [], ◌∷◌,
}
use identity_mservice.Base.Text.{trim_space}
use identity_mservice.Base.Decimal.{parse_int}
use identity_mservice.Model.{role_user, role_admin}
use identity_mservice.Base.Members.{member}
use identity_mservice.Access.Http.{AuthUser, Request, Response, Verdict, abort, next, failure}

abbrev pub header_internal_user_id : Bytes
header_internal_user_id = codes "X-Internal-User-Id"

abbrev pub header_user_role : Bytes
header_user_role = codes "X-User-Role"

-- WithUser
abbrev pub with_user : AuthUser → Request → Request
with_user user req = record req { user = some user }

unfoldable pub user_with_id : Bytes → Option ℤ → Option AuthUser
user_with_id role none = none
user_with_id role (some id) =
    if is_positive id
    then some (record { internal_user_id = id; clerk_user_id = []; email = []; role = role })
    else none

unfoldable pub user_from_headers : Request → Option AuthUser
unfolding user_with_id
user_from_headers req =
    let raw_id = trim_space (req.header header_internal_user_id) in
    let role = trim_space (req.header header_user_role) in
    if raw_id == [] || role == [] then none else user_with_id role (parse_int raw_id)

-- The keys of the map `allowed`.
unfoldable pub allowed_roles : List Bytes → List Bytes
allowed_roles [] = []
allowed_roles (role ∷ roles) =
    let rest = allowed_roles roles in if trim_space role == [] then rest else trim_space role ∷ rest

abbrev is_nil : List Bytes → Bool
is_nil [] = true
is_nil (x ∷ xs) = false

abbrev pub unauthorized : Response
unauthorized = failure 401 (codes "Authentication required")

abbrev pub forbidden : Response
forbidden = failure 403 (codes "Permission required")

check_role : List Bytes → Request → Option AuthUser → Verdict
check_role allowed req none = abort unauthorized
check_role allowed req (some user) =
    if not (is_nil allowed) && not (member user.role allowed)
    then abort forbidden
    else next (with_user user req)

unfoldable pub require_role : List Bytes → Request → Verdict
unfolding check_role
require_role roles req = check_role (allowed_roles roles) req (user_from_headers req)

unfoldable pub require_user : Request → Verdict
require_user req = require_role (role_user ∷ []) req

unfoldable pub require_admin : Request → Verdict
require_admin req = require_role (role_admin ∷ []) req

unfoldable pub permit_all : Request → Verdict
permit_all req = next req
