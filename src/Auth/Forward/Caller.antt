-- ===== src/Auth/Forward/Caller.antt =====
-- The identity headers of AuthForward, as RequireRole reads them.
use identity_mservice.Base.{
  Bytes, ℤ, pos, negsuc, is_positive, [], ◌≡◌, ◌≢◌, ◌⊎◌, refl, true, some, sym, List,
}
use identity_mservice.Base.Text.{trim_space}
use identity_mservice.Base.Text.Digits.{trim_space_digits}
use identity_mservice.Base.Decimal.{
  format_int, parse_int, InRange, parse_int-format_int, format_int-AllDigits,
}
use identity_mservice.Access.Http.{AuthUser, Request, next}
use identity_mservice.Access.Roles.{
  header_internal_user_id, header_user_role, with_user, allowed_roles, require_role,
}
use identity_mservice.Base.Members.{member}
use identity_mservice.Access.Guards.{require_role_complete}
use identity_mservice.Auth.Forward.{identity_headers}

parse_trimmed :
    (id : ℤ) → is_positive id ≡ true → InRange id → parse_int (trim_space (format_int id)) ≡ some id
parse_trimmed (pos n) p r =
    let (digits, given) = format_int-AllDigits n in
    rw (trim_space_digits (format_int (pos n)) digits) (parse_int-format_int (pos n) r)
parse_trimmed (negsuc n) p r = cc

-- The user whom the headers stand for.
abbrev pub caller_of : AuthUser → AuthUser
caller_of user = record user { clerk_user_id = []; email = [] }

-- A request that carries the two headers which AuthForward sets for a user passes RequireRole,
-- with that user's id and role and without an email and a Clerk id in the context, if the id is
-- positive and an int64, the role is not empty, has no space at an end, and is one of the allowed
-- roles unless none is listed.
pub forwarded_caller :
    (roles : List Bytes) (user : AuthUser) (req : Request)
    → is_positive user.internal_user_id ≡ true
    → InRange user.internal_user_id
    → trim_space user.role ≡ user.role
    → user.role ≢ []
    → (allowed_roles roles ≡ []) ⊎ (member user.role (allowed_roles roles) ≡ true)
    → req.header header_internal_user_id ≡ (identity_headers user).internal_user_id
    → req.header header_user_role ≡ (identity_headers user).user_role
    → require_role roles req ≡ next (with_user (caller_of user) req)
unfolding identity_headers
forwarded_caller roles user req p r t n allowed id role =
    require_role_complete roles req (caller_of user) (record {
      id = rw id (parse_trimmed user.internal_user_id p r);
      id_positive = p;
      role = rw role (sym t);
      role_given = n;
      allowed = allowed;
      email = refl;
      clerk_user_id = refl;
    })
