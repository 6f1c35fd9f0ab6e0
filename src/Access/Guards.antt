-- ===== src/Access/Guards.antt =====
-- What a guarded route knows of its caller.
use identity_mservice.Base.{
  Bytes, is_positive, ◌==◌, eq_iff, [], ◌∷◌, List, some, true, false, ◌≡◌, ◌≢◌, ◌⊎◌, arith,
  Option-cases, Bool-cases, ap, inl, inr,
}
use identity_mservice.Base.Text.{trim_space}
use identity_mservice.Base.Decimal.{parse_int, parse_int_nil}
use identity_mservice.Model.{role_user}
use identity_mservice.Model.{role_user}
use identity_mservice.Base.Members.{member}
use identity_mservice.Access.Http.{AuthUser, Request, next}
use identity_mservice.Access.Roles.{
  header_internal_user_id, header_user_role, with_user, user_from_headers, allowed_roles,
  require_role, require_user,
}

-- The caller that the two headers name, and that a list of roles lets through.
pub record IsCaller (roles : List Bytes) (req : Request) (user : AuthUser) : Type 0 where
  pub id : parse_int (trim_space (req.header header_internal_user_id)) ≡ some user.internal_user_id
  pub id_positive : is_positive user.internal_user_id ≡ true
  pub role : user.role ≡ trim_space (req.header header_user_role)
  pub role_given : user.role ≢ []
  pub allowed : (allowed_roles roles ≡ []) ⊎ (member user.role (allowed_roles roles) ≡ true)
  pub email : user.email ≡ []
  pub clerk_user_id : user.clerk_user_id ≡ []

pub user_from_headers-eq-some :
    (req : Request) (user : AuthUser)
    → user_from_headers req ≡ some user
    → (parse_int (trim_space (req.header header_internal_user_id)) ≡ some user.internal_user_id)
      × (is_positive user.internal_user_id ≡ true)
      × (user.role ≡ trim_space (req.header header_user_role))
      × (user.role ≢ [])
      × (user.email ≡ [])
      × (user.clerk_user_id ≡ [])
unfolding user_from_headers
user_from_headers-eq-some req user h =
    ground (arith, eq_iff (trim_space (req.header header_user_role)) [])

-- If RequireRole lets a request pass, then it put a user into the context: the one whose id is the
-- number in the trimmed id header, and positive, and whose role is the trimmed role header, not
-- empty, and one of the allowed roles unless none is listed. The user has no email and no Clerk
-- id.
pub require_role_sound :
    (roles : List Bytes) (req req' : Request)
    → require_role roles req ≡ next req'
    → (user : AuthUser) × (req' ≡ with_user user req) × IsCaller roles req user
unfolding require_role
require_role_sound roles req req' h = elim (Option-cases (user_from_headers req)) [
  | inl unknown ↦ ground arith
  | inr (user, known) ↦
      let (id, positive, role, given, email, clerk) = user_from_headers-eq-some req user known in
      (
        user,
        ground arith,
        record {
          id = id;
          id_positive = positive;
          role = role;
          role_given = given;
          allowed = ground arith;
          email = email;
          clerk_user_id = clerk;
        },
      )
]

pub user_from_headers_complete :
    (roles : List Bytes) (req : Request) (user : AuthUser)
    → IsCaller roles req user
    → user_from_headers req ≡ some user
unfolding user_from_headers
user_from_headers_complete roles req user c =
    let id = trim_space (req.header header_internal_user_id) in
    let role = trim_space (req.header header_user_role) in
    let id_given : (id == []) ≡ false = elim (Bool-cases (id == [])) [
      | inl blank ↦ cc (c.id, ap parse_int ((eq_iff id []).0 blank), parse_int_nil)
      | inr given ↦ given
    ] in
    let role_given : (role == []) ≡ false = ground (arith, c.role, c.role_given, eq_iff role []) in
    rw (id_given, role_given, c.id, c.id_positive)
      (ground (arith, c.role, c.email, c.clerk_user_id))

-- RequireRole lets a request pass, with the user in the context, if the trimmed id header is the
-- number of the user's id, which is positive, the trimmed role header is the user's role, which is
-- not empty and one of the allowed roles unless none is listed, and the user has no email and no
-- Clerk id.
pub require_role_complete :
    (roles : List Bytes) (req : Request) (user : AuthUser)
    → IsCaller roles req user
    → require_role roles req ≡ next (with_user user req)
unfolding require_role
require_role_complete roles req user c =
    ground (arith, user_from_headers_complete roles req user c, c.allowed)

pub require_user_sound :
    (req req' : Request)
    → require_user req ≡ next req'
    → (user : AuthUser) × (req' ≡ with_user user req) × IsCaller (role_user ∷ []) req user
unfolding require_user
require_user_sound req req' h = require_role_sound (role_user ∷ []) req req' h
