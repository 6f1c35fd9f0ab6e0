-- ===== src/Tests/Callers.antt =====
-- Runs of the guards, and of the handlers behind them.
use identity_mservice.Base.Members.{member}
use identity_mservice.Base.Decimal.{parse_int}
use identity_mservice.Base.Text.{trim_space}
use identity_mservice.Access.Roles.{allowed_roles, user_from_headers}
use identity_mservice.Base.{
  Bytes, ◌==◌, if◌then◌else◌, codes, [], ◌∷◌, pos, some, none, false, List, inr, ◌≡◌, ◌≢◌, refl,
}
use identity_mservice.Model.{role_user, role_admin}
use identity_mservice.Backend.{Backend}
use identity_mservice.Action.{World}
use identity_mservice.Access.Http.{AuthUser, Request, next}
use identity_mservice.Access.Roles.{
  header_internal_user_id, header_user_role, with_user, require_role,
}
use identity_mservice.Access.Guards.{IsCaller, require_role_sound, require_role_complete}
use identity_mservice.Profile.Update.{UpdateUserProfileRequest}
use identity_mservice.Api.UserProfile.{
  user_get_profile, user_update_profile, admin_get_current_user,
}
use identity_mservice.Api.Outage.{internal_error, database_disabled_500}
use identity_mservice.Tests.Memory.{memory}

headers : Bytes → Bytes
unfolding ◌==◌
headers name =
    if name == header_internal_user_id
    then codes " 12 "
    else if name == header_user_role
    then codes "admin"
    else []

abbrev request : Request
request = record { header = headers; query = λ name. []; remote_addr = []; user = none }

abbrev admin : AuthUser
admin = record { internal_user_id = pos 12; clerk_user_id = []; email = []; role = role_admin }

abbrev roles : List Bytes
roles = role_admin ∷ role_user ∷ []

passes : require_role roles request ≡ next (with_user admin request)
unfolding require_role headers user_from_headers trim_space parse_int allowed_roles member
passes = refl

require_role_sound_example :
    (user : AuthUser) × (with_user admin request ≡ with_user user request)
    × IsCaller roles request user
require_role_sound_example = require_role_sound roles request (with_user admin request) passes

role_given : role_admin ≢ []
role_given = cc

admin-IsCaller : IsCaller roles request admin
unfolding headers parse_int trim_space member allowed_roles
admin-IsCaller = record {
  id = refl;
  id_positive = refl;
  role = refl;
  role_given = role_given;
  allowed = inr refl;
  email = refl;
  clerk_user_id = refl;
}

require_role_complete_example : require_role roles request ≡ next (with_user admin request)
require_role_complete_example = require_role_complete roles request admin admin-IsCaller

abbrev disabled : Backend
disabled = record memory { db_enabled = false }

abbrev world : World disabled
world = record {
  db = record { users = []; mappings = [] };
  cache = [];
  broker = [];
  net = 0;
  os = 100;
  items = [];
}

abbrev signed_in : Request
signed_in = with_user admin request

abbrev body : UpdateUserProfileRequest
body = record { username = codes "Bob"; language = []; market = [] }

database_disabled_500_example :
    (user_get_profile signed_in world ≡ (internal_error, world))
    × (user_update_profile (some body) signed_in world ≡ (internal_error, world))
    × (admin_get_current_user signed_in world ≡ (internal_error, world))
database_disabled_500_example = database_disabled_500 signed_in admin body world refl refl
