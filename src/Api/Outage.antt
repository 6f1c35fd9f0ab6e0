-- ===== src/Api/Outage.antt =====
-- The profile routes of server/http/api while the database is disabled.
use identity_mservice.Base.{some, ◌≡◌, false, codes, refl}
use identity_mservice.Model.{sentinel, wrap, database_disabled, error_text}
use identity_mservice.Backend.{Backend}
use identity_mservice.Action.{World}
use identity_mservice.Access.Http.{AuthUser, Request, Response, failure}
use identity_mservice.Profile.Update.{UpdateUserProfileRequest}
use identity_mservice.Dao.Users.{get_by_id}
use identity_mservice.Profile.Service.{get_user, get_profile, update_profile}
use identity_mservice.Api.UserProfile.{
  user_get_profile, user_update_profile, admin_get_current_user,
}

-- The answer to a repository error that is not ErrDatabaseDisabled itself.
abbrev pub internal_error : Response
internal_error =
    failure 500 (error_text (wrap (codes "failed to get user: ") (sentinel database_disabled)))

-- While the database is disabled, the handlers of GET and PUT /user-profile and of GET /current-
-- user, for a caller in the context and, for the PUT, a body that binds, answer with status 500
-- and the text of the wrapped error, and change nothing.
pub database_disabled_500 :
    {b : Backend} (req : Request) (user : AuthUser) (body : UpdateUserProfileRequest) (w : World b)
    → b.db_enabled ≡ false
    → req.user ≡ some user
    → (user_get_profile req w ≡ (internal_error, w))
      × (user_update_profile (some body) req w ≡ (internal_error, w))
      × (admin_get_current_user req w ≡ (internal_error, w))
unfolding user_get_profile user_update_profile admin_get_current_user get_profile update_profile
    get_user get_by_id
database_disabled_500 req user body w off caller =
    (rw (caller, off) refl, rw (caller, off) refl, rw (caller, off) refl)
