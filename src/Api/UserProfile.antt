-- ===== src/Api/UserProfile.antt =====
-- server/http/api/user_profile.go and admin_current_user.go.
use identity_mservice.Base.{codes, ◌||◌, if◌then◌else◌, Option, none, some, []}
use identity_mservice.Model.{
  Error, User, user_not_found, market_already_set, invalid_market, invalid_language,
  invalid_argument, is_error, error_text,
}
use identity_mservice.Backend.{Backend, Result, ok, err}
use identity_mservice.Access.Http.{
  AuthUser, Request, Response, null, profile, current_user, failure, success,
}
use identity_mservice.Access.Roles.{require_user, require_role}
use identity_mservice.Profile.Update.{UpdateUserProfileRequest}
use identity_mservice.Profile.Service.{UserProfileVo, get_user, get_profile, update_profile}
use identity_mservice.Api.Common.{Handler, answer, reject, guarded, auth_error, handle_repo_err}

profile_response : Result (Option UserProfileVo) → Response
unfolding handle_repo_err
profile_response (err e) = handle_repo_err e
profile_response (ok none) = failure 404 (codes "user not found")
profile_response (ok (some vo)) =
    success (profile vo.username vo.email vo.language vo.market vo.kyc_checked vo.registered_at)

unfoldable pub handle_profile_update_err : Error → Response
unfolding handle_repo_err error_text
handle_profile_update_err e =
    if is_error e user_not_found
    then failure 404 (error_text e)
    else if is_error e market_already_set
        || is_error e invalid_market
        || is_error e invalid_language
        || is_error e invalid_argument
    then failure 400 (error_text e)
    else handle_repo_err e

update_response : Result (Unit {0}) → Response
unfolding handle_profile_update_err
update_response (ok done) = success null
update_response (err e) = handle_profile_update_err e

current_user_response : AuthUser → Result (Option User) → Response
unfolding handle_repo_err
current_user_response caller (err e) = handle_repo_err e
current_user_response caller (ok none) = failure 404 (codes "user not found")
current_user_response caller (ok (some user)) =
    success (current_user caller.internal_user_id user.name caller.role)

module _ {b : Backend} where
  profile_of : Option AuthUser → Handler b
  unfolding profile_response
  profile_of none = reject auth_error
  profile_of (some user) = answer (get_profile user.internal_user_id user.email) profile_response

  unfoldable pub user_get_profile : Request → Handler b
  unfolding profile_of
  user_get_profile req = profile_of req.user

  update_of : Option AuthUser → Option UpdateUserProfileRequest → Handler b
  unfolding update_response
  update_of none bound = reject auth_error
  update_of (some user) none = reject (failure 400 (codes "invalid request body"))
  update_of (some user) (some body) =
      answer (update_profile user.internal_user_id body) update_response

  -- `bound` is what ShouldBindJSON reads from the body, `none` where it fails.
  unfoldable pub user_update_profile : Option UpdateUserProfileRequest → Request → Handler b
  unfolding update_of
  user_update_profile bound req = update_of req.user bound

  current_user_of : Option AuthUser → Handler b
  unfolding current_user_response
  current_user_of none = reject auth_error
  current_user_of (some user) = answer (get_user user.internal_user_id) (current_user_response user)

  unfoldable pub admin_get_current_user : Request → Handler b
  unfolding current_user_of
  admin_get_current_user req = current_user_of req.user

  -- The routes of router.go.
  unfoldable pub get_user_profile_route : Request → Handler b
  get_user_profile_route = guarded require_user user_get_profile

  unfoldable pub put_user_profile_route : Option UpdateUserProfileRequest → Request → Handler b
  put_user_profile_route bound = guarded require_user (user_update_profile bound)

  unfoldable pub get_current_user_route : Request → Handler b
  get_current_user_route = guarded (require_role []) admin_get_current_user
