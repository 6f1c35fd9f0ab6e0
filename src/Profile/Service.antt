-- ===== src/Profile/Service.antt =====
-- UserProfileServiceImpl of server/service/user_profile_service.go.
pub mod Cached
pub mod Interleaved
use identity_mservice.Base.{Bytes, ℤ, is_positive, codes, ◌==◌, not, Bool, Option, none, some}
use identity_mservice.Model.{
  Time, User, UserAuthMapping, UserProfileAggregate, kyc_status_passed, sentinel, user_not_found,
  invalid_argument,
}
use identity_mservice.Mask.{mask_email}
use identity_mservice.Backend.{Backend}
use identity_mservice.Action.{Action, pure, lift, raise_if, or_raise, wrapped, ◌>>=◌, ◌>>◌}
use identity_mservice.Dao.Users.{get_by_id, update_profile as write_profile}
use identity_mservice.Dao.Mappings.{get_by_internal_user_id}
use identity_mservice.Profile.Update.{UpdateUserProfileRequest, build_profile_update}
use identity_mservice.Profile.Cache.{
  get_user_profile_cache, set_user_profile_cache, invalidate_user_profile_cache,
}

-- data/user_profile.go
pub record UserProfileVo : Type 0 where
  pub username : Bytes
  pub email : Bytes
  pub language : Bytes
  pub market : Bytes
  pub kyc_checked : Bool
  pub registered_at : Bytes

abbrev pub join : User → UserAuthMapping → UserProfileAggregate
join user mapping = record {
  user_id = user.id;
  email = mapping.email;
  name = user.name;
  market = user.market;
  kyc_status = user.kyc_status;
  registered_at = user.created_at;
}

present : (Time → Bytes) → Bytes → Option User → Option UserProfileVo
present format_rfc3339 email none = none
present format_rfc3339 email (some user) = some (record {
  username = user.name;
  email = mask_email email;
  language = user.language;
  market = user.market;
  kyc_checked = user.kyc_status == kyc_status_passed;
  registered_at = format_rfc3339 user.created_at;
})

module _ {b : Backend} where
  unfoldable pub get_user : ℤ → Action b (Option User)
  get_user user_id = wrapped (codes "failed to get user: ") (get_by_id user_id)

  -- `none` is the result (nil, nil).
  unfoldable pub get_profile : ℤ → Bytes → Action b (Option UserProfileVo)
  unfolding get_user present
  get_profile user_id email = do row ← get_user user_id; pure (present b.format_rfc3339 email row)

  fill : UserProfileAggregate → Action b UserProfileAggregate
  fill profile = do set_user_profile_cache profile; pure profile

  join_mapping : ℤ → User → Action b UserProfileAggregate
  unfolding fill
  join_mapping user_id user = do
    link ← wrapped (codes "get user auth mapping: ") (get_by_internal_user_id user_id)
    mapping ← or_raise link (sentinel user_not_found)
    fill (join user mapping)

  load_profile : ℤ → Option UserProfileAggregate → Action b UserProfileAggregate
  unfolding join_mapping
  load_profile user_id (some cached) = pure cached
  load_profile user_id none = do
    row ← wrapped (codes "get user: ") (get_by_id user_id)
    user ← or_raise row (sentinel user_not_found)
    join_mapping user_id user

  unfoldable pub get_user_profile : ℤ → Action b UserProfileAggregate
  unfolding load_profile
  get_user_profile user_id = do
    raise_if (not (is_positive user_id)) (sentinel invalid_argument)
    cached ← get_user_profile_cache user_id
    load_profile user_id cached

  write_update : ℤ → Option User → Action b (Unit {0})
  write_update user_id none = pure tt
  write_update user_id (some update) = do
    write_profile user_id (some update)
    invalidate_user_profile_cache user_id

  -- The handler passes the address of its request, so that `req` is not nil.
  unfoldable pub update_profile : ℤ → UpdateUserProfileRequest → Action b (Unit {0})
  unfolding get_user write_update
  update_profile user_id req = do
    row ← get_user user_id
    user ← or_raise row (sentinel user_not_found)
    update ← lift (build_profile_update user req)
    write_update user_id update
