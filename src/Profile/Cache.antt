-- ===== src/Profile/Cache.antt =====
-- The cached profiles of server/service/user_profile_service.go.
use identity_mservice.Base.{
  Bytes, ℤ, is_positive, codes, ◌++◌, ◌||◌, not, if◌then◌else◌, Option, none, some,
}
use identity_mservice.Base.Decimal.{format_int}
use identity_mservice.Model.{Time, UserProfileAggregate}
use identity_mservice.Backend.{Backend, Reply, reply, fault}
use identity_mservice.Action.{Action, pure, ◌>>=◌, ◌>>◌}
use identity_mservice.Dao.MappingCache.{hour, redis_read, redis_write, redis_drop}

abbrev pub user_profile_cache_ttl : Time
user_profile_cache_ttl = hour

unfoldable pub user_profile_cache_key : ℤ → Bytes
user_profile_cache_key user_id = codes "user_profile:id:" ++ format_int user_id

module _ {b : Backend} where
  unmarshal_profile : Bytes → Option UserProfileAggregate → Action b (Option UserProfileAggregate)
  unmarshal_profile key (some profile) = pure (some profile)
  unmarshal_profile key none = do redis_drop key; pure none

  decode_profile : Bytes → Option Bytes → Action b (Option UserProfileAggregate)
  unfolding unmarshal_profile
  decode_profile key none = pure none
  decode_profile key (some raw) = unmarshal_profile key (b.json_profile.unmarshal raw)

  -- `none` is the result (nil, false).
  unfoldable pub get_user_profile_cache : ℤ → Action b (Option UserProfileAggregate)
  unfolding decode_profile
  get_user_profile_cache user_id = if not b.redis_available then pure none else do
    raw ← redis_read (user_profile_cache_key user_id)
    decode_profile (user_profile_cache_key user_id) raw

  store_profile : ℤ → Reply Bytes → Action b (Unit {0})
  store_profile user_id (fault m) = pure tt
  store_profile user_id (reply raw) =
      redis_write (user_profile_cache_key user_id) raw user_profile_cache_ttl

  unfoldable pub set_user_profile_cache : UserProfileAggregate → Action b (Unit {0})
  unfolding store_profile
  set_user_profile_cache profile =
      if not b.redis_available
      then pure tt
      else store_profile profile.user_id (b.json_profile.marshal profile)

  unfoldable pub invalidate_user_profile_cache : ℤ → Action b (Unit {0})
  invalidate_user_profile_cache user_id =
      if not b.redis_available || not (is_positive user_id)
      then pure tt
      else redis_drop (user_profile_cache_key user_id)
