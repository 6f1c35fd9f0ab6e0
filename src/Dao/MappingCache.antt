-- ===== src/Dao/MappingCache.antt =====
-- server/repository/dao/user_auth_mapping_cache.go
use identity_mservice.Base.{
  Bytes, ◌*◌, ◌^◌, codes, [], ◌++◌, ◌==◌, ◌||◌, not, if◌then◌else◌, Option, none, some,
}
use identity_mservice.Model.{Time, UserAuthMapping}
use identity_mservice.Backend.{Backend, Reply, reply, fault, ok}
use identity_mservice.Action.{Action, pure, ◌>>=◌, ◌>>◌}

-- time.Hour
abbrev pub hour : Time
hour = 3600 * 10 ^ 9

abbrev pub user_auth_mapping_cache_ttl : Time
user_auth_mapping_cache_ttl = hour

unfoldable pub user_auth_mapping_cache_key : Bytes → Bytes
user_auth_mapping_cache_key clerk_user_id = codes "user_auth_mapping:clerk:" ++ clerk_user_id

module _ {b : Backend} where
  -- Client.Get(…), Client.Set(…), Client.Del(…)
  abbrev pub redis_read : Bytes → Action b (Option Bytes)
  redis_read key w = let (r, cache) = b.redis_get key w.cache in (ok r, record w { cache = cache })

  abbrev pub redis_write : Bytes → Bytes → Time → Action b (Unit {0})
  redis_write key value ttl w = (ok tt, record w { cache = b.redis_set key value ttl w.cache })

  abbrev pub redis_drop : Bytes → Action b (Unit {0})
  redis_drop key w = (ok tt, record w { cache = b.redis_del key w.cache })

  unmarshal_mapping : Bytes → Option UserAuthMapping → Action b (Option UserAuthMapping)
  unmarshal_mapping key (some row) = pure (some row)
  unmarshal_mapping key none = do redis_drop key; pure none

  decode_mapping : Bytes → Option Bytes → Action b (Option UserAuthMapping)
  unfolding unmarshal_mapping
  decode_mapping key none = pure none
  decode_mapping key (some raw) = unmarshal_mapping key (b.json_mapping.unmarshal raw)

  -- `none` is the result (nil, false).
  unfoldable pub get_mapping_from_cache : Bytes → Action b (Option UserAuthMapping)
  unfolding decode_mapping user_auth_mapping_cache_key
  get_mapping_from_cache clerk_user_id =
      if not b.redis_available || clerk_user_id == [] then pure none else do
        raw ← redis_read (user_auth_mapping_cache_key clerk_user_id)
        decode_mapping (user_auth_mapping_cache_key clerk_user_id) raw

  store_mapping : Bytes → Reply Bytes → Action b (Unit {0})
  store_mapping clerk_user_id (fault m) = pure tt
  store_mapping clerk_user_id (reply raw) =
      redis_write (user_auth_mapping_cache_key clerk_user_id) raw user_auth_mapping_cache_ttl

  unfoldable pub set_mapping_cache : UserAuthMapping → Action b (Unit {0})
  unfolding store_mapping user_auth_mapping_cache_key
  set_mapping_cache row =
      if not b.redis_available || row.clerk_user_id == []
      then pure tt
      else store_mapping row.clerk_user_id (b.json_mapping.marshal row)

  unfoldable pub delete_mapping_cache : Bytes → Action b (Unit {0})
  unfolding user_auth_mapping_cache_key
  delete_mapping_cache clerk_user_id =
      if not b.redis_available || clerk_user_id == []
      then pure tt
      else redis_drop (user_auth_mapping_cache_key clerk_user_id)
