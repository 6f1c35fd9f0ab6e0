-- ===== src/Dao/Mappings.antt =====
-- server/repository/dao/user_auth_mapping_dao.go
use identity_mservice.Base.{Bytes, ℤ, is_positive, if◌then◌else◌, Option, none, some}
use identity_mservice.Model.{UserAuthMapping}
use identity_mservice.Backend.{Backend}
use identity_mservice.Action.{Action, pure, on_db, ◌>>=◌, ◌>>◌}
use identity_mservice.Dao.Users.{first, require_db}
use identity_mservice.Dao.MappingCache.{
  get_mapping_from_cache, set_mapping_cache, delete_mapping_cache,
}

module _ {b : Backend} where
  -- A row that was read goes into the cache; a missing one does not.
  remember : Option UserAuthMapping → Action b (Option UserAuthMapping)
  remember none = pure none
  remember (some row) = do set_mapping_cache row; pure (some row)

  read_through : Bytes → Option UserAuthMapping → Action b (Option UserAuthMapping)
  unfolding remember
  read_through clerk_user_id (some cached) = pure (some cached)
  read_through clerk_user_id none = do
    require_db
    row ← first (b.first_mapping_by_clerk_user_id clerk_user_id)
    remember row

  unfoldable pub get_by_clerk_user_id : Bytes → Action b (Option UserAuthMapping)
  unfolding read_through
  get_by_clerk_user_id clerk_user_id = do
    cached ← get_mapping_from_cache clerk_user_id
    read_through clerk_user_id cached

  unfoldable pub get_by_email : Bytes → Action b (Option UserAuthMapping)
  get_by_email email = do require_db; first (b.first_mapping_by_email email)

  unfoldable pub get_by_internal_user_id : ℤ → Action b (Option UserAuthMapping)
  get_by_internal_user_id internal_user_id = do
    require_db
    if is_positive internal_user_id
        then first (b.first_mapping_by_internal_user_id internal_user_id)
        else pure none

  unfoldable pub create_mapping_in_transaction : UserAuthMapping → Action b UserAuthMapping
  create_mapping_in_transaction mapping = do
    require_db
    delete_mapping_cache mapping.clerk_user_id
    row ← on_db (b.create_mapping mapping)
    delete_mapping_cache mapping.clerk_user_id
    pure row
