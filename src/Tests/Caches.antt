-- ===== src/Tests/Caches.antt =====
-- Runs of the profile service with its cache, and of the gRPC service.
use identity_mservice.Tests.Memory.{read_profile}
use identity_mservice.Base.Text.{trim_space}
use identity_mservice.Profile.Cache.{invalidate_user_profile_cache, set_user_profile_cache}
use identity_mservice.Dao.Mappings.{get_by_internal_user_id}
use identity_mservice.Dao.Users.{get_by_id, update_profile as write_row}
use identity_mservice.Base.{◌==◌, eq_refl, codes, [], ◌∷◌, pos, some, none, ◌⊎◌, ◌≡◌, refl}
use identity_mservice.Base.Assoc.{lookup-insert, lookup-erase}
use identity_mservice.Model.{User, UserAuthMapping, UserProfileAggregate}
use identity_mservice.Backend.{ok}
use identity_mservice.Action.{World}
use identity_mservice.Profile.Update.{UpdateUserProfileRequest, build_profile_update}
use identity_mservice.Profile.Cache.{get_user_profile_cache}
use identity_mservice.Profile.Service.{get_user, get_user_profile, update_profile}
use identity_mservice.Profile.Service.Cached.{
  CacheLaws, update_profile_fresh, get_user_profile_again,
}
use identity_mservice.Tests.Memory.{memory, cache_get, cache_set, write_profile}

pub memory_cache : CacheLaws memory
unfolding cache_get cache_set
memory_cache = record {
  get_set = λ key value ttl c. rw (lookup-insert key key value c, eq_refl key) refl;
  get_del = λ key c. rw (lookup-erase key key c, eq_refl key) refl;
}

abbrev pub user : User
user = record {
  id = pos 1;
  name = codes "Ann";
  market = codes "SG";
  language = [];
  segment = [];
  kyc_status = codes "PENDING";
  risk_level = [];
  created_at = 5;
}

abbrev mapping : UserAuthMapping
mapping = record {
  id = pos 1;
  clerk_user_id = codes "clerk";
  email = codes "ann@x";
  internal_user_id = pos 1;
  role = codes "user";
  created_at = 0;
  updated_at = 0;
}

abbrev pub profile : UserProfileAggregate
profile = record {
  user_id = pos 1;
  email = codes "ann@x";
  name = codes "Ann";
  market = codes "SG";
  kyc_status = codes "PENDING";
  registered_at = 5;
}

abbrev pub world : World memory
world = record {
  db = record { users = user ∷ []; mappings = mapping ∷ [] };
  cache = [];
  broker = [];
  net = 0;
  os = 100;
  items = [];
}

abbrev looked_up : World memory
looked_up = (get_user_profile (pos 1) world).1

abbrev request : UpdateUserProfileRequest
request = record { username = codes "Bob"; language = []; market = [] }

abbrev updated : World memory
updated = (update_profile (pos 1) request looked_up).1

updates : update_profile (pos 1) request looked_up ≡ (ok tt, updated)
unfolding update_profile get_by_id get_user_profile get_user_profile_cache cache_get
    get_by_internal_user_id set_user_profile_cache build_profile_update ◌==◌ trim_space write_row
    invalidate_user_profile_cache
updates = refl

update_profile_fresh_example :
    ((u : User) × ((get_user (pos 1) looked_up).0 ≡ ok (some u))
      × (build_profile_update u request ≡ ok none))
    ⊎ ((get_user_profile_cache (pos 1) updated).0 ≡ ok none)
update_profile_fresh_example =
    update_profile_fresh memory_cache (pos 1) request looked_up updated refl updates

misses : (get_user_profile_cache (pos 1) world).0 ≡ ok none
unfolding get_user_profile_cache cache_get
misses = refl

looks_up : get_user_profile (pos 1) world ≡ (ok profile, looked_up)
unfolding get_user_profile get_user_profile_cache cache_get get_by_id get_by_internal_user_id
    set_user_profile_cache
looks_up = refl

reads_back : memory.json_profile.unmarshal (write_profile profile) ≡ some profile
unfolding write_profile read_profile
reads_back = refl

get_user_profile_again_example :
    ((get_user_profile (pos 1) looked_up).0 ≡ ok profile)
    × ((get_user_profile (pos 1) looked_up).1.db ≡ looked_up.db)
get_user_profile_again_example =
    get_user_profile_again memory_cache (pos 1) profile (write_profile profile) world looked_up refl
      misses looks_up refl refl reads_back
