-- ===== src/Tests/Overlaps.antt =====
-- Runs in which calls for one profile overlap.
use identity_mservice.Base.Decimal.{format_int}
use identity_mservice.Base.{◌==◌}
use identity_mservice.Dao.Mappings.{get_by_internal_user_id}
use identity_mservice.Base.Assoc.{erase}
use identity_mservice.Base.Text.{trim_space}
use identity_mservice.Profile.Options.{is_valid_market}
use identity_mservice.Profile.Cache.{
  get_user_profile_cache, invalidate_user_profile_cache, set_user_profile_cache,
}
use identity_mservice.Dao.Users.{get_by_id, update_profile}
use identity_mservice.Tests.Memory.{cache_get, cache_set}
use identity_mservice.Base.{
  Bytes, ℤ, pos, negsuc, codes, [], ◌∷◌, List, Bool-cases, true, some, ◌≡◌, refl, ap, arith, inl,
  inr,
}
use identity_mservice.Profile.Update.{UpdateUserProfileRequest, build_profile_update}
use identity_mservice.Model.{User}
use identity_mservice.Backend.{ok, found}
use identity_mservice.Profile.Cache.{user_profile_cache_key}
use identity_mservice.Profile.Service.Interleaved.{
  Move, looking, reading, storing, dropping, updating, Running, run_moves,
}
use identity_mservice.Profile.Service.Interleaved.Quiet.{ReadLaws, Holds, fresh, run_moves-Holds}
use identity_mservice.Tests.Memory.{memory, find, int_eq, write_profile}
use identity_mservice.Tests.Caches.{memory_cache, user, profile, world}

pub int_eq_sound : (m n : ℤ) → int_eq m n ≡ true → m ≡ n
int_eq_sound (pos m) (pos n) h = ground arith
int_eq_sound (pos m) (negsuc n) h = cc h
int_eq_sound (negsuc m) (pos n) h = cc h
int_eq_sound (negsuc m) (negsuc n) h = ground arith

pub find_key :
    (id : ℤ) (users : List User) (u : User)
    → find (λ (v : User). int_eq v.id id) users ≡ found u
    → u.id ≡ id
find_key id [] u h = cc h
find_key id (v ∷ users) u h = elim (Bool-cases (int_eq v.id id)) [
  | inl here ↦
      let same : found v ≡ found u = rw here at h in
      let row : v ≡ u = cc same in cc (int_eq_sound v.id id here, ap (λ (q : User). q.id) row)
  | inr other ↦ find_key id users u (rw other at h)
]

memory_reads : ReadLaws memory (pos 1)
unfolding cache_get
memory_reads = record {
  cache = memory_cache;
  get_get = λ key c. refl;
  user_rows = λ db. refl;
  mapping_rows = λ db. refl;
  user_key = λ db u e. find_key (pos 1) db.users u e;
}

-- Two lookups miss before either stores.
abbrev moves : List Move
moves = looking ∷ looking ∷ reading ∷ reading ∷ storing 1 ∷ looking ∷ storing 0 ∷ []

run_moves-Holds_example :
    Holds memory
      (pos 1)
      (run_moves memory (pos 1) moves (fresh memory (pos 1) world)).world.cache
      (run_moves memory (pos 1) moves (fresh memory (pos 1) world)).world.db
run_moves-Holds_example = run_moves-Holds memory (pos 1) memory_reads moves world refl refl tt

abbrev renamed : User
renamed = record user {
  id = pos 0;
  name = codes "Bob";
  market = [];
  kyc_status = [];
  created_at = 0;
}

-- A lookup reads the row, the whole update runs, and the lookup stores what it had read.
abbrev race : List Move
race = looking ∷ reading ∷ updating renamed ∷ dropping ∷ storing 0 ∷ []

abbrev raced : Running memory (pos 1)
raced = run_moves memory (pos 1) race (fresh memory (pos 1) world)

stale :
    ((memory.redis_get (user_profile_cache_key (pos 1)) raced.world.cache).0
      ≡ some (write_profile profile))
    × ((memory.first_user (pos 1) raced.world.db).0 ≡ found (record user { name = codes "Bob" }))
unfolding run_moves get_by_id get_user_profile_cache cache_get invalidate_user_profile_cache erase
    get_by_internal_user_id set_user_profile_cache update_profile ◌==◌ cache_set
    user_profile_cache_key format_int
stale = (refl, refl)

-- Two updates read the row before either writes: each may set the market.
abbrev unset : User
unset = record user { market = [] }

abbrev to_market : Bytes → UpdateUserProfileRequest
to_market market = record { username = []; language = []; market = market }

abbrev only_market : Bytes → User
only_market market = record {
  id = pos 0;
  name = [];
  market = market;
  language = [];
  segment = [];
  kyc_status = [];
  risk_level = [];
  created_at = 0;
}

abbrev moved : Running memory (pos 1)
moved =
    run_moves memory (pos 1)
      (updating (only_market (codes "SG"))
        ∷ dropping
        ∷ updating (only_market (codes "HK"))
        ∷ dropping
        ∷ [])
      (record {
        world = record world { db = record { users = unset ∷ []; mappings = [] } };
        filling = [];
      })

market_set_twice :
    (build_profile_update unset (to_market (codes "SG")) ≡ ok (some (only_market (codes "SG"))))
    × (build_profile_update unset (to_market (codes "HK")) ≡ ok (some (only_market (codes "HK"))))
    × ((memory.first_user (pos 1) moved.world.db).0 ≡ found (record user { market = codes "HK" }))
unfolding build_profile_update ◌==◌ trim_space is_valid_market run_moves
    invalidate_user_profile_cache update_profile erase
market_set_twice = (refl, refl, refl)
