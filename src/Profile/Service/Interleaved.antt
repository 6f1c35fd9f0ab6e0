-- ===== src/Profile/Service/Interleaved.antt =====
-- GetUserProfile of server/service/user_profile_service.go: lookups of one profile that overlap: a lookup that missed has read the tables and stores what it
-- joined later, and other calls run in between.
pub mod Quiet
use identity_mservice.Base.{
  Bytes, ℕ, zero, suc, codes, ℤ, is_positive, not, ◌||◌, ◌≡◌, ◌∙◌, sym, ap, subst, refl, arith,
  Bool-cases, true, false, Option, Option-cases, none, some, List, [], ◌∷◌, inl, inr,
}
use identity_mservice.Model.{User, UserAuthMapping, UserProfileAggregate, sentinel, user_not_found}
use identity_mservice.Backend.{
  Backend, Reply, reply, Found, found, not_found, failed, Result, ok, err,
}
use identity_mservice.Action.{
  Action, World, Reply-cases, Result-cases, pure, or_raise, wrapped, ◌>>=◌,
}
use identity_mservice.Dao.Users.{get_by_id, update_profile as write_profile}
use identity_mservice.Dao.Mappings.{get_by_internal_user_id}
use identity_mservice.Profile.Cache.{
  user_profile_cache_key, user_profile_cache_ttl, get_user_profile_cache, set_user_profile_cache,
  invalidate_user_profile_cache,
}
use identity_mservice.Profile.Service.{join, fill, join_mapping, load_profile}

pub data Move : Type 0 where
  -- the read of the cache that begins a lookup, and the read of the tables behind a miss
  looking reading : Move
  -- the end of the lookup at a place in the list
  storing : ℕ → Move
  -- the end of an update, and its write to the tables
  dropping : Move
  updating : User → Move

abbrev pub added :
    Result UserProfileAggregate → List UserProfileAggregate → List UserProfileAggregate
added (ok p) filling = p ∷ filling
added (err e) filling = filling

-- The profile at a place, and the list without it.
abbrev pub at : ℕ → List UserProfileAggregate → Option UserProfileAggregate
at n [] = none
at zero (p ∷ ps) = some p
at (suc n) (p ∷ ps) = at n ps

abbrev pub without : ℕ → List UserProfileAggregate → List UserProfileAggregate
without n [] = []
without zero (p ∷ ps) = ps
without (suc n) (p ∷ ps) = p ∷ without n ps

abbrev pub NoUpdate : List Move → Type 0
NoUpdate [] = Unit
NoUpdate (looking ∷ ms) = NoUpdate ms
NoUpdate (reading ∷ ms) = NoUpdate ms
NoUpdate (storing n ∷ ms) = NoUpdate ms
NoUpdate (dropping ∷ ms) = NoUpdate ms
NoUpdate (updating user ∷ ms) = ⊥

module _ (b : Backend) (id : ℤ) where
  -- GetUserProfile behind a miss, up to the write into the cache.
  unfoldable pub read_rows : Action b UserProfileAggregate
  read_rows = do
    row ← wrapped (codes "get user: ") (get_by_id id)
    user ← or_raise row (sentinel user_not_found)
    link ← wrapped (codes "get user auth mapping: ") (get_by_internal_user_id id)
    mapping ← or_raise link (sentinel user_not_found)
    pure (join user mapping)

  load_profile-read_rows : (w : World b) → load_profile id none w ≡ (read_rows >>= fill) w
  unfolding load_profile read_rows join_mapping
  load_profile-read_rows w = grind arith

  -- The state that overlapping calls share, and the profiles that lookups have joined and not yet
  -- stored.
  pub record Running : Type 0 where
    pub world : World b
    pub filling : List UserProfileAggregate

  abbrev pub store_in : Option UserProfileAggregate → World b → World b
  store_in none w = w
  store_in (some p) w = (set_user_profile_cache p w).1

  unfoldable pub perform : Move → Running → Running
  unfolding read_rows
  perform looking s = record s { world = (get_user_profile_cache id s.world).1 }
  perform reading s = record {
    world = (read_rows s.world).1;
    filling = added (read_rows s.world).0 s.filling;
  }
  perform (storing n) s = record {
    world = store_in (at n s.filling) s.world;
    filling = without n s.filling;
  }
  perform dropping s = record s { world = (invalidate_user_profile_cache id s.world).1 }
  perform (updating user) s = record s { world = (write_profile id (some user) s.world).1 }

  unfoldable pub run_moves : List Move → Running → Running
  unfolding perform
  run_moves [] s = s
  run_moves (m ∷ ms) s = run_moves ms (perform m s)
