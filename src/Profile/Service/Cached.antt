-- ===== src/Profile/Service/Cached.antt =====
-- The profile service and its cache, under what Redis promises of a key that was just written.
use identity_mservice.Base.{
  Bytes, codes, subst, ℤ, is_positive, not, ◌≡◌, ◌⊎◌, inl, inr, refl, ◌∙◌, arith, ap, true, false,
  Option, Option-cases, none, some, Bool-cases,
}
use identity_mservice.Model.{
  Time, User, UserAuthMapping, UserProfileAggregate, Error, sentinel, user_not_found,
}
use identity_mservice.Backend.{Backend, reply, Result, ok}
use identity_mservice.Action.{World, lift, or_raise, wrapped, ◌>>=◌, >>=-eq-ok}
use identity_mservice.Dao.Users.{get_by_id, update_profile as write_profile}
use identity_mservice.Dao.Mappings.{get_by_internal_user_id}
use identity_mservice.Profile.Update.{UpdateUserProfileRequest, build_profile_update}
use identity_mservice.Profile.Cache.{
  user_profile_cache_key, user_profile_cache_ttl, get_user_profile_cache, set_user_profile_cache,
  invalidate_user_profile_cache,
}
use identity_mservice.Profile.Service.{
  join, get_user, fill, join_mapping, load_profile, get_user_profile, write_update, update_profile,
}

-- A key that was just set is there, and one that was just deleted is not.
pub record CacheLaws (b : Backend) : Type 0 where
  pub get_set :
      (key value : Bytes) (ttl : Time) (c : b.Cache)
      → (b.redis_get key (b.redis_set key value ttl c)).0 ≡ some value
  pub get_del : (key : Bytes) (c : b.Cache) → (b.redis_get key (b.redis_del key c)).0 ≡ none

module _ {b : Backend} where
  -- A deleted entry is not served.
  miss_after_delete :
      (laws : CacheLaws b) (id : ℤ) (w : World b)
      → (b.redis_available ≡ false)
        ⊎ ((c : b.Cache) × (w.cache ≡ b.redis_del (user_profile_cache_key id) c))
      → (get_user_profile_cache id w).0 ≡ ok none
  unfolding get_user_profile_cache
  miss_after_delete laws id w (inl off) = rw off refl
  miss_after_delete laws id w (inr (c, e)) = elim (Bool-cases (not b.redis_available)) [
    | inl off ↦ rw off refl
    | inr on ↦ rw (on, e, laws.get_del (user_profile_cache_key id) c) refl
  ]

  invalidate_lem :
      (laws : CacheLaws b) (id : ℤ) (w : World b)
      → is_positive id ≡ true
      → (get_user_profile_cache id (invalidate_user_profile_cache id w).1).0 ≡ ok none
  unfolding invalidate_user_profile_cache
  invalidate_lem laws id w p = elim (Bool-cases b.redis_available) [
    | inl on ↦ rw (on, p) (miss_after_delete laws id _ (inr (w.cache, refl)))
    | inr off ↦ miss_after_delete laws id _ (inl off)
  ]

  write_update_fresh :
      (laws : CacheLaws b) (id : ℤ) (update : User) (w w' : World b)
      → is_positive id ≡ true
      → write_update id (some update) w ≡ (ok tt, w')
      → (get_user_profile_cache id w').0 ≡ ok none
  unfolding write_update
  write_update_fresh laws id update w w' p h =
      let (done, v, e, k) =
        >>=-eq-ok (write_profile id (some update))
          (λ (u : Unit {0}). invalidate_user_profile_cache id) {w = w} h in
      let same : (invalidate_user_profile_cache id v).1 ≡ w' =
        ap (λ (q : Result (Unit {0}) × World b). q.1) k in
      rw (← same) (invalidate_lem laws id v p)

  or_raise-eq-ok :
      {A : Type 0} (o : Option A) (e : Error) (w : World b) {a : A} {w' : World b}
      → or_raise o e w ≡ (ok a, w')
      → o ≡ some a
  or_raise-eq-ok {A} none e w h = cc (ap (λ (q : Result A × World b). q.0) h)
  or_raise-eq-ok {A} (some a) e w h = cc (ap (λ (q : Result A × World b). q.0) h)

  -- Where Redis returns nothing for a key that was just deleted: if UpdateProfile for a positive
  -- id returns no error, then there was nothing to write for the user that it read, or the cache
  -- has no profile of this id afterwards.
  pub update_profile_fresh :
      (laws : CacheLaws b) (id : ℤ) (req : UpdateUserProfileRequest) (w w' : World b)
      → is_positive id ≡ true
      → update_profile id req w ≡ (ok tt, w')
      → ((user : User) × ((get_user id w).0 ≡ ok (some user))
          × (build_profile_update user req ≡ ok none))
        ⊎ ((get_user_profile_cache id w').0 ≡ ok none)
  unfolding update_profile
  update_profile_fresh laws id req w w' p h =
      let (row, w1, e1, h1) =
        >>=-eq-ok (get_user id)
          (λ (row : Option User). or_raise row (sentinel user_not_found) >>= λ (user : User).
            lift (build_profile_update user req) >>= λ (u : Option User). write_update id u)
          {w = w} h in
      let (user, w2, e2, h2) =
        >>=-eq-ok (or_raise row (sentinel user_not_found))
          (λ (user : User).
            lift (build_profile_update user req) >>= λ (u : Option User). write_update id u)
          {w = w1} h1 in
      let (update, w3, e3, h3) =
        >>=-eq-ok (lift (build_profile_update user req)) (λ (u : Option User). write_update id u)
          {w = w2} h2 in
      elim (Option-cases update) [
        | inl nothing ↦
            let known : row ≡ some user = or_raise-eq-ok row (sentinel user_not_found) w1 e2 in
            inl (
              user,
              ap (λ (q : Result (Option User) × World b). q.0) e1
                  ∙ ap {B = Result (Option User)} ok known,
              ground arith,
            )
        | inr (u, some_update) ↦ inr (write_update_fresh laws id u w3 w' p (rw some_update at h3))
      ]

  db-set_user_profile_cache :
      (p : UserProfileAggregate) (w : World b) → (set_user_profile_cache p w).1.db ≡ w.db
  unfolding set_user_profile_cache
  db-set_user_profile_cache p w = ground arith

  get_set_profile :
      (laws : CacheLaws b) (p : UserProfileAggregate) (raw : Bytes) (w : World b)
      → b.redis_available ≡ true
      → b.json_profile.marshal p ≡ reply raw
      → b.json_profile.unmarshal raw ≡ some p
      → (get_user_profile_cache p.user_id (set_user_profile_cache p w).1).0 ≡ ok (some p)
  unfolding get_user_profile_cache set_user_profile_cache
  get_set_profile laws p raw w on m u =
      let key = user_profile_cache_key p.user_id in
      rw (on, m, laws.get_set key raw user_profile_cache_ttl w.cache, u) refl

  hit_after_fill :
      (laws : CacheLaws b) (id : ℤ) (p : UserProfileAggregate) (raw : Bytes) (v w' : World b)
      → b.redis_available ≡ true
      → b.json_profile.marshal p ≡ reply raw
      → b.json_profile.unmarshal raw ≡ some p
      → p.user_id ≡ id
      → w' ≡ (set_user_profile_cache p v).1
      → (get_user_profile_cache id w').0 ≡ ok (some p)
  hit_after_fill laws id p raw v w' on m u same last = rw last (
      subst (λ (i : ℤ). (get_user_profile_cache i (set_user_profile_cache p v).1).0 ≡ ok (some p))
        same (get_set_profile laws p raw v on m u))

  db-get_user_profile_cache : (id : ℤ) (w : World b) → (get_user_profile_cache id w).1.db ≡ w.db
  unfolding get_user_profile_cache
  db-get_user_profile_cache id w = ground arith

  fill-eq-ok :
      (q p : UserProfileAggregate) (v w' : World b)
      → fill q v ≡ (ok p, w')
      → (q ≡ p) × (w' ≡ (set_user_profile_cache q v).1)
  unfolding fill set_user_profile_cache
  fill-eq-ok q p v w' h = ground arith

  load_profile-eq-ok :
      (id : ℤ) (p : UserProfileAggregate) (w w' : World b)
      → load_profile id none w ≡ (ok p, w')
      → (v : World b) × (w' ≡ (set_user_profile_cache p v).1)
  unfolding load_profile
  load_profile-eq-ok id p w w' h =
      let (row, w1, e1, h1) =
        >>=-eq-ok (wrapped (codes "get user: ") (get_by_id id))
          (λ (row : Option User).
            or_raise row (sentinel user_not_found) >>= λ (user : User). join_mapping id user)
          {w = w} h in
      let (user, w2, e2, h2) =
        >>=-eq-ok (or_raise row (sentinel user_not_found)) (λ (user : User). join_mapping id user)
          {w = w1} h1 in
      let (link, w3, e3, h3) =
        >>=-eq-ok (wrapped (codes "get user auth mapping: ") (get_by_internal_user_id id))
          (λ (link : Option UserAuthMapping).
            or_raise link (sentinel user_not_found) >>= λ (mapping : UserAuthMapping).
            fill (join user mapping))
          {w = w2} h2 in
      let (mapping, w4, e4, h4) =
        >>=-eq-ok (or_raise link (sentinel user_not_found))
          (λ (mapping : UserAuthMapping). fill (join user mapping)) {w = w3} h3 in
      let (same, last) = fill-eq-ok (join user mapping) p w4 w' h4 in
      (w4, subst (λ (q : UserProfileAggregate). w' ≡ (set_user_profile_cache q w4).1) same last)

  get_user_profile_positive :
      (id : ℤ) (w : World b) {p : UserProfileAggregate} {w' : World b}
      → get_user_profile id w ≡ (ok p, w')
      → is_positive id ≡ true
  unfolding get_user_profile
  get_user_profile_positive id w h = elim (Bool-cases (is_positive id)) [
    | inl yes_positive ↦ yes_positive
    | inr other ↦ cc (ap (λ (q : Result UserProfileAggregate × World b). q.0) (rw other at h))
  ]

  -- Where Redis is available and returns what was just set: if GetUserProfile finds nothing in the
  -- cache and returns a profile of the id that it was asked for, and this profile survives
  -- encoding/json, then GetUserProfile, called again, returns the same profile and leaves the
  -- database as it is.
  pub get_user_profile_again :
      (laws : CacheLaws b) (id : ℤ) (p : UserProfileAggregate) (raw : Bytes) (w w' : World b)
      → b.redis_available ≡ true
      → (get_user_profile_cache id w).0 ≡ ok none
      → get_user_profile id w ≡ (ok p, w')
      → p.user_id ≡ id
      → b.json_profile.marshal p ≡ reply raw
      → b.json_profile.unmarshal raw ≡ some p
      → ((get_user_profile id w').0 ≡ ok p) × ((get_user_profile id w').1.db ≡ w'.db)
  unfolding get_user_profile
  get_user_profile_again laws id p raw w w' on miss h same m u =
      let positive : is_positive id ≡ true = get_user_profile_positive id w h in
      let loaded : load_profile id none (get_user_profile_cache id w).1 ≡ (ok p, w') =
        rw (positive, miss) at h in
      let (v, last) = load_profile-eq-ok id p (get_user_profile_cache id w).1 w' loaded in
      let hit : (get_user_profile_cache id w').0 ≡ ok (some p) =
        hit_after_fill laws id p raw v w' on m u same last in
      (rw (positive, hit) refl, rw (positive, hit) (db-get_user_profile_cache id w'))
