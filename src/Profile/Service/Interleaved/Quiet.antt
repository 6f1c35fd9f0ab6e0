-- ===== src/Profile/Service/Interleaved/Quiet.antt =====
-- Overlapping lookups while no update runs.
use identity_mservice.Base.{
  Bytes, ℕ, zero, suc, ℤ, is_positive, not, ◌||◌, ◌≡◌, ◌∙◌, ap, subst, refl, arith, Bool-cases,
  true, ◌⊎◌, Option-cases, some, List, [], ◌∷◌, inl, inr,
}
use identity_mservice.Model.{User, UserAuthMapping, UserProfileAggregate}
use identity_mservice.Backend.{Backend, reply, found, ok}
use identity_mservice.Action.{
  World, one, none_found, read_failed, Reply-cases, Found-cases, Result-cases,
}
use identity_mservice.Dao.Users.{get_by_id}
use identity_mservice.Dao.Mappings.{get_by_internal_user_id}
use identity_mservice.Profile.Cache.{
  user_profile_cache_key, user_profile_cache_ttl, get_user_profile_cache, set_user_profile_cache,
  invalidate_user_profile_cache,
}
use identity_mservice.Profile.Service.{join}
use identity_mservice.Profile.Service.Cached.{CacheLaws}
use identity_mservice.Profile.Service.Interleaved.{
  Move, looking, reading, storing, dropping, updating, NoUpdate, added, at, without, Running,
  read_rows, perform, run_moves,
}

module _ (b : Backend) (id : ℤ) where
  -- A read of Redis changes no value, and a read of the tables changes no row; a row is found by
  -- its key.
  pub record ReadLaws : Type 0 where
    pub cache : CacheLaws b
    pub get_get :
        (key : Bytes) (c : b.Cache)
        → (b.redis_get key (b.redis_get key c).1).0 ≡ (b.redis_get key c).0
    pub user_rows : (db : b.Db) → (b.first_user id db).1 ≡ db
    pub mapping_rows : (db : b.Db) → (b.first_mapping_by_internal_user_id id db).1 ≡ db
    pub user_key : (db : b.Db) (user : User) → (b.first_user id db).0 ≡ found user → user.id ≡ id

  -- The profile that the tables give.
  pub record IsJoined (db : b.Db) (p : UserProfileAggregate) : Type 0 where
    pub user : User
    pub mapping : UserAuthMapping
    pub user_found : (b.first_user id db).0 ≡ found user
    pub mapping_found : (b.first_mapping_by_internal_user_id id db).0 ≡ found mapping
    pub joined : p ≡ join user mapping

  abbrev AllJoined : b.Db → List UserProfileAggregate → Type 0
  AllJoined db [] = Unit
  AllJoined db (p ∷ ps) = IsJoined db p × AllJoined db ps

  -- What Redis has under the key is the encoding of a profile that the tables give.
  abbrev pub Holds : b.Cache → b.Db → Type 0
  Holds c db =
      (raw : Bytes)
      → (b.redis_get (user_profile_cache_key id) c).0 ≡ some raw
      → (p : UserProfileAggregate) × (b.json_profile.marshal p ≡ reply raw) × IsJoined db p

  record Coherent (s : Running b id) : Type 0 where
    filling : AllJoined s.world.db s.filling
    cached : Holds s.world.cache s.world.db

  at-IsJoined :
      (db : b.Db) (n : ℕ) (ps : List UserProfileAggregate) (p : UserProfileAggregate)
      → AllJoined db ps
      → at n ps ≡ some p
      → IsJoined db p
  at-IsJoined db n [] p h e = cc e
  at-IsJoined db zero (q ∷ ps) p (h, hs) e = let same : q ≡ p = cc e in subst (IsJoined db) same h
  at-IsJoined db (suc n) (q ∷ ps) p (h, hs) e = at-IsJoined db n ps p hs e

  without-AllJoined :
      (db : b.Db) (n : ℕ) (ps : List UserProfileAggregate)
      → AllJoined db ps
      → AllJoined db (without n ps)
  without-AllJoined db n [] h = h
  without-AllJoined db zero (q ∷ ps) (h, hs) = hs
  without-AllJoined db (suc n) (q ∷ ps) (h, hs) = (h, without-AllJoined db n ps hs)

  db-read_rows : ReadLaws → (w : World b) → (read_rows b id w).1.db ≡ w.db
  unfolding read_rows get_by_id get_by_internal_user_id
  db-read_rows laws w =
      ground (arith, laws.user_rows w.db, laws.mapping_rows (b.first_user id w.db).1)

  cache-read_rows : (w : World b) → (read_rows b id w).1.cache ≡ w.cache
  unfolding read_rows get_by_id get_by_internal_user_id
  cache-read_rows w = ground arith

  read_rows-IsJoined :
      ReadLaws
      → (w : World b) (p : UserProfileAggregate) → (read_rows b id w).0 ≡ ok p
      → IsJoined w.db p
  unfolding read_rows get_by_id get_by_internal_user_id
  read_rows-IsJoined laws w p h = elim (Bool-cases b.db_enabled) [
    | inr off ↦ cc (rw off at h)
    | inl on ↦ elim (Found-cases (b.first_user id w.db).0) [
      | none_found e ↦ cc (rw (on, e) at h)
      | read_failed m e ↦ cc (rw (on, e) at h)
      | one user e ↦ elim (Bool-cases (is_positive id)) [
        | inr other ↦ cc (rw (on, e, other) at h)
        | inl positive ↦
            let db = (b.first_user id w.db).1 in
            elim (Found-cases (b.first_mapping_by_internal_user_id id db).0) [
              | none_found f ↦ cc (rw (on, e, positive, f) at h)
              | read_failed m f ↦ cc (rw (on, e, positive, f) at h)
              | one mapping f ↦
                  let same : ok (join user mapping) ≡ ok p = rw (on, e, positive, f) at h in
                  record {
                    user = user;
                    mapping = mapping;
                    user_found = e;
                    mapping_found =
                        subst
                          (λ (d : b.Db).
                            (b.first_mapping_by_internal_user_id id d).0 ≡ found mapping)
                          (laws.user_rows w.db) f;
                    joined = cc same;
                  }
            ]
      ]
    ]
  ]

  -- Only a write to the key itself changes what it holds.
  cache-look :
      (w : World b)
      → ((get_user_profile_cache id w).1.cache ≡ w.cache)
        ⊎ ((get_user_profile_cache id w).1.cache
            ≡ (b.redis_get (user_profile_cache_key id) w.cache).1)
        ⊎ ((c : b.Cache) × ((get_user_profile_cache id w).1.cache
              ≡ b.redis_del (user_profile_cache_key id) c))
  unfolding get_user_profile_cache
  cache-look w = elim (Bool-cases (not b.redis_available)) [
    | inl off ↦ inl (rw off refl)
    | inr on ↦ elim (Option-cases (b.redis_get (user_profile_cache_key id) w.cache).0) [
      | inl missing ↦ inr (inl (rw (on, missing) refl))
      | inr (raw, there) ↦ elim (Option-cases (b.json_profile.unmarshal raw)) [
        | inr (p, fine) ↦ inr (inl (rw (on, there, fine) refl))
        | inl garbled ↦ inr (
            inr ((b.redis_get (user_profile_cache_key id) w.cache).1, rw (on, there, garbled) refl))
      ]
    ]
  ]

  db-look : (w : World b) → (get_user_profile_cache id w).1.db ≡ w.db
  unfolding get_user_profile_cache
  db-look w = ground arith

  Holds-del :
      (laws : ReadLaws) (c : b.Cache) (db : b.Db)
      → Holds (b.redis_del (user_profile_cache_key id) c) db
  Holds-del laws c db raw e = cc (laws.cache.get_del (user_profile_cache_key id) c, e)

  Holds-look :
      (laws : ReadLaws) (w : World b)
      → Holds w.cache w.db
      → Holds (get_user_profile_cache id w).1.cache w.db
  Holds-look laws w h = elim (cache-look w) [
    | inl same ↦ rw same h
    | inr (inl read) ↦
        rw read (λ raw e. h raw (cc (laws.get_get (user_profile_cache_key id) w.cache, e)))
    | inr (inr (c, dropped)) ↦ rw dropped (Holds-del laws c w.db)
  ]

  db-store : (p : UserProfileAggregate) (w : World b) → (set_user_profile_cache p w).1.db ≡ w.db
  unfolding set_user_profile_cache
  db-store p w = ground arith

  Holds-store :
      (laws : ReadLaws) (p : UserProfileAggregate) (w : World b)
      → IsJoined w.db p
      → Holds w.cache w.db
      → Holds (set_user_profile_cache p w).1.cache w.db
  unfolding set_user_profile_cache
  Holds-store laws p w j h = elim (Bool-cases (not b.redis_available)) [
    | inl off ↦ rw off h
    | inr on ↦ elim (Reply-cases (b.json_profile.marshal p)) [
      | inr (m, unreadable) ↦ rw (on, unreadable) h
      | inl (value, written) ↦
          let key : p.user_id ≡ id =
            ap (λ (q : UserProfileAggregate). q.user_id) j.joined
            ∙ laws.user_key w.db j.user j.user_found in
          let set =
            laws.cache.get_set (user_profile_cache_key id) value user_profile_cache_ttl w.cache in
          rw (on, written, key)
            (λ raw e. let same : value ≡ raw = cc (set, e) in (p, written ∙ ap reply same, j))
    ]
  ]

  Holds-drop :
      (laws : ReadLaws) (w : World b)
      → Holds w.cache w.db
      → Holds (invalidate_user_profile_cache id w).1.cache w.db
  unfolding invalidate_user_profile_cache
  Holds-drop laws w h = elim (Bool-cases (not b.redis_available || not (is_positive id))) [
    | inl off ↦ rw off h
    | inr on ↦ rw on (Holds-del laws w.cache w.db)
  ]

  db-drop : (w : World b) → (invalidate_user_profile_cache id w).1.db ≡ w.db
  unfolding invalidate_user_profile_cache
  db-drop w = ground arith

  added-AllJoined :
      (laws : ReadLaws) (w : World b) (ps : List UserProfileAggregate)
      → AllJoined w.db ps
      → AllJoined w.db (added (read_rows b id w).0 ps)
  added-AllJoined laws w ps h = elim (Result-cases (read_rows b id w).0) [
    | inl (p, e) ↦ rw e (read_rows-IsJoined laws w p e, h)
    | inr (m, e) ↦ rw e h
  ]

  perform-Coherent :
      (laws : ReadLaws) (m : Move) (s : Running b id)
      → NoUpdate (m ∷ [])
      → Coherent s
      → Coherent (perform b id m s)
  unfolding perform
  perform-Coherent laws looking s n c = record {
    filling = rw (db-look s.world) c.filling;
    cached = rw (db-look s.world) (Holds-look laws s.world c.cached);
  }
  perform-Coherent laws reading s n c = record {
    filling = rw (db-read_rows laws s.world) (added-AllJoined laws s.world s.filling c.filling);
    cached = rw (db-read_rows laws s.world, cache-read_rows s.world) c.cached;
  }
  perform-Coherent laws (storing k) s n c = elim (Option-cases (at k s.filling)) [
    | inl nothing ↦ record {
      filling = rw nothing (without-AllJoined s.world.db k s.filling c.filling);
      cached = rw nothing c.cached;
    }
    | inr (p, there) ↦ record {
      filling = rw (there, db-store p s.world) (without-AllJoined s.world.db k s.filling c.filling);
      cached =
          rw (there, db-store p s.world)
            (Holds-store laws p s.world (at-IsJoined s.world.db k s.filling p c.filling there)
              c.cached);
    }
  ]
  perform-Coherent laws dropping s n c = record {
    filling = rw (db-drop s.world) c.filling;
    cached = rw (db-drop s.world) (Holds-drop laws s.world c.cached);
  }
  perform-Coherent laws (updating user) s n c = absurd n

  run_moves-Coherent :
      (laws : ReadLaws) (ms : List Move) (s : Running b id)
      → NoUpdate ms
      → Coherent s
      → Coherent (run_moves b id ms s)
  unfolding run_moves
  run_moves-Coherent laws [] s n c = c
  run_moves-Coherent laws (looking ∷ ms) s n c =
      run_moves-Coherent laws ms (perform b id looking s) n (perform-Coherent laws looking s tt c)
  run_moves-Coherent laws (reading ∷ ms) s n c =
      run_moves-Coherent laws ms (perform b id reading s) n (perform-Coherent laws reading s tt c)
  run_moves-Coherent laws (storing k ∷ ms) s n c =
      run_moves-Coherent laws ms (perform b id (storing k) s) n
        (perform-Coherent laws (storing k) s tt c)
  run_moves-Coherent laws (dropping ∷ ms) s n c =
      run_moves-Coherent laws ms (perform b id dropping s) n (perform-Coherent laws dropping s tt c)
  run_moves-Coherent laws (updating user ∷ ms) s n c = absurd n

  -- The state behind an invalidation, with no lookup between its read and its write.
  abbrev pub fresh : World b → Running b id
  fresh w = record { world = (invalidate_user_profile_cache id w).1; filling = [] }

  cache-drop :
      (w : World b)
      → b.redis_available ≡ true
      → is_positive id ≡ true
      → (invalidate_user_profile_cache id w).1.cache
        ≡ b.redis_del (user_profile_cache_key id) w.cache
  unfolding invalidate_user_profile_cache
  cache-drop w on p = ground arith

  fresh-Coherent :
      (laws : ReadLaws) (w : World b)
      → b.redis_available ≡ true
      → is_positive id ≡ true
      → Coherent (fresh w)
  fresh-Coherent laws w on p = record {
    filling = tt;
    cached =
        rw (cache-drop w on p) (Holds-del laws w.cache (invalidate_user_profile_cache id w).1.db);
  }

  -- Where Redis is available and returns what was last written to a key, reads change neither its
  -- values nor the tables, and rows are found by their id: after an invalidation of a positive
  -- id's cached profile with no lookup under way, whatever lookups of the id then overlap in
  -- whatever order, with further invalidations and without an update, what Redis holds for the id
  -- is the encoding of the profile that the tables give.
  pub run_moves-Holds :
      (laws : ReadLaws) (ms : List Move) (w : World b)
      → b.redis_available ≡ true
      → is_positive id ≡ true
      → NoUpdate ms
      → Holds (run_moves b id ms (fresh w)).world.cache (run_moves b id ms (fresh w)).world.db
  run_moves-Holds laws ms w on p n =
      (run_moves-Coherent laws ms (fresh w) n (fresh-Coherent laws w on p)).cached
