-- ===== src/Registration/Service/Steps.antt =====
-- The steps of a registration that leave the tables alone, and what a transaction leaves of them.
use identity_mservice.Base.{Bytes, ◌≡◌, inl, inr, refl, arith, true}
use identity_mservice.Model.{User, UserAuthMapping}
use identity_mservice.Backend.{Backend, Result, ok, err}
use identity_mservice.Action.{Action, World, Reply-cases}
use identity_mservice.Dao.MappingCache.{delete_mapping_cache}
use identity_mservice.Dao.Mappings.{create_mapping_in_transaction}
use identity_mservice.Profile.Cache.{invalidate_user_profile_cache}
use identity_mservice.Events.Producer.Quiet.{db-publish}
use identity_mservice.Events.Producer.{KafkaProducer, publish_user_registered}
use identity_mservice.Registration.Service.{
  random_gen_name, closure, close_over, leave, in_transaction, announce,
}

module _ {b : Backend} where
  pub delete_lem :
      (id : Bytes) (w : World b)
      → delete_mapping_cache id w
        ≡ (ok tt, record w { cache = (delete_mapping_cache id w).1.cache })
  unfolding delete_mapping_cache
  delete_lem id w = ground arith

  pub db-random_gen_name : (w : World b) → (random_gen_name w).1.db ≡ w.db
  unfolding random_gen_name
  db-random_gen_name w = ground arith

  pub db-announce :
      (p : KafkaProducer) (user : User) (w : World b) → (announce p user w).1.db ≡ w.db
  unfolding announce invalidate_user_profile_cache publish_user_registered
  db-announce p user w = grind (arith, db-publish)

  pub db-leave :
      (r : Result (Unit {0})) (db : b.Db) (w : World b) (user : User)
      → (leave r db w user).1.db ≡ db
  unfolding leave
  db-leave (ok done) db w user = refl
  db-leave (err e) db w user = refl

  pub db-close_over :
      (r : Result User) (user : User) (w : World b) → (close_over r user w).1.0 ≡ w.db
  unfolding close_over
  db-close_over (ok row) user w = refl
  db-close_over (err e) user w = refl

  pub db-in_transaction :
      (user : User) (body : User → Action b User) (w : World b)
      → (in_transaction user body w).1.db
        ≡ (b.transaction (World b × User) (closure body) (w.db, (w, user))).1.0
  unfolding in_transaction
  db-in_transaction user body w =
      let t = b.transaction (World b × User) (closure body) (w.db, (w, user)) in
      db-leave t.0 t.1.0 t.1.1.0 t.1.1.1

  pub db-create_mapping :
      (m : UserAuthMapping) (w : World b)
      → b.db_enabled ≡ true
      → (create_mapping_in_transaction m w).1.db ≡ (b.create_mapping m w.db).1
  unfolding create_mapping_in_transaction
  db-create_mapping m w on =
      let v : World b = record w { cache = (delete_mapping_cache m.clerk_user_id w).1.cache } in
      let u : World b = record v { db = (b.create_mapping m w.db).1 } in
      elim (Reply-cases (b.create_mapping m w.db).0) [
        | inr (text, e) ↦ rw (on, delete_lem m.clerk_user_id w, e) refl
        | inl (r, e) ↦ rw (on, delete_lem m.clerk_user_id w, e, delete_lem m.clerk_user_id u) refl
      ]
