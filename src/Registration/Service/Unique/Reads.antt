-- ===== src/Registration/Service/Unique/Reads.antt =====
-- What the reads of a registration, and its last steps, leave of the rows.
use identity_mservice.Base.{Bytes, Bool-cases, Option-cases, none, ◌≡◌, inl, inr, subst, arith}
use identity_mservice.Model.{UserAuthMapping}
use identity_mservice.Backend.{Backend, ok}
use identity_mservice.Action.{World, Result-cases, Found-cases, one, none_found, read_failed}
use identity_mservice.Dao.MappingCache.{get_mapping_from_cache, set_mapping_cache}
use identity_mservice.Dao.Mappings.{get_by_clerk_user_id, get_by_email}
use identity_mservice.Registration.Service.Unique.{NoClerk, NoEmail, TableLaws}

module _ {b : Backend} (laws : TableLaws b) where
  db-from_cache : (id : Bytes) (w : World b) → (get_mapping_from_cache id w).1.db ≡ w.db
  unfolding get_mapping_from_cache
  db-from_cache id w = ground arith

  db-set_cache : (row : UserAuthMapping) (w : World b) → (set_mapping_cache row w).1.db ≡ w.db
  unfolding set_mapping_cache
  db-set_cache row w = ground arith

  set_mapping_cache-ok : (row : UserAuthMapping) (w : World b) → (set_mapping_cache row w).0 ≡ ok tt
  unfolding set_mapping_cache
  set_mapping_cache-ok row w = ground arith

  pub rows-by_clerk :
      (id : Bytes) (w : World b) → laws.rows (get_by_clerk_user_id id w).1.db ≡ laws.rows w.db
  unfolding get_by_clerk_user_id
  rows-by_clerk id w =
      let v = (get_mapping_from_cache id w).1 in
      grind (arith, db-from_cache id w, laws.by_clerk id v.db, db-set_cache)

  pub absent-by_clerk :
      (id : Bytes) (w : World b)
      → (get_by_clerk_user_id id w).0 ≡ ok none
      → NoClerk id (laws.rows w.db)
  unfolding get_by_clerk_user_id
  absent-by_clerk id w h =
      let v = (get_mapping_from_cache id w).1 in
      let c = (get_mapping_from_cache id w).0 in
      elim (Result-cases c) [
        | inr (e, f) ↦ cc (rw f at h)
        | inl (o, f) ↦ elim (Option-cases o) [
          | inr (m, there) ↦ cc (rw (f, there) at h)
          | inl missing ↦ elim (Bool-cases b.db_enabled) [
            | inr off ↦ cc (rw (f, missing, off) at h)
            | inl on ↦ elim (Found-cases (b.first_mapping_by_clerk_user_id id v.db).0) [
              | one m e ↦
                  let u : World b = record v {
                    db = (b.first_mapping_by_clerk_user_id id v.db).1;
                  } in
                  cc (rw (f, missing, on, e, set_mapping_cache-ok m u) at h)
              | read_failed m e ↦ cc (rw (f, missing, on, e) at h)
              | none_found e ↦
                  subst (λ (db : b.Db). NoClerk id (laws.rows db)) (db-from_cache id w)
                    (laws.no_clerk id v.db e)
            ]
          ]
        ]
      ]

  pub rows-by_email :
      (email : Bytes) (w : World b) → laws.rows (get_by_email email w).1.db ≡ laws.rows w.db
  unfolding get_by_email
  rows-by_email email w = ground (arith, laws.by_email email w.db)

  pub absent-by_email :
      (email : Bytes) (w : World b)
      → (get_by_email email w).0 ≡ ok none
      → NoEmail email (laws.rows w.db)
  unfolding get_by_email
  absent-by_email email w h = ground (arith, laws.no_email email w.db)
