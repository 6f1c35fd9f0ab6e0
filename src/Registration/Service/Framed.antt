-- ===== src/Registration/Service/Framed.antt =====
-- CreateUser under a relation of the tables that each call of gorm respects.
use identity_mservice.Base.{
  Bytes, ◌==◌, [], Bool-cases, Option-cases, some, ◌≡◌, inl, inr, sym, ◌∙◌, subst, arith,
}
use identity_mservice.Model.{Time, User, UserAuthMapping}
use identity_mservice.Backend.{Backend, Result}
use identity_mservice.Action.{Action, World, Result-cases}
use identity_mservice.Dao.Users.{create_user_in_transaction}
use identity_mservice.Dao.MappingCache.{get_mapping_from_cache, set_mapping_cache}
use identity_mservice.Dao.Mappings.{
  get_by_clerk_user_id, get_by_email, create_mapping_in_transaction,
}
use identity_mservice.Events.Producer.{KafkaProducer}
use identity_mservice.Registration.ClerkData.{ClerkCallbackData, clerk_user_id, email_address}
use identity_mservice.Registration.Service.Steps.{
  db-random_gen_name, db-announce, db-close_over, db-in_transaction, db-create_mapping,
}
use identity_mservice.Registration.Service.{
  new_user, new_mapping, random_gen_name, insert_pair, closure, in_transaction, enroll, register,
  unless_found, create_user,
}

-- Each call that a registration makes of gorm relates the tables before it to those after it; a
-- transaction does if its closure does.
pub record Frame (b : Backend) (R : b.Db → b.Db → Type 0) : Type 1 where
  pub same : (db : b.Db) → R db db
  pub chain : (x y z : b.Db) → R x y → R y z → R x z
  pub by_clerk : (id : Bytes) (db : b.Db) → (b.first_mapping_by_clerk_user_id id db).1 ≡ db
  pub by_email : (email : Bytes) (db : b.Db) → (b.first_mapping_by_email email db).1 ≡ db
  pub create_user : (user : User) (db : b.Db) → R db (b.create_user user db).1
  pub create_mapping : (m : UserAuthMapping) (db : b.Db) → R db (b.create_mapping m db).1
  pub transaction :
      (S : Type 0) (fc : b.Db × S → Result (Unit {0}) × (b.Db × S)) (db : b.Db) (rest : S)
      → ((begun : b.Db) (s : S) → R begun (fc (begun, s)).1.0)
      → R db (b.transaction S fc (db, rest)).1.0

module _ {b : Backend} where
  module _ (R : b.Db → b.Db → Type 0) (frame : Frame b R) where
    -- A call relates the tables.
    abbrev pub Framed : {A : Type 0} → Action b A → Type 0
    Framed m = (w : World b) → R w.db (m w).1.db

    of_same : (x y : b.Db) → y ≡ x → R x y
    of_same x y e = subst (R x) (sym e) (frame.same x)

    create_user_in_transaction-Framed : (user : User) → Framed (create_user_in_transaction user)
    unfolding create_user_in_transaction
    create_user_in_transaction-Framed user w = elim (Bool-cases b.db_enabled) [
      | inr off ↦ rw off (frame.same w.db)
      | inl on ↦ rw on (frame.create_user user w.db)
    ]

    create_mapping_in_transaction-Framed :
        (m : UserAuthMapping) → Framed (create_mapping_in_transaction m)
    create_mapping_in_transaction-Framed m w = elim (Bool-cases b.db_enabled) [
      | inr off ↦ unfold create_mapping_in_transaction in rw off (frame.same w.db)
      | inl on ↦ rw (db-create_mapping m w on) (frame.create_mapping m w.db)
    ]

    insert_pair-Framed : (id email : Bytes) (user : User) → Framed (insert_pair id email user)
    unfolding insert_pair
    insert_pair-Framed id email user w =
        let v = (create_user_in_transaction user w).1 in
        let first = create_user_in_transaction-Framed user w in
        elim (Result-cases (create_user_in_transaction user w).0) [
          | inr (e, f) ↦ rw f first
          | inl (row, f) ↦
              let u = (create_mapping_in_transaction (new_mapping id email row) v).1 in
              let both =
                frame.chain w.db v.db u.db first
                  (create_mapping_in_transaction-Framed (new_mapping id email row) v) in
              elim (Result-cases (create_mapping_in_transaction (new_mapping id email row) v).0) [
                | inr (e, g) ↦ rw (f, g) both
                | inl (m, g) ↦ rw (f, g) both
              ]
        ]

    closure-Framed :
        (id email : Bytes) (begun : b.Db) (s : World b × User)
        → R begun (closure (insert_pair id email) (begun, s)).1.0
    unfolding closure
    closure-Framed id email begun (w, user) =
        let v : World b = record w { db = begun } in
        let p = insert_pair id email user v in
        rw (db-close_over p.0 user p.1) (insert_pair-Framed id email user v)

    in_transaction-Framed :
        (id email : Bytes) (user : User) → Framed (in_transaction user (insert_pair id email))
    in_transaction-Framed id email user w = rw (db-in_transaction user (insert_pair id email) w) (
        frame.transaction (World b × User) (closure (insert_pair id email)) w.db (w, user)
          (closure-Framed id email))

    enroll-Framed :
        (p : KafkaProducer) (id email name : Bytes) (t : Time) → Framed (enroll p id email name t)
    unfolding enroll
    enroll-Framed p id email name t w =
        let c = in_transaction (new_user name t) (insert_pair id email) w in
        let done = in_transaction-Framed id email (new_user name t) w in
        elim (Result-cases c.0) [
          | inr (e, f) ↦ rw f done
          | inl (row, f) ↦ rw (f, db-announce p row c.1) done
        ]

    register-Framed : (p : KafkaProducer) (id email : Bytes) → Framed (register p id email)
    unfolding register
    register-Framed p id email w =
        let v = (random_gen_name w).1 in
        let (t, os) = b.now v.os in
        elim (Result-cases (random_gen_name w).0) [
          | inr (e, f) ↦ rw f (of_same w.db v.db (db-random_gen_name w))
          | inl (name, f) ↦ rw f (
              subst (λ (db : b.Db). R db (enroll p id email name t (record v { os = os })).1.db)
                (db-random_gen_name w) (enroll-Framed p id email name t (record v { os = os })))
        ]

    db-get_by_email : (email : Bytes) (w : World b) → (get_by_email email w).1.db ≡ w.db
    unfolding get_by_email
    db-get_by_email email w = ground (arith, frame.by_email email w.db)

    db-get_by_clerk_user_id : (id : Bytes) (w : World b) → (get_by_clerk_user_id id w).1.db ≡ w.db
    unfolding get_by_clerk_user_id get_mapping_from_cache set_mapping_cache
    db-get_by_clerk_user_id id w = ground (arith, frame.by_clerk id w.db)

    pub create_user-Framed : (p : KafkaProducer) (d : ClerkCallbackData) → Framed (create_user p d)
    unfolding create_user unless_found
    create_user-Framed p d w =
        let id = clerk_user_id (some d) in
        let email = email_address (some d) in
        let v = (get_by_clerk_user_id id w).1 in
        let u = (get_by_email email v).1 in
        let kept = db-get_by_clerk_user_id id w in
        let kept_both = db-get_by_email email v ∙ kept in
        elim (Bool-cases (email == [])) [
          | inl blank ↦ rw blank (frame.same w.db)
          | inr given ↦ elim (Result-cases (get_by_clerk_user_id id w).0) [
            | inr (e, f) ↦ rw (given, f) (of_same w.db v.db kept)
            | inl (o, f) ↦ elim (Option-cases o) [
              | inr (m, there) ↦ rw (given, f, there) (of_same w.db v.db kept)
              | inl missing ↦ elim (Result-cases (get_by_email email v).0) [
                | inr (e, g) ↦ rw (given, f, missing, g) (of_same w.db u.db kept_both)
                | inl (q, g) ↦ elim (Option-cases q) [
                  | inr (m, there) ↦ rw (given, f, missing, g, there) (of_same w.db u.db kept_both)
                  | inl absent ↦
                      rw (given, f, missing, g, absent)
                        (subst (λ (db : b.Db). R db (register p id email u).1.db) kept_both
                          (register-Framed p id email u))
                ]
              ]
            ]
          ]
        ]
