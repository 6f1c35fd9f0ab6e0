-- ===== src/Registration/Service/Unique/Deliveries.antt =====
-- The rows over a sequence of deliveries.
use identity_mservice.Base.{
  Bytes, ◌==◌, Bool-cases, Option, Option-cases, some, List, [], ◌∷◌, inl, inr, ap, ◌∙◌, subst,
}
use identity_mservice.Model.{Time, UserAuthMapping}
use identity_mservice.Backend.{Backend, Result, ok}
use identity_mservice.Action.{World, Result-cases}
use identity_mservice.Dao.Mappings.{get_by_clerk_user_id, get_by_email}
use identity_mservice.Events.Producer.{KafkaProducer}
use identity_mservice.Registration.ClerkData.{ClerkCallbackData, clerk_user_id, email_address}
use identity_mservice.Registration.Service.{
  new_user, random_gen_name, insert_pair, in_transaction, enroll, register, unless_found,
  create_user,
}
use identity_mservice.Registration.Service.Steps.{db-random_gen_name, db-announce}
use identity_mservice.Registration.Service.Unique.{
  NoClerk, NoEmail, Unique, TableLaws, Added, Unique-Added,
}
use identity_mservice.Registration.Service.Unique.Reads.{
  rows-by_clerk, absent-by_clerk, rows-by_email, absent-by_email,
}
use identity_mservice.Registration.Service.Unique.Inserts.{rows-in_transaction}

-- The webhook's calls, one after the other.
unfoldable pub deliver : {b : Backend} → KafkaProducer → List ClerkCallbackData → World b → World b
deliver p [] w = w
deliver p (d ∷ ds) w = deliver p ds (create_user p d w).1

module _ {b : Backend} (laws : TableLaws b) where
  rows-enroll :
      (p : KafkaProducer) (id email name : Bytes) (t : Time) (w : World b)
      → Added laws id email w.db (enroll p id email name t w).1.db
  unfolding enroll
  rows-enroll p id email name t w =
      let c = in_transaction (new_user name t) (insert_pair id email) w in
      let done = rows-in_transaction laws id email (new_user name t) w in
      elim (Result-cases c.0) [
        | inr (e, f) ↦ rw f done
        | inl (row, f) ↦ rw (f, db-announce p row c.1) done
      ]

  rows-register :
      (p : KafkaProducer) (id email : Bytes) (w : World b)
      → Added laws id email w.db (register p id email w).1.db
  unfolding register
  rows-register p id email w =
      let v = (random_gen_name w).1 in
      let (t, os) = b.now v.os in
      elim (Result-cases (random_gen_name w).0) [
        | inr (e, f) ↦ rw f (inl (ap laws.rows (db-random_gen_name w)))
        | inl (name, f) ↦ rw f (
            subst
              (λ (db : b.Db).
                Added laws id email db (enroll p id email name t (record v { os = os })).1.db)
              (db-random_gen_name w) (rows-enroll p id email name t (record v { os = os })))
      ]

  pub create_user-Unique :
      (p : KafkaProducer) (d : ClerkCallbackData) (w : World b)
      → Unique (laws.rows w.db)
      → Unique (laws.rows (create_user p d w).1.db)
  unfolding create_user unless_found
  create_user-Unique p d w u =
      let id = clerk_user_id (some d) in
      let email = email_address (some d) in
      let v = (get_by_clerk_user_id id w).1 in
      let v' = (get_by_email email v).1 in
      let kept = rows-by_clerk laws id w in
      let kept' = rows-by_email laws email v ∙ kept in
      elim (Bool-cases (email == [])) [
        | inl blank ↦ rw blank u
        | inr given ↦ elim (Result-cases (get_by_clerk_user_id id w).0) [
          | inr (e, f) ↦ rw (given, f, kept) u
          | inl (o, f) ↦ elim (Option-cases o) [
            | inr (m, there) ↦ rw (given, f, there, kept) u
            | inl missing ↦ elim (Result-cases (get_by_email email v).0) [
              | inr (e, g) ↦ rw (given, f, missing, g, kept') u
              | inl (q, g) ↦ elim (Option-cases q) [
                | inr (m, there) ↦ rw (given, f, missing, g, there, kept') u
                | inl absent ↦
                    let no_id : NoClerk id (laws.rows w.db) =
                      absent-by_clerk laws id w
                        (f ∙ ap {B = Result (Option UserAuthMapping)} ok missing) in
                    let no_email : NoEmail email (laws.rows v.db) =
                      absent-by_email laws email v
                        (g ∙ ap {B = Result (Option UserAuthMapping)} ok absent) in
                    rw (given, f, missing, g, absent)
                      (Unique-Added laws id email v'.db (register p id email v').1.db (rw kept' u)
                        (rw kept' no_id) (rw (rows-by_email laws email v) no_email)
                        (rows-register p id email v'))
              ]
            ]
          ]
        ]
      ]

  -- Where reads of the tables leave the mappings alone and find a row that is there, the insert of
  -- a mapping adds one row with its Clerk id and email, and a transaction leaves the mappings
  -- alone or makes those of one run of its closure that returned nil: if no two mappings have a
  -- Clerk id or an email in common, then so it is after any sequence of calls of CreateUser,
  -- whatever each returned, and whatever the cache of the mappings says.
  pub deliver-Unique :
      (p : KafkaProducer) (ds : List ClerkCallbackData) (w : World b)
      → Unique (laws.rows w.db)
      → Unique (laws.rows (deliver p ds w).db)
  unfolding deliver
  deliver-Unique p [] w u = u
  deliver-Unique p (d ∷ ds) w u =
      deliver-Unique p ds (create_user p d w).1 (create_user-Unique p d w u)
