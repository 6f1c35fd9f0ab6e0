-- ===== src/Registration/Service/Unique.antt =====
-- server/service/user_mapping_service.go: the table of the mappings over a sequence of deliveries.
pub mod Reads
pub mod Inserts
pub mod Deliveries
use identity_mservice.Base.{
  Bytes, ℤ, is_positive, ◌==◌, not, ◌||◌, Bool-cases, Option, Option-cases, none, some, List, [],
  ◌∷◌, ◌++◌, ◌≡◌, ◌≢◌, ◌⊎◌, inl, inr, refl, sym, ap, ◌∙◌, subst, arith, true, false,
}
use identity_mservice.Model.{Time, User, UserAuthMapping}
use identity_mservice.Backend.{Backend, Result, ok, err, reply, Found, found, not_found, failed}
use identity_mservice.Action.{
  Action, World, >>=-eq-ok, Result-cases, Reply-cases, Found-cases, one, none_found, read_failed,
}
use identity_mservice.Dao.Users.{create_user_in_transaction}
use identity_mservice.Dao.MappingCache.{
  get_mapping_from_cache, set_mapping_cache, delete_mapping_cache,
}
use identity_mservice.Dao.Mappings.{
  get_by_clerk_user_id, get_by_email, create_mapping_in_transaction,
}
use identity_mservice.Profile.Cache.{invalidate_user_profile_cache}
use identity_mservice.Events.Producer.{KafkaProducer, nop, client, publish, publish_user_registered}
use identity_mservice.Registration.ClerkData.{ClerkCallbackData, clerk_user_id, email_address}
use identity_mservice.Registration.Service.{
  new_user, new_mapping, name_of, random_gen_name, insert_pair, closure, close_over, leave,
  in_transaction, announce, enroll, register, unless_found, create_user,
}

abbrev pub NoClerk : Bytes → List UserAuthMapping → Type 0
NoClerk id [] = Unit
NoClerk id (m ∷ ms) = (m.clerk_user_id ≢ id) × NoClerk id ms

abbrev pub NoEmail : Bytes → List UserAuthMapping → Type 0
NoEmail email [] = Unit
NoEmail email (m ∷ ms) = (m.email ≢ email) × NoEmail email ms

-- No two rows have a Clerk id or an email in common.
abbrev pub Unique : List UserAuthMapping → Type 0
Unique [] = Unit
Unique (m ∷ ms) = NoClerk m.clerk_user_id ms × NoEmail m.email ms × Unique ms

NoClerk-snoc :
    (id : Bytes) (ms : List UserAuthMapping) (m : UserAuthMapping)
    → NoClerk id ms
    → m.clerk_user_id ≢ id
    → NoClerk id (ms ++ m ∷ [])
NoClerk-snoc id [] m h n = (n, tt)
NoClerk-snoc id (x ∷ ms) m (k, h) n = (k, NoClerk-snoc id ms m h n)

NoEmail-snoc :
    (email : Bytes) (ms : List UserAuthMapping) (m : UserAuthMapping)
    → NoEmail email ms
    → m.email ≢ email
    → NoEmail email (ms ++ m ∷ [])
NoEmail-snoc email [] m h n = (n, tt)
NoEmail-snoc email (x ∷ ms) m (k, h) n = (k, NoEmail-snoc email ms m h n)

Unique-snoc :
    (ms : List UserAuthMapping) (m : UserAuthMapping)
    → Unique ms
    → NoClerk m.clerk_user_id ms
    → NoEmail m.email ms
    → Unique (ms ++ m ∷ [])
Unique-snoc [] m u c e = (tt, tt, tt)
Unique-snoc (x ∷ ms) m (xc, xe, u) (c, cs) (e, es) = (
  NoClerk-snoc x.clerk_user_id ms m xc (λ p. c (sym p)),
  NoEmail-snoc x.email ms m xe (λ p. e (sym p)),
  Unique-snoc ms m u cs es,
)

-- What gorm promises of the table of the mappings, given by its rows.
pub record TableLaws (b : Backend) : Type 1 where
  pub rows : b.Db → List UserAuthMapping
  pub by_clerk :
      (id : Bytes) (db : b.Db) → rows (b.first_mapping_by_clerk_user_id id db).1 ≡ rows db
  pub no_clerk :
      (id : Bytes) (db : b.Db)
      → (b.first_mapping_by_clerk_user_id id db).0 ≡ not_found
      → NoClerk id (rows db)
  pub by_email : (email : Bytes) (db : b.Db) → rows (b.first_mapping_by_email email db).1 ≡ rows db
  pub no_email :
      (email : Bytes) (db : b.Db)
      → (b.first_mapping_by_email email db).0 ≡ not_found
      → NoEmail email (rows db)
  pub create_user_rows : (user : User) (db : b.Db) → rows (b.create_user user db).1 ≡ rows db
  -- an insert adds the row, but for the columns that the database fills in
  pub create_mapping_rows :
      (m row : UserAuthMapping) (db : b.Db)
      → (b.create_mapping m db).0 ≡ reply row
      → (new : UserAuthMapping) × (new.clerk_user_id ≡ m.clerk_user_id)
        × (new.email ≡ m.email)
        × (rows (b.create_mapping m db).1 ≡ rows db ++ new ∷ [])
  -- a transaction leaves the rows alone or makes those of one run of its closure that returned nil
  pub transaction_rows :
      (S : Type 0) (fc : b.Db × S → Result (Unit {0}) × (b.Db × S)) (db : b.Db) (rest : S)
      → (rows (b.transaction S fc (db, rest)).1.0 ≡ rows db)
        ⊎ ((begun : b.Db) × (rows begun ≡ rows db)
            × ((fc (begun, rest)).0 ≡ ok tt)
            × (rows (b.transaction S fc (db, rest)).1.0 ≡ rows (fc (begun, rest)).1.0))

module _ {b : Backend} (laws : TableLaws b) where
  -- The rows are as before, or one row with the id and the email is added.
  abbrev pub Added : Bytes → Bytes → b.Db → b.Db → Type 0
  Added id email old new =
      (laws.rows new ≡ laws.rows old)
      ⊎ ((m : UserAuthMapping) × (m.clerk_user_id ≡ id)
          × (m.email ≡ email)
          × (laws.rows new ≡ laws.rows old ++ m ∷ []))

  pub Unique-Added :
      (id email : Bytes) (old new : b.Db)
      → Unique (laws.rows old)
      → NoClerk id (laws.rows old)
      → NoEmail email (laws.rows old)
      → Added id email old new
      → Unique (laws.rows new)
  Unique-Added id email old new u c e (inl same) = rw same u
  Unique-Added id email old new u c e (inr (m, mc, me, added)) =
      rw added (Unique-snoc (laws.rows old) m u (rw mc c) (rw me e))
