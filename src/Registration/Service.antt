-- ===== src/Registration/Service.antt =====
-- server/service/user_mapping_service.go
pub mod Committed
pub mod Unique
pub mod Steps
pub mod Framed
use identity_mservice.Base.{
  Bytes, ℕ, zero, suc, ◌+◌, ◌-◌, ◌*◌, ◌^◌, ◌%◌, ℤ, pos, codes, ◌==◌, ◌++◌, if◌then◌else◌, [], ◌∷◌,
  Bool, true, false, Option, none, some, length,
}
use identity_mservice.Base.Decimal.{format_int}
use identity_mservice.Model.{Time, User, UserAuthMapping, role_user, kyc_status_pending}
use identity_mservice.Backend.{Backend, Reply, reply, fault, Result, ok, err}
use identity_mservice.Action.{World, Action, pure, time_now, ◌>>=◌, ◌>>◌}
use identity_mservice.Dao.Users.{create_user_in_transaction}
use identity_mservice.Dao.Mappings.{
  get_by_clerk_user_id, get_by_email, create_mapping_in_transaction,
}
use identity_mservice.Profile.Cache.{invalidate_user_profile_cache}
use identity_mservice.Events.Producer.{KafkaProducer, publish_user_registered}
use identity_mservice.Registration.ClerkData.{ClerkCallbackData, clerk_user_id, email_address}

-- 1970 in nanoseconds since the zero time.
abbrev pub unix_epoch : Time
unix_epoch = 62135596800 * 10 ^ 9

zeros : ℕ → Bytes
zeros zero = []
zeros (suc n) = b'0' ∷ zeros n

-- %06d
unfoldable pub six_digits : ℕ → Bytes
unfolding zeros
six_digits n = zeros (6 - length (format_int (pos n))) ++ format_int (pos n)

abbrev pub new_user : Bytes → Time → User
new_user name created_at = record {
  id = pos 0;
  name = name;
  market = [];
  language = [];
  segment = [];
  kyc_status = kyc_status_pending;
  risk_level = [];
  created_at = created_at;
}

abbrev pub new_mapping : Bytes → Bytes → User → UserAuthMapping
new_mapping clerk_id email user = record {
  id = pos 0;
  clerk_user_id = clerk_id;
  email = email;
  internal_user_id = user.id;
  role = role_user;
  created_at = 0;
  updated_at = 0;
}

module _ {b : Backend} where
  -- The clock is taken to be past 1970 and before the overflow of UnixNano in 2262.
  name_of : Reply ℕ → Action b Bytes
  unfolding six_digits
  name_of (reply n) = pure (codes "User" ++ six_digits n)
  name_of (fault m) = do
    now ← time_now
    pure (codes "User" ++ format_int (pos ((now - unix_epoch) % 1_000_000)))

  unfoldable pub random_gen_name : Action b Bytes
  unfolding name_of
  random_gen_name w = let (r, os) = b.random_int 1_000_000 w.os in name_of r (record w { os = os })

  -- The closure of the transaction: the variable `user` that it captures takes the row's key.
  pub insert_pair : Bytes → Bytes → User → Action b User
  insert_pair clerk_id email user = do
    row ← create_user_in_transaction user
    create_mapping_in_transaction (new_mapping clerk_id email row)
    pure row

  pub close_over : Result User → User → World b → Result (Unit {0}) × (b.Db × (World b × User))
  close_over (ok row) user w = (ok tt, (w.db, (w, row)))
  close_over (err e) user w = (err e, (w.db, (w, user)))

  pub closure :
      (User → Action b User)
      → b.Db × (World b × User)
      → Result (Unit {0}) × (b.Db × (World b × User))
  closure body s = let (r, w) = body s.1.1 (record s.1.0 { db = s.0 }) in close_over r s.1.1 w

  pub leave : Result (Unit {0}) → b.Db → World b → User → Result User × World b
  leave (ok done) db w user = (ok user, record w { db = db })
  leave (err e) db w user = (err e, record w { db = db })

  -- tx.Transaction(func …)
  unfoldable pub in_transaction : User → (User → Action b User) → Action b User
  unfolding closure close_over leave
  in_transaction user body w =
      let (r, s) = b.transaction (World b × User) (closure body) (w.db, (w, user)) in
      leave r s.0 s.1.0 s.1.1

module _ {b : Backend} (producer : KafkaProducer) where
  -- Behind the transaction.
  pub announce : User → Action b (Unit {0})
  announce user = do
    invalidate_user_profile_cache user.id
    publish_user_registered producer user.id user.created_at

  enroll : Bytes → Bytes → Bytes → Time → Action b (Unit {0})
  unfolding announce insert_pair
  enroll clerk_id email name created_at = do
    user ← in_transaction (new_user name created_at) (insert_pair clerk_id email)
    announce user

  -- From the new user on.
  unfoldable pub register : Bytes → Bytes → Action b (Unit {0})
  unfolding enroll
  register clerk_id email = do
    name ← random_gen_name
    created_at ← time_now
    enroll clerk_id email name created_at

  unless_found : Option UserAuthMapping → Action b (Unit {0}) → Action b (Unit {0})
  unless_found (some mapping) rest = pure tt
  unless_found none rest = rest

  unfoldable pub create_user : ClerkCallbackData → Action b (Unit {0})
  unfolding unless_found
  create_user d =
      let clerk_id = clerk_user_id (some d) in
      let email = email_address (some d) in
      if email == [] then pure tt else do
        existing ← get_by_clerk_user_id clerk_id
        unless_found existing do
          user_mapping ← get_by_email email
          unless_found user_mapping (register clerk_id email)
