-- ===== src/Registration/Service/Committed.antt =====
-- What a registration that succeeds has inserted and announced.
use identity_mservice.Base.{
  Bytes, ℤ, pos, nat_eq, codes, is_positive, Bool-cases, [], ◌≡◌, inl, inr, refl, sym, ◌∙◌, ap,
  subst, arith, true,
}
use identity_mservice.Base.Clock.{unix}
use identity_mservice.Base.Decimal.{format_int}
use identity_mservice.Model.{Time, User, UserAuthMapping, UserRegisteredEvent}
use identity_mservice.Backend.{Backend, Record, Result, ok, err, reply}
use identity_mservice.Action.{Action, World, Reply-cases, time_now, ◌>>=◌, >>=-eq-ok}
use identity_mservice.Dao.Users.{create_user_in_transaction}
use identity_mservice.Dao.Mappings.{create_mapping_in_transaction}
use identity_mservice.Dao.MappingCache.{delete_mapping_cache}
use identity_mservice.Profile.Cache.{invalidate_user_profile_cache}
use identity_mservice.Events.Topic.{prefixed_topic}
use identity_mservice.Events.Producer.{
  KafkaProducer, nop, client, user_registered_topic, publish, publish_user_registered,
}
use identity_mservice.Registration.Service.Steps.{db-random_gen_name, db-announce, delete_lem}
use identity_mservice.Registration.Service.{
  new_user, new_mapping, random_gen_name, insert_pair, closure, close_over, leave, in_transaction,
  announce, enroll, register,
}

-- What gorm documents of db.Transaction, where no other client writes in between: where it returns
-- nil it ran the closure on the tables and the state that it was given, the closure returned nil,
-- and the tables and the state are as the closure left them.
pub record TransactionLaws (b : Backend) : Type 1 where
  pub commits :
      (S : Type 0) (fc : b.Db × S → Result (Unit {0}) × (b.Db × S)) (before : b.Db × S)
      → (b.transaction S fc before).0 ≡ ok tt
      → ((fc before).0 ≡ ok tt) × ((b.transaction S fc before).1 ≡ (fc before).1)

-- One record about the stored row from a client, and nothing from the stand-in.
abbrev pub Announced : (b : Backend) → KafkaProducer → User → b.Broker → b.Broker → Type 0
Announced b nop row old new = new ≡ old
Announced b client row old new =
    (event : UserRegisteredEvent) × (payload : Bytes) × (event.user_id ≡ row.id)
    × (event.register_time ≡ unix row.created_at)
    × (b.json_registered.marshal event ≡ reply payload)
    × (let sent : Record = record {
      topic = prefixed_topic b user_registered_topic;
      key = format_int row.id;
      value = payload;
    } in
        ((b.produce_sync sent old).0 ≡ reply tt) × (new ≡ (b.produce_sync sent old).1))

-- The two inserts that lead from `db` to `db'`: the user, and then a mapping of the Clerk id and
-- the email to the stored row.
pub record Inserted (b : Backend) (clerk_id email : Bytes) (user row : User) (db db' : b.Db)
    : Type 0 where
  pub stored : (b.create_user user db).0 ≡ reply row
  pub mapping : UserAuthMapping
  pub clerk : mapping.clerk_user_id ≡ clerk_id
  pub address : mapping.email ≡ email
  pub owner : mapping.internal_user_id ≡ row.id
  pub role : mapping.role ≡ codes "user"
  pub link : UserAuthMapping
  pub linked : (b.create_mapping mapping (b.create_user user db).1).0 ≡ reply link
  pub tables : db' ≡ (b.create_mapping mapping (b.create_user user db).1).1

module _ {b : Backend} where
  create_user-eq-ok :
      (user row : User) (w w' : World b)
      → create_user_in_transaction user w ≡ (ok row, w')
      → ((b.create_user user w.db).0 ≡ reply row)
        × (w' ≡ record w { db = (b.create_user user w.db).1 })
  unfolding create_user_in_transaction
  create_user-eq-ok user row w w' h = elim (Bool-cases b.db_enabled) [
    | inr off ↦ cc (ap (λ (q : Result User × World b). q.0) (rw off at h))
    | inl on ↦ elim (Reply-cases (b.create_user user w.db).0) [
      | inr (m, e) ↦ cc (ap (λ (q : Result User × World b). q.0) (rw (on, e) at h))
      | inl (r, e) ↦
          let k : (ok r, record w { db = (b.create_user user w.db).1 }) ≡ (ok row, w') =
            rw (on, e) at h in
          let same : r ≡ row = cc (ap (λ (q : Result User × World b). q.0) k) in
          (e ∙ ap reply same, sym (ap (λ (q : Result User × World b). q.1) k))
    ]
  ]

  create_mapping-eq-ok :
      (m link : UserAuthMapping) (w w' : World b)
      → create_mapping_in_transaction m w ≡ (ok link, w')
      → ((b.create_mapping m w.db).0 ≡ reply link)
        × (w'.db ≡ (b.create_mapping m w.db).1)
        × (w'.broker ≡ w.broker)
  unfolding create_mapping_in_transaction
  create_mapping-eq-ok m link w w' h =
      let v : World b = record w { cache = (delete_mapping_cache m.clerk_user_id w).1.cache } in
      let u : World b = record v { db = (b.create_mapping m w.db).1 } in
      elim (Bool-cases b.db_enabled) [
        | inr off ↦ cc (ap (λ (q : Result UserAuthMapping × World b). q.0) (rw off at h))
        | inl on ↦ elim (Reply-cases (b.create_mapping m w.db).0) [
          | inr (x, e) ↦ cc (
              ap (λ (q : Result UserAuthMapping × World b). q.0)
                (rw (on, delete_lem m.clerk_user_id w, e) at h))
          | inl (r, e) ↦
              let k : (ok r, record u { cache = (delete_mapping_cache m.clerk_user_id u).1.cache })
                  ≡ (ok link, w') =
                rw (on, delete_lem m.clerk_user_id w, e, delete_lem m.clerk_user_id u) at h in
              let same : r ≡ link = cc (ap (λ (q : Result UserAuthMapping × World b). q.0) k) in
              (
                e ∙ ap reply same,
                sym (ap (λ (q : Result UserAuthMapping × World b). q.1.db) k),
                sym (ap (λ (q : Result UserAuthMapping × World b). q.1.broker) k),
              )
        ]
      ]

  insert_pair-Inserted :
      (clerk_id email : Bytes) (user row : User) (w w' : World b)
      → insert_pair clerk_id email user w ≡ (ok row, w')
      → Inserted b clerk_id email user row w.db w'.db × (w'.broker ≡ w.broker)
  unfolding insert_pair
  insert_pair-Inserted clerk_id email user row w w' h =
      let (r, v, e, k) = >>=-eq-ok (create_user_in_transaction user) _ h in
      let (link, u, f, l) =
        >>=-eq-ok (create_mapping_in_transaction (new_mapping clerk_id email r)) _ k in
      let same : r ≡ row = cc (ap (λ (q : Result User × World b). q.0) l) in
      let last : u ≡ w' = ap (λ (q : Result User × World b). q.1) l in
      let (stored, first) = create_user-eq-ok user r w v e in
      let (linked, db, broker) = create_mapping-eq-ok (new_mapping clerk_id email r) link v u f in
      (
        record {
          stored = stored ∙ ap reply same;
          mapping = new_mapping clerk_id email r;
          clerk = refl;
          address = refl;
          owner = ap (λ (q : User). q.id) same;
          role = refl;
          link = link;
          linked = rw first at linked;
          tables = ap (λ (q : World b). q.db) (sym last) ∙ (rw first at db);
        },
        ap (λ (q : World b). q.broker) (sym last) ∙ broker ∙ ap (λ (q : World b). q.broker) first,
      )

  captured : b.Db × (World b × User) → Result User × World b
  captured s = (ok s.1.1, record s.1.0 { db = s.0 })

  leave-eq-ok :
      (r : Result (Unit {0})) (s : b.Db × (World b × User)) (row : User) (w' : World b)
      → leave r s.0 s.1.0 s.1.1 ≡ (ok row, w')
      → (r ≡ ok tt) × (captured s ≡ (ok row, w'))
  unfolding leave captured
  leave-eq-ok (ok done) s row w' h = (refl, h)
  leave-eq-ok (err e) s row w' h = cc (ap (λ (q : Result User × World b). q.0) h)

  close_over-eq-ok :
      (r : Result User) (u : User) (v : World b)
      → (close_over r u v).0 ≡ ok tt
      → (row : User) × (r ≡ ok row) × ((close_over r u v).1 ≡ (v.db, (v, row)))
  unfolding close_over
  close_over-eq-ok (ok row) u v h = (row, refl, refl)
  close_over-eq-ok (err e) u v h = cc h

  -- A transaction that succeeds does what its closure does.
  in_transaction-eq-ok :
      TransactionLaws b
      → (body : User → Action b User) (user row : User) (w w' : World b)
      → in_transaction user body w ≡ (ok row, w')
      → body user w ≡ (ok row, w')
  unfolding in_transaction closure captured
  in_transaction-eq-ok laws body user row w w' h =
      let S = World b × User in
      let t = b.transaction S (closure body) (w.db, (w, user)) in
      let (done, left) = leave-eq-ok t.0 t.1 row w' h in
      let (ran, kept) = laws.commits S (closure body) (w.db, (w, user)) done in
      let (row', made, after) = close_over-eq-ok (body user w).0 user (body user w).1 ran in
      let shown : captured t.1 ≡ (ok row', (body user w).1) = ap captured (kept ∙ after) in
      let result : body user w ≡ (ok row', (body user w).1) = λ i. (made i, (body user w).1) in
      result ∙ sym shown ∙ left

  broker-random_gen_name : (w : World b) → (random_gen_name w).1.broker ≡ w.broker
  unfolding random_gen_name
  broker-random_gen_name w = ground arith

  broker-invalidate :
      (id : ℤ) (w : World b) → (invalidate_user_profile_cache id w).1.broker ≡ w.broker
  unfolding invalidate_user_profile_cache
  broker-invalidate id w = ground arith

  publish-eq-ok :
      (p : KafkaProducer) (row : User) (event : UserRegisteredEvent) (payload : Bytes)
      (w w' : World b)
      → event.user_id ≡ row.id
      → event.register_time ≡ unix row.created_at
      → b.json_registered.marshal event ≡ reply payload
      → publish p user_registered_topic (format_int row.id) payload w ≡ (ok tt, w')
      → Announced b p row w.broker w'.broker
  unfolding publish
  publish-eq-ok nop row event payload w w' e f g h =
      sym (ap (λ (q : Result (Unit {0}) × World b). q.1.broker) h)
  publish-eq-ok client row event payload w w' e f g h =
      (event, payload, e, f, g, (ground arith, ground arith))

  publish_user_registered-Announced :
      (p : KafkaProducer) (row : User) (w w' : World b)
      → publish_user_registered p row.id row.created_at w ≡ (ok tt, w')
      → (is_positive row.id ≡ true) × Announced b p row w.broker w'.broker
  unfolding publish_user_registered
  publish_user_registered-Announced p row w w' h =
      let event : UserRegisteredEvent = record {
        user_id = row.id;
        register_time = unix row.created_at;
        channel = [];
        inviter_id = pos 0;
        event_time = (b.now w.os).0;
      } in
      elim (Bool-cases (is_positive row.id)) [
        | inr other ↦ cc (ap (λ (q : Result (Unit {0}) × World b). q.0) (rw other at h))
        | inl positive ↦ elim (Bool-cases (nat_eq row.created_at 0)) [
          | inl zero_time ↦
              cc (ap (λ (q : Result (Unit {0}) × World b). q.0) (rw (positive, zero_time) at h))
          | inr timed ↦ elim (Reply-cases (b.json_registered.marshal event)) [
            | inr (m, e) ↦
                cc (ap (λ (q : Result (Unit {0}) × World b). q.0) (rw (positive, timed, e) at h))
            | inl (payload, e) ↦ (
              positive,
              publish-eq-ok p row event payload (record w { os = (b.now w.os).1 }) w' refl refl e
                  (rw (positive, timed, e) at h),
            )
          ]
        ]
      ]

  -- What leads from `w` to `w'`.
  pub record Registered (producer : KafkaProducer) (clerk_id email : Bytes) (w w' : World b)
      : Type 0 where
    pub user : User
    pub pending : user.kyc_status ≡ codes "PENDING"
    pub placeless : user.market ≡ []
    pub row : User
    pub inserted : Inserted b clerk_id email user row w.db w'.db
    pub id_positive : is_positive row.id ≡ true
    pub announced : Announced b producer row w.broker w'.broker

  module _ (laws : TransactionLaws b) where
    -- Where a transaction that returns nil has run its closure on the tables and the state that it
    -- was given, and left them as the closure did: if a registration returns no error, then the
    -- tables are those that two inserts made of the ones before it, of a user with the KYC status
    -- PENDING and no market, and of a mapping of the Clerk id, the email and the role user to the
    -- id of the stored row; this id is positive; and a client handed over exactly one record, on
    -- the topic of registrations and under this id, which encodes an event with the id and the
    -- time of the stored row, and the stand-in handed over nothing.
    pub register-Registered :
        (producer : KafkaProducer) (clerk_id email : Bytes) (w w' : World b)
        → register producer clerk_id email w ≡ (ok tt, w')
        → Registered producer clerk_id email w w'
    unfolding register
    register-Registered producer clerk_id email w w' h =
        let (name, w1, e1, h1) =
          >>=-eq-ok random_gen_name
            (λ (n : Bytes). time_now >>= λ (t : Time). enroll producer clerk_id email n t) {w = w}
            h in
        let (created_at, w2, e2, h2) =
          >>=-eq-ok time_now (λ (t : Time). enroll producer clerk_id email name t) {w = w1} h1 in
        let (row, w3, e3, h3) =
          >>=-eq-ok (in_transaction (new_user name created_at) (insert_pair clerk_id email))
            (λ (u : User). announce producer u) {w = w2} h2 in
        let (done, w4, e4, h4) =
          >>=-eq-ok (invalidate_user_profile_cache row.id)
            (λ (u : Unit {0}). publish_user_registered producer row.id row.created_at) {w = w3}
            h3 in
        let pair = insert_pair-Inserted clerk_id email (new_user name created_at) row w2 w3 (
          in_transaction-eq-ok laws (insert_pair clerk_id email) (new_user name created_at) row w2
            w3 e3) in
        let begun : w2.db ≡ w.db =
          ap (λ (q : Result Time × World b). q.1.db) (sym e2)
          ∙ ap (λ (q : Result Bytes × World b). q.1.db) (sym e1)
          ∙ db-random_gen_name w in
        let ended : w3.db ≡ w'.db =
          sym (db-announce producer row w3) ∙ ap (λ (q : Result (Unit {0}) × World b). q.1.db) h3 in
        let quiet : w4.broker ≡ w.broker =
          ap (λ (q : Result (Unit {0}) × World b). q.1.broker) (sym e4)
          ∙ broker-invalidate row.id w3
          ∙ pair.1
          ∙ ap (λ (q : Result Time × World b). q.1.broker) (sym e2)
          ∙ ap (λ (q : Result Bytes × World b). q.1.broker) (sym e1)
          ∙ broker-random_gen_name w in
        let (positive, told) = publish_user_registered-Announced producer row w4 w' h4 in
        record {
          user = new_user name created_at;
          pending = refl;
          placeless = refl;
          row = row;
          inserted =
              subst
                (λ (db : b.Db). Inserted b clerk_id email (new_user name created_at) row db w'.db)
                begun
                (subst (Inserted b clerk_id email (new_user name created_at) row w2.db) ended
                  pair.0);
          id_positive = positive;
          announced = subst (λ (old : b.Broker). Announced b producer row old w'.broker) quiet told;
        }
