-- ===== src/Kyc/Service/Completed.antt =====
-- What a Singpass callback has written when it succeeds.
use identity_mservice.Base.{
  Bytes, ℤ, nat_eq, Bool-cases, is_positive, ◌==◌, [], ◌≡◌, inl, inr, refl, ◌∙◌, arith, true, not,
  ◌||◌, if◌then◌else◌,
}
use identity_mservice.Model.{Time}
use identity_mservice.Backend.{Backend, Record, reply, ok}
use identity_mservice.Action.{Result-cases, Reply-cases, KycPending, World}
use identity_mservice.Dao.Users.{update_kyc_status}
use identity_mservice.Profile.Cache.{invalidate_user_profile_cache, user_profile_cache_key}
use identity_mservice.Events.Topic.{prefixed_topic}
use identity_mservice.Base.Decimal.{format_int}
use identity_mservice.Events.Producer.{
  KafkaProducer, nop, client, user_kyc_complete_topic, publish, publish_user_kyc_complete,
}
use identity_mservice.Kyc.Service.{KycService, complete_kyc}

-- What the broker took: nothing from the stand-in, one record about the user from a client.
abbrev kyc_record : Backend → ℤ → Bytes → Record
kyc_record b user_id payload = record {
  topic = prefixed_topic b user_kyc_complete_topic;
  key = format_int user_id;
  value = payload;
}

abbrev pub Announced : (b : Backend) → KafkaProducer → ℤ → b.Broker → b.Broker → Type 0
Announced b nop user_id old new = new ≡ old
Announced b client user_id old new =
    (payload : Bytes) × ((b.produce_sync (kyc_record b user_id payload) old).0 ≡ reply tt)
    × (new ≡ (b.produce_sync (kyc_record b user_id payload) old).1)

module _ {b : Backend} where
  -- The tables took the status of the session's user, the cached profile is dropped, and the event
  -- was handed over.
  pub record Completed (k : KycService b) (pending : KycPending) (status : Bytes) (w w' : World b)
      : Type 0 where
    pub stored : (b.update_kyc_status pending.internal_user_id status w.db).0 ≡ reply tt
    pub db : w'.db ≡ (b.update_kyc_status pending.internal_user_id status w.db).1
    pub user : is_positive pending.internal_user_id ≡ true
    pub cache : w'.cache ≡ (
        if b.redis_available
        then b.redis_del (user_profile_cache_key pending.internal_user_id) w.cache
        else w.cache)
    pub announced : Announced b k.producer pending.internal_user_id w.broker w'.broker

  announce-publish :
      (p : KafkaProducer) (user_id : ℤ) (payload : Bytes) (w : World b)
      → (publish p user_kyc_complete_topic (format_int user_id) payload w).0 ≡ ok tt
      → let w' = (publish p user_kyc_complete_topic (format_int user_id) payload w).1 in
        Announced b p user_id w.broker w'.broker × (w'.db ≡ w.db) × (w'.cache ≡ w.cache)
  unfolding publish
  announce-publish nop user_id payload w h = (refl, refl, refl)
  announce-publish client user_id payload w h =
      ((payload, ground arith, ground arith), ground arith, ground arith)

  publish_user_kyc_complete-eq-publish :
      (p : KafkaProducer) (user_id : ℤ) (status : Bytes) (t : Time) (w : World b)
      → (publish_user_kyc_complete p user_id status t w).0 ≡ ok tt
      → (is_positive user_id ≡ true)
        × ((payload : Bytes) × (publish_user_kyc_complete p user_id status t w
              ≡ publish p user_kyc_complete_topic
                  (format_int user_id)
                  payload
                  (record w { os = (b.now w.os).1 })))
  unfolding publish_user_kyc_complete
  publish_user_kyc_complete-eq-publish p user_id status t w h =
      elim (Bool-cases (is_positive user_id)) [
        | inr other ↦ ground arith
        | inl positive ↦ elim (Bool-cases (status == [])) [
          | inl blank ↦ ground arith
          | inr given ↦ elim (Bool-cases (nat_eq t 0)) [
            | inl zero_time ↦ ground arith
            | inr timed ↦
                elim (Reply-cases (
                  b.json_kyc_complete.marshal (record {
                    user_id = user_id;
                    kyc_status = status;
                    kyc_updated_at = t;
                    event_time = (b.now w.os).0;
                  }))) [
                    | inl (payload, e) ↦ (positive, (payload, rw (positive, given, timed, e) refl))
                    | inr (m, e) ↦ cc (rw (positive, given, timed, e) at h)
                  ]
          ]
        ]
      ]

  update_kyc_status-eq-ok :
      (user_id : ℤ) (status : Bytes) (w : World b)
      → (update_kyc_status user_id status w).0 ≡ ok tt
      → ((b.update_kyc_status user_id status w.db).0 ≡ reply tt)
        × (update_kyc_status user_id status w
            ≡ (ok tt, record w { db = (b.update_kyc_status user_id status w.db).1 }))
  unfolding update_kyc_status
  update_kyc_status-eq-ok user_id status w h = ground arith

  pub invalidate_lem :
      (user_id : ℤ) (w : World b)
      → invalidate_user_profile_cache user_id w ≡ (
        ok tt,
        record w {
          cache =
              if not b.redis_available || not (is_positive user_id)
              then w.cache
              else b.redis_del (user_profile_cache_key user_id) w.cache;
        },
      )
  unfolding invalidate_user_profile_cache
  invalidate_lem user_id w = ground arith

  -- If the last part of a callback returns no error, then the database accepted the status for the
  -- session's user, the tables are as that write left them, the user's id is positive, the cached
  -- profile of the user is deleted where Redis is available, and the broker took one record about
  -- the user on the topic of completed KYC checks, or nothing where the producer is the stand-in.
  pub complete_kyc-Completed :
      (k : KycService b) (pending : KycPending) (status : Bytes) (w : World b)
      → (complete_kyc k pending status w).0 ≡ ok tt
      → Completed k pending status w (complete_kyc k pending status w).1
  unfolding complete_kyc
  complete_kyc-Completed k pending status w h =
      let id = pending.internal_user_id in
      let (t, os) = b.now w.os in
      elim (Result-cases (update_kyc_status id status (record w { os = os })).0) [
        | inr (e, f) ↦ cc (rw f at h)
        | inl (done, e) ↦
            let (stored, updated) = update_kyc_status-eq-ok id status (record w { os = os }) e in
            let db = (b.update_kyc_status id status w.db).1 in
            let v : World b = record w { os = os; db = db } in
            let dropped = invalidate_lem id v in
            let cleared : b.Cache =
              if not b.redis_available || not (is_positive id)
              then w.cache
              else b.redis_del (user_profile_cache_key id) w.cache in
            let u : World b = record v { cache = cleared } in
            let published : (publish_user_kyc_complete k.producer id status t u).0 ≡ ok tt =
              rw (updated, dropped) at h in
            let (positive, (payload, last)) =
              publish_user_kyc_complete-eq-publish k.producer id status t u published in
            let u' : World b = record u { os = (b.now os).1 } in
            let (announced, same_db, same_cache) =
              announce-publish k.producer id payload u' (rw last at published) in
            rw (updated, dropped, last)
              (record {
                stored = stored;
                db = same_db;
                user = positive;
                cache = same_cache ∙ ground arith;
                announced = announced;
              })
      ]
