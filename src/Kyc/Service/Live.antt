-- ===== src/Kyc/Service/Live.antt =====
-- When a Singpass callback completes the check.
use identity_mservice.Base.{
  Bytes, ℕ, ℤ, nat_eq, codes, Bool-cases, is_positive, ◌==◌, ◌++◌, ◌&&◌, not, eq_iff, [], ◌∷◌,
  Option, some, true, false, ◌≡◌, ◌≢◌, ◌⊎◌, inl, inr, refl, arith,
}
use identity_mservice.Model.{UserKycCompleteEvent}
use identity_mservice.Backend.{Backend, reply, ok}
use identity_mservice.Action.{KycPending, World}
use identity_mservice.Dao.Users.{update_kyc_status}
use identity_mservice.Events.Topic.{topic_prefix, prefixed_topic}
use identity_mservice.Base.Decimal.{format_int}
use identity_mservice.Events.Producer.{
  KafkaProducer, nop, client, user_kyc_complete_topic, publish, publish_user_kyc_complete,
}
use identity_mservice.Proxy.Oauth.{UserInfo}
use identity_mservice.Kyc.Email.{emails_match_for_kyc, SameEmail, emails_match_for_kyc_iff}
use identity_mservice.Kyc.Service.{
  KycService, consume_session, on_net, email_of, has_name, status_of, complete_kyc, redeem,
  singpass_callback,
}
use identity_mservice.Kyc.Service.Completed.{Completed, invalidate_lem, complete_kyc-Completed}

-- The event of a check that is completed at `w`, as PublishUserKYCComplete makes it.
abbrev pub completed_event : (b : Backend) → ℤ → Bytes → World b → UserKycCompleteEvent
completed_event b id status w = record {
  user_id = id;
  kyc_status = status;
  kyc_updated_at = (b.now w.os).0;
  event_time = (b.now (b.now w.os).1).0;
}

-- The database takes the status of this user at `w`, encoding/json encodes this one event, and the
-- broker takes its record, or there is no client.
pub record Accepts (b : Backend) (p : KafkaProducer) (id : ℤ) (status : Bytes) (w : World b)
    : Type 0 where
  pub enabled : b.db_enabled ≡ true
  pub stores : (b.update_kyc_status id status w.db).0 ≡ reply tt
  pub timed : (b.now w.os).0 ≢ 0
  pub payload : Bytes
  pub encodes : b.json_kyc_complete.marshal (completed_event b id status w) ≡ reply payload
  pub takes :
      (p ≡ nop)
      ⊎ ((b.produce_sync
            (record {
              topic = prefixed_topic b user_kyc_complete_topic;
              key = format_int id;
              value = payload;
            })
            w.broker).0
          ≡ reply tt)

append_given : (s : Bytes) (c : ℕ) (t : Bytes) → (s ++ c ∷ t == []) ≡ false
unfolding ◌==◌
append_given [] c t = refl
append_given (x ∷ s) c t = refl

module _ {b : Backend} (k : KycService b) where
  -- The state in which Singpass has given the user.
  abbrev pub fetched : Bytes → Bytes → World b → World b
  fetched code token w =
      (on_net (k.singpass_proxy.get_user_info token)
        (on_net (k.singpass_proxy.get_access_token code) w).1).1

topic_given : (b : Backend) → (prefixed_topic b user_kyc_complete_topic == []) ≡ false
unfolding prefixed_topic ◌==◌
topic_given b = elim (Bool-cases (topic_prefix b == [])) [
  | inl blank ↦ rw blank refl
  | inr given ↦ rw given (append_given (topic_prefix b) b'u' (codes "ser.events.kyc_complete"))
]

status_given : (info : Option UserInfo) → (status_of info == []) ≡ false
unfolding ◌==◌
status_given info = elim (Bool-cases (has_name info)) [ inl e ↦ rw e refl | inr e ↦ rw e refl ]

module _ {b : Backend} where
  publish-ok :
      (p : KafkaProducer) (key value : Bytes) (w : World b)
      → (p ≡ nop)
        ⊎ ((b.produce_sync
              (record {
                topic = prefixed_topic b user_kyc_complete_topic;
                key = key;
                value = value;
              })
              w.broker).0
            ≡ reply tt)
      → (publish p user_kyc_complete_topic key value w).0 ≡ ok tt
  unfolding publish
  publish-ok nop key value w takes = refl
  publish-ok client key value w (inl other) = cc other
  publish-ok client key value w (inr taken) = rw (topic_given b, taken) refl

  update_kyc_status-ok :
      (id : ℤ) (status : Bytes) (w : World b)
      → b.db_enabled ≡ true
      → (b.update_kyc_status id status w.db).0 ≡ reply tt
      → update_kyc_status id status w
        ≡ (ok tt, record w { db = (b.update_kyc_status id status w.db).1 })
  unfolding update_kyc_status
  update_kyc_status-ok id status w enabled stores = rw (enabled, stores) refl

  complete_kyc-ok :
      (k : KycService b) (pending : KycPending) (status : Bytes) (w : World b)
      → is_positive pending.internal_user_id ≡ true
      → (status == []) ≡ false
      → Accepts b k.producer pending.internal_user_id status w
      → (complete_kyc k pending status w).0 ≡ ok tt
  unfolding complete_kyc publish_user_kyc_complete
  complete_kyc-ok k pending status w positive given up =
      let id = pending.internal_user_id in
      let (t, os) = b.now w.os in
      let v : World b = record w { os = os; db = (b.update_kyc_status id status w.db).1 } in
      let timed : nat_eq t 0 ≡ false = ground (arith, up.timed) in
      rw
        (
          update_kyc_status-ok id status (record w { os = os }) up.enabled up.stores,
          invalidate_lem id v,
          positive,
          given,
          timed,
          up.encodes,
        )
        (publish-ok k.producer (format_int id) up.payload _ up.takes)

  module _ (k : KycService b) where
    redeem-ok :
        (code token : Bytes) (pending : KycPending) (info : Option UserInfo) (w : World b)
        → is_positive pending.internal_user_id ≡ true
        → (on_net (k.singpass_proxy.get_access_token code) w).0 ≡ ok token
        → (on_net
            (k.singpass_proxy.get_user_info token)
            (on_net (k.singpass_proxy.get_access_token code) w).1).0
          ≡ ok info
        → (pending.email ≡ []) ⊎ SameEmail b pending.email (email_of info)
        → Accepts b k.producer pending.internal_user_id (status_of info) (fetched k code token w)
        → ((redeem k code pending w).0 ≡ ok tt)
          × Completed k pending
              (status_of info)
              (fetched k code token w)
              (redeem k code pending w).1
    unfolding redeem
    redeem-ok code token pending info w positive f g matched up =
        let passes : (not (pending.email == [])
              && not (emails_match_for_kyc b pending.email (email_of info)))
            ≡ false =
          ground (
            arith,
            eq_iff pending.email [],
            emails_match_for_kyc_iff b pending.email (email_of info),
          ) in
        let v = fetched k code token w in
        let done = complete_kyc-ok k pending (status_of info) v positive (status_given info) up in
        (
          rw (f, g, passes) done,
          rw (f, g, passes) (complete_kyc-Completed k pending (status_of info) v done),
        )

    -- If the state of a Singpass callback names a pending session of a user with a positive id,
    -- Singpass gives a token for the code and a user for the token, the email of the session is
    -- empty or matches, and, as the tables, the topics and the clock then are, the database is
    -- enabled and takes the status for this user, the clock does not read the zero time,
    -- encoding/json encodes the event of this check, and the broker takes its record or the
    -- producer is the stand-in: then the callback returns no error, and the tables took the status
    -- that the user's name gives, the cached profile is deleted where Redis is available, and the
    -- event was handed over.
    pub callback_completes :
        (code state token : Bytes) (pending : KycPending) (info : Option UserInfo) (w v : World b)
        → is_positive pending.internal_user_id ≡ true
        → consume_session state w ≡ (ok (some pending), v)
        → (on_net (k.singpass_proxy.get_access_token code) v).0 ≡ ok token
        → (on_net
            (k.singpass_proxy.get_user_info token)
            (on_net (k.singpass_proxy.get_access_token code) v).1).0
          ≡ ok info
        → (pending.email ≡ []) ⊎ SameEmail b pending.email (email_of info)
        → Accepts b k.producer pending.internal_user_id (status_of info) (fetched k code token v)
        → ((singpass_callback k code state w).0 ≡ ok tt)
          × Completed k pending
              (status_of info)
              (fetched k code token v)
              (singpass_callback k code state w).1
    unfolding singpass_callback
    callback_completes code state token pending info w v positive consumed f g matched up =
        let (done, completed) = redeem-ok code token pending info v positive f g matched up in
        (rw consumed done, rw consumed completed)
