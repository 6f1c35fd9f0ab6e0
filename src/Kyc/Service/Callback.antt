-- ===== src/Kyc/Service/Callback.antt =====
-- What a Singpass callback has done when it ends.
use identity_mservice.Base.{
  Bytes, ◌==◌, eq_iff, eq_refl, [], ◌≡◌, ◌⊎◌, inl, inr, refl, arith, Option, Option-cases, none,
  Bool-cases, not, ◌&&◌, ◌∙◌,
}
use identity_mservice.Base.Assoc.{lookup}
use identity_mservice.Model.{Time, sentinel, invalid_oauth_state}
use identity_mservice.Backend.{Backend, ok, err}
use identity_mservice.Action.{Result-cases, KycPending, World}
use identity_mservice.Dao.Users.{update_kyc_status}
use identity_mservice.Profile.Cache.{invalidate_user_profile_cache}
use identity_mservice.Events.Producer.{
  KafkaProducer, nop, client, publish, publish_user_kyc_complete,
}
use identity_mservice.Proxy.Oauth.{UserInfo}
use identity_mservice.Kyc.Store.{purge_expired, consume}
use identity_mservice.Kyc.Store.Lookup.{IsMap, consume-IsMap, lookup-consume, consume_lem}
use identity_mservice.Kyc.Email.{emails_match_for_kyc, SameEmail, emails_match_for_kyc_iff}
use identity_mservice.Kyc.Service.{
  KycService, consume_session, on_net, email_of, complete_kyc, redeem, singpass_callback,
}

module _ {b : Backend} where
  items-publish :
      (p : KafkaProducer) (topic key value : Bytes) (w : World b)
      → (publish p topic key value w).1.items ≡ w.items
  unfolding publish
  items-publish nop topic key value w = refl
  items-publish client topic key value w = ground arith

  items-publish_user_kyc_complete :
      (p : KafkaProducer) (id : _) (status : Bytes) (t : Time) (w : World b)
      → (publish_user_kyc_complete p id status t w).1.items ≡ w.items
  unfolding publish_user_kyc_complete
  items-publish_user_kyc_complete p id status t w = grind (arith, items-publish)

  items-invalidate : (id : _) (w : World b) → (invalidate_user_profile_cache id w).1.items ≡ w.items
  unfolding invalidate_user_profile_cache
  items-invalidate id w = ground arith

  items-update_kyc_status :
      (id : _) (status : Bytes) (w : World b) → (update_kyc_status id status w).1.items ≡ w.items
  unfolding update_kyc_status
  items-update_kyc_status id status w = ground arith

  items-complete_kyc :
      (k : KycService b) (pending : KycPending) (status : Bytes) (w : World b)
      → (complete_kyc k pending status w).1.items ≡ w.items
  unfolding complete_kyc
  items-complete_kyc k pending status w =
      grind (arith, items-publish_user_kyc_complete, items-invalidate, items-update_kyc_status)

  -- A call left the tables, the cache and the topics alone.
  pub record SameStores (w w' : World b) : Type 0 where
    pub db : w'.db ≡ w.db
    pub cache : w'.cache ≡ w.cache
    pub broker : w'.broker ≡ w.broker

  -- The call on the process's store is the store's own at two readings of the clock.
  pub record Consumed (state : Bytes) (w : World b) : Type 0 where
    pub purged : Time
    pub checked : Time
    pub result : (consume_session state w).0 ≡ ok (consume purged checked state w.items).0
    pub items : (consume_session state w).1.items ≡ (consume purged checked state w.items).1
    pub same : SameStores w (consume_session state w).1

  pub consume_session_lem : (state : Bytes) (w : World b) → Consumed state w
  unfolding consume_session
  consume_session_lem state w =
      let (p, os) = b.now w.os in
      elim (Option-cases (lookup state (purge_expired p w.items))) [
        | inl missing ↦ record {
          purged = p;
          checked = 0;
          result = rw missing refl;
          items = rw missing refl;
          same = rw missing (record { db = refl; cache = refl; broker = refl });
        }
        | inr (v, there) ↦ record {
          purged = p;
          checked = (b.now os).0;
          result = rw there refl;
          items = rw there refl;
          same = rw there (record { db = refl; cache = refl; broker = refl });
        }
      ]

  module _ (k : KycService b) where
    items-redeem :
        (code : Bytes) (pending : KycPending) (w : World b)
        → (redeem k code pending w).1.items ≡ w.items
    unfolding redeem
    items-redeem code pending w = grind (arith, items-complete_kyc)

    -- Behind the consume no branch of the callback touches the pending sessions.
    pub items-singpass_callback :
        (code state : Bytes) (w : World b)
        → (singpass_callback k code state w).1.items ≡ (consume_session state w).1.items
    unfolding singpass_callback
    items-singpass_callback code state w =
        let c = consume_session_lem state w in
        elim (Option-cases (consume c.purged c.checked state w.items).0) [
          | inl missing ↦ rw (c.result, missing) refl
          | inr (v, there) ↦ rw (c.result, there) (items-redeem code v (consume_session state w).1)
        ]

    -- A callback whose state is not pending does nothing else than report it.
    pub callback_unknown :
        (code state : Bytes) (w : World b)
        → IsMap w.items
        → lookup state w.items ≡ none
        → (singpass_callback k code state w).0 ≡ err (sentinel invalid_oauth_state)
    unfolding singpass_callback
    callback_unknown code state w m e =
        let c = consume_session_lem state w in
        let none_left = consume_lem c.purged c.checked state w.items m in ground (arith, c.result)

    -- Where the pending sessions form a map, a Singpass callback is followed by a second one with
    -- the same state, and any code: the second one returns ErrInvalidOAuthState, however the first
    -- one ended.
    pub callback_once :
        (code code' state : Bytes) (w : World b)
        → IsMap w.items
        → (singpass_callback k code' state (singpass_callback k code state w).1).0
          ≡ err (sentinel invalid_oauth_state)
    callback_once code code' state w m =
        let c = consume_session_lem state w in
        let w' = (singpass_callback k code state w).1 in
        let left : w'.items ≡ (consume c.purged c.checked state w.items).1 =
          items-singpass_callback code state w ∙ c.items in
        callback_unknown code' state w' (rw left (consume-IsMap c.purged c.checked state w.items m))
          (rw left (rw (lookup-consume c.purged c.checked state w.items state m, eq_refl)))

    -- What was established before anything was written.
    pub record Verified (code : Bytes) (pending : KycPending) (w : World b) : Type 0 where
      pub token : Bytes
      pub info : Option UserInfo
      pub exchanged : (on_net (k.singpass_proxy.get_access_token code) w).0 ≡ ok token
      pub fetched :
          (on_net
            (k.singpass_proxy.get_user_info token)
            (on_net (k.singpass_proxy.get_access_token code) w).1).0
          ≡ ok info
      pub matched : (pending.email ≡ []) ⊎ SameEmail b pending.email (email_of info)

    pub redeem_guarded :
        (code : Bytes) (pending : KycPending) (w : World b)
        → Verified code pending w ⊎ SameStores w (redeem k code pending w).1
    unfolding redeem
    redeem_guarded code pending w =
        let (r, v) = on_net (k.singpass_proxy.get_access_token code) w in
        elim (Result-cases r) [
          | inr (e, f) ↦ inr (rw f (record { db = refl; cache = refl; broker = refl }))
          | inl (token, f) ↦
              let (q, u) = on_net (k.singpass_proxy.get_user_info token) v in
              elim (Result-cases q) [
                | inr (e, g) ↦ inr (rw (f, g) (record { db = refl; cache = refl; broker = refl }))
                | inl (info, g) ↦
                    elim (Bool-cases (
                      not (pending.email == [])
                      && not (emails_match_for_kyc b pending.email (email_of info)))) [
                        | inl differ ↦
                            inr (
                              rw (f, g, differ) (record { db = refl; cache = refl; broker = refl }))
                        | inr agree ↦ inl (record {
                          token = token;
                          info = info;
                          exchanged = f;
                          fetched = g;
                          matched = ground (
                            arith,
                            eq_iff pending.email [],
                            emails_match_for_kyc_iff b pending.email (email_of info),
                          );
                        })
                      ]
              ]
        ]
