-- ===== src/Kyc/Service/Outcome.antt =====
-- Which Singpass callbacks write.
use identity_mservice.Base.{
  Bytes, ◌==◌, eq_iff, [], ◌≡◌, ◌≢◌, ◌⊎◌, inl, inr, refl, arith, Option, Option-cases, some, false,
}
use identity_mservice.Model.{sentinel, kyc_email_mismatch}
use identity_mservice.Backend.{Backend, ok, err}
use identity_mservice.Action.{KycPending, World}
use identity_mservice.Proxy.Oauth.{UserInfo}
use identity_mservice.Kyc.Store.{consume}
use identity_mservice.Kyc.Email.{emails_match_for_kyc, SameEmail, emails_match_for_kyc_iff}
use identity_mservice.Kyc.Service.{
  KycService, consume_session, on_net, email_of, redeem, singpass_callback,
}
use identity_mservice.Kyc.Service.Callback.{
  SameStores, Verified, consume_session_lem, redeem_guarded,
}

module _ {b : Backend} where
  SameStores-trans : {u v w : World b} → SameStores u v → SameStores v w → SameStores u w
  SameStores-trans h k = record {
    db = cc (h.db, k.db);
    cache = cc (h.cache, k.cache);
    broker = cc (h.broker, k.broker);
  }

  module _ (k : KycService b) (code state : Bytes) (w : World b) where
    -- The session that the state named, and the checks that it passed.
    pub record Entitled : Type 0 where
      pub pending : KycPending
      pub consumed : (consume_session state w).0 ≡ ok (some pending)
      pub verified : Verified k code pending (consume_session state w).1

    -- Whatever a Singpass callback returns: either the tables, the cache and the topics are as
    -- before, or its state named a pending session, Singpass gave a token for its code and a user
    -- for the token, and the email of the session is empty or matches the one that Singpass gave.
    pub callback_guarded : Entitled ⊎ SameStores w (singpass_callback k code state w).1
    unfolding singpass_callback
    callback_guarded =
        let c = consume_session_lem state w in
        let w1 = (consume_session state w).1 in
        elim (Option-cases (consume c.purged c.checked state w.items).0) [
          | inl missing ↦ inr (rw (c.result, missing) c.same)
          | inr (pending, there) ↦
              let f = rw there at c.result in
              elim (redeem_guarded k code pending w1) [
                | inl checks ↦ inl (record { pending = pending; consumed = f; verified = checks })
                | inr same ↦ inr (rw f (SameStores-trans c.same same))
              ]
        ]

    -- If Singpass gives a token for the code and a user for the token, and the email of the
    -- session is not empty and does not match the one of that user, then the callback, from the
    -- exchange of the code on, returns ErrKYCEmailMismatch and leaves the tables, the cache and
    -- the topics as they were.
    redeem_mismatch :
        (pending : KycPending) (token : Bytes) (info : Option UserInfo)
        → (on_net (k.singpass_proxy.get_access_token code) w).0 ≡ ok token
        → (on_net
            (k.singpass_proxy.get_user_info token)
            (on_net (k.singpass_proxy.get_access_token code) w).1).0
          ≡ ok info
        → pending.email ≢ []
        → ¬ SameEmail b pending.email (email_of info)
        → ((redeem k code pending w).0 ≡ err (sentinel kyc_email_mismatch))
          × SameStores w (redeem k code pending w).1
    unfolding redeem
    redeem_mismatch pending token info f g n d =
        let differ : emails_match_for_kyc b pending.email (email_of info) ≡ false =
          ground (arith, emails_match_for_kyc_iff b pending.email (email_of info)) in
        let given : (pending.email == []) ≡ false = ground (arith, eq_iff pending.email []) in
        (
          rw (f, g, given, differ) refl,
          rw (f, g, given, differ) (record { db = refl; cache = refl; broker = refl }),
        )
