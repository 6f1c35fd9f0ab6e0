-- ===== src/Kyc/Service/Written.antt =====
-- What a Singpass callback does to the tables: nothing, or one write of a KYC status.
use identity_mservice.Base.{
  Bytes, ℤ, ◌==◌, ◌&&◌, not, [], some, Bool-cases, ◌≡◌, ◌⊎◌, inl, inr, refl, subst, arith,
}
use identity_mservice.Model.{Time}
use identity_mservice.Backend.{Backend, ok}
use identity_mservice.Action.{KycPending, World, Result-cases, Reply-cases}
use identity_mservice.Dao.Users.{update_kyc_status}
use identity_mservice.Profile.Cache.{invalidate_user_profile_cache}
use identity_mservice.Events.Producer.Quiet.{db-publish}
use identity_mservice.Events.Producer.{KafkaProducer, publish_user_kyc_complete}
use identity_mservice.Kyc.Email.{emails_match_for_kyc}
use identity_mservice.Kyc.Service.{
  KycService, consume_session, on_net, email_of, status_of, complete_kyc, redeem, singpass_callback,
}
use identity_mservice.Kyc.Service.Callback.{consume_session_lem}

-- The KYC status of this user may be written, and nothing else.
abbrev pub OwnWritten : (b : Backend) → ℤ → b.Db → b.Db → Type 0
OwnWritten b id x y = (y ≡ x) ⊎ ((status : Bytes) × (y ≡ (b.update_kyc_status id status x).1))

module _ {b : Backend} where
  db-publish_user_kyc_complete :
      (p : KafkaProducer) (id : ℤ) (status : Bytes) (t : Time) (w : World b)
      → (publish_user_kyc_complete p id status t w).1.db ≡ w.db
  unfolding publish_user_kyc_complete
  db-publish_user_kyc_complete p id status t w = grind (arith, db-publish)

  db-invalidate : (id : ℤ) (w : World b) → (invalidate_user_profile_cache id w).1.db ≡ w.db
  unfolding invalidate_user_profile_cache
  db-invalidate id w = ground arith

  complete_kyc-OwnWritten :
      (k : KycService b) (pending : KycPending) (status : Bytes) (w : World b)
      → OwnWritten b pending.internal_user_id w.db (complete_kyc k pending status w).1.db
  unfolding complete_kyc update_kyc_status
  complete_kyc-OwnWritten k pending status w =
      let id = pending.internal_user_id in
      elim (Bool-cases b.db_enabled) [
        | inr off ↦ inl (rw off refl)
        | inl on ↦ elim (Reply-cases (b.update_kyc_status id status w.db).0) [
          | inr (m, e) ↦ inr (status, rw (on, e) refl)
          | inl (done, e) ↦ inr (status, grind (arith, db-publish_user_kyc_complete, db-invalidate))
        ]
      ]

  redeem-OwnWritten :
      (k : KycService b) (code : Bytes) (pending : KycPending) (w : World b)
      → OwnWritten b pending.internal_user_id w.db (redeem k code pending w).1.db
  unfolding redeem
  redeem-OwnWritten k code pending w =
      let (r, v) = on_net (k.singpass_proxy.get_access_token code) w in
      elim (Result-cases r) [
        | inr (e, f) ↦ inl (rw f refl)
        | inl (token, f) ↦
            let (q, u) = on_net (k.singpass_proxy.get_user_info token) v in
            elim (Result-cases q) [
              | inr (e, g) ↦ inl (rw (f, g) refl)
              | inl (info, g) ↦
                  elim (Bool-cases (
                    not (pending.email == [])
                    && not (emails_match_for_kyc b pending.email (email_of info)))) [
                      | inl differ ↦ inl (rw (f, g, differ) refl)
                      | inr agree ↦
                          rw (f, g, agree) (complete_kyc-OwnWritten k pending (status_of info) u)
                    ]
            ]
      ]

  pub singpass_callback-OwnWritten :
      (k : KycService b) (code state : Bytes) (pending : KycPending) (w : World b)
      → (consume_session state w).0 ≡ ok (some pending)
      → OwnWritten b pending.internal_user_id w.db (singpass_callback k code state w).1.db
  unfolding singpass_callback
  singpass_callback-OwnWritten k code state pending w there = rw there (
      subst
        (λ (db : b.Db).
          OwnWritten b pending.internal_user_id db
            (redeem k code pending (consume_session state w).1).1.db)
        (consume_session_lem state w).same.db
        (redeem-OwnWritten k code pending (consume_session state w).1))
