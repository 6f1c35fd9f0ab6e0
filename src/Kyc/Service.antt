-- ===== src/Kyc/Service.antt =====
-- server/service/kyc_service.go
pub mod Callback
pub mod Outcome
pub mod Completed
pub mod Live
pub mod Written
use identity_mservice.Base.{
  Bytes, ℤ, ◌==◌, ◌&&◌, not, if◌then◌else◌, nat_eq, codes, [], Bool, true, false, Option, none,
  some,
}
use identity_mservice.Base.Assoc.{lookup}
use identity_mservice.Model.{
  Time, sentinel, invalid_oauth_state, kyc_email_mismatch, kyc_status_passed, kyc_status_failed,
}
use identity_mservice.Backend.{Backend, Result, ok}
use identity_mservice.Action.{
  KycPending, World, Action, pure, or_raise, raise_if, wrapped, time_now, ◌>>=◌, ◌>>◌,
}
use identity_mservice.Dao.Users.{update_kyc_status}
use identity_mservice.Profile.Cache.{invalidate_user_profile_cache}
use identity_mservice.Events.Producer.{KafkaProducer, publish_user_kyc_complete}
use identity_mservice.Proxy.Oauth.{
  UserInfo, SingpassProxy, SingpassConfig, random_oauth_param, build_authorize_url,
}
use identity_mservice.Kyc.Store.{default_kyc_state_ttl, Items, purge_expired, save, consume}
use identity_mservice.Kyc.Email.{emails_match_for_kyc}

-- kycServiceImpl, less the data access object and the store, which are in the state.
pub record KycService (b : Backend) : Type 0 where
  pub singpass_proxy : SingpassProxy b
  pub producer : KafkaProducer
  pub config : SingpassConfig

abbrev pub email_of : Option UserInfo → Bytes
email_of none = []
email_of (some info) = info.email

-- userInfo != nil && userInfo.Name != ""
abbrev pub has_name : Option UserInfo → Bool
has_name none = false
has_name (some info) = not (info.name == [])

abbrev pub status_of : Option UserInfo → Bytes
status_of info = if has_name info then kyc_status_passed else kyc_status_failed

module _ {b : Backend} where
  store_session : Time → Time → Bytes → KycPending → Action b (Unit {0})
  store_session saved purged state pending w =
      (ok tt, record w { items = save default_kyc_state_ttl saved purged state pending w.items })

  -- Save of the store, with its readings of the clock.
  unfoldable pub save_session : Bytes → KycPending → Action b (Unit {0})
  unfolding store_session
  save_session state pending = if state == [] then pure tt else do
    saved ← if nat_eq pending.expires_at 0 then time_now else pure 0
    purged ← time_now
    store_session saved purged state pending

  second_reading : Option KycPending → Action b Time
  second_reading none = pure 0
  second_reading (some pending) = time_now

  take_session : Time → Time → Bytes → Action b (Option KycPending)
  take_session purged checked state w =
      let (session, items) = consume purged checked state w.items in
      (ok session, record w { items = items })

  -- Consume of the store: the clock is read again only where an entry is there.
  unfoldable pub consume_session : Bytes → Action b (Option KycPending)
  unfolding second_reading take_session
  consume_session state = do
    purged ← time_now
    checked ← λ w. second_reading (lookup state (purge_expired purged w.items)) w
    take_session purged checked state

  abbrev pub on_net : {A : Type 0} → (b.Net × b.Os → Result A × (b.Net × b.Os)) → Action b A
  on_net c w = let (r, rest) = c (w.net, w.os) in (r, record w { net = rest.0; os = rest.1 })

module _ {b : Backend} (k : KycService b) where
  unfoldable pub start_singpass_login : ℤ → Bytes → Action b Bytes
  start_singpass_login user_id email = do
    state ← wrapped (codes "generate oauth state: ") random_oauth_param
    nonce ← wrapped (codes "generate oauth nonce: ") random_oauth_param
    save_session state (record { internal_user_id = user_id; email = email; expires_at = 0 })
    pure (build_authorize_url b k.config state nonce)

  -- After the email check.
  unfoldable pub complete_kyc : KycPending → Bytes → Action b (Unit {0})
  complete_kyc pending status = do
    kyc_updated_at ← time_now
    update_kyc_status pending.internal_user_id status
    invalidate_user_profile_cache pending.internal_user_id
    publish_user_kyc_complete k.producer pending.internal_user_id status kyc_updated_at

  -- From the access token on.
  unfoldable pub redeem : Bytes → KycPending → Action b (Unit {0})
  redeem code pending = do
    access_token ← on_net (k.singpass_proxy.get_access_token code)
    user_info ← on_net (k.singpass_proxy.get_user_info access_token)
    raise_if
        (not (pending.email == [])
          && not (emails_match_for_kyc b pending.email (email_of user_info)))
        (sentinel kyc_email_mismatch)
    complete_kyc pending (status_of user_info)

  unfoldable pub singpass_callback : Bytes → Bytes → Action b (Unit {0})
  singpass_callback code state = do
    session ← consume_session state
    pending ← or_raise session (sentinel invalid_oauth_state)
    redeem code pending
