-- ===== src/Kyc/Trusted.antt =====
-- A Singpass callback with the proxy of server/proxy behind it.
use identity_mservice.Base.{Bytes, ◌≡◌, ◌⊎◌, inl, inr, [], Option, some}
use identity_mservice.Backend.{Backend, ok}
use identity_mservice.Action.{KycPending, World}
use identity_mservice.Events.Producer.{KafkaProducer}
use identity_mservice.Proxy.Oauth.{SingpassConfig, UserInfo}
use identity_mservice.Proxy.Exchange.{Outside, ProxyImpl, get_access_token, singpass_proxy_impl}
use identity_mservice.Proxy.Exchange.Sent.{IsExchange, get_access_token-IsExchange}
use identity_mservice.Proxy.Exchange.Received.{IsFetched, get_user_info-IsFetched}
use identity_mservice.Kyc.Email.{SameEmail}
use identity_mservice.Kyc.Service.{KycService, consume_session, email_of, singpass_callback}
use identity_mservice.Kyc.Service.Callback.{SameStores}
use identity_mservice.Kyc.Service.Outcome.{callback_guarded}

module _ {b : Backend} (o : Outside b) (cfg : SingpassConfig) (p : ProxyImpl o)
    (producer : KafkaProducer) (code state : Bytes) (w : World b) where
  abbrev pub kyc_service : KycService b
  kyc_service = record {
    singpass_proxy = singpass_proxy_impl o cfg p;
    producer = producer;
    config = cfg;
  }

  -- What Singpass had confirmed when something was written.
  pub record Confirmed : Type 0 where
    pub pending : KycPending
    pub token : Bytes
    pub info : Option UserInfo
    pub v : World b
    pub consumed : consume_session state w ≡ (ok (some pending), v)
    pub exchange : IsExchange o cfg p code (v.net, v.os) token
    pub fetched : IsFetched o cfg p token (get_access_token o cfg p code (v.net, v.os)).1 info
    pub matched : (pending.email ≡ []) ⊎ SameEmail b pending.email (email_of info)

  -- Whatever a Singpass callback returns, where the proxy is the one of server/proxy: either the
  -- tables, the cache and the topics are as before, or its state named a pending session, Singpass
  -- answered the signed request for a token with status 200 and a token, and the request that
  -- bears this token with status 200 and a user, who came as JSON or as a text that was decrypted
  -- and verified, and the email of the session is empty or matches the one of that user.
  pub callback_confirmed : Confirmed ⊎ SameStores w (singpass_callback kyc_service code state w).1
  callback_confirmed = elim (callback_guarded kyc_service code state w) [
    | inr same ↦ inr same
    | inl e ↦
        let v = (consume_session state w).1 in
        let checks = e.verified in
        let after = (get_access_token o cfg p code (v.net, v.os)).1 in
        inl (record {
          pending = e.pending;
          token = checks.token;
          info = checks.info;
          v = v;
          consumed = λ i. (e.consumed i, v);
          exchange =
              get_access_token-IsExchange o cfg p code (v.net, v.os) checks.token checks.exchanged;
          fetched = get_user_info-IsFetched o cfg p checks.token after checks.info checks.fetched;
          matched = checks.matched;
        })
  ]
