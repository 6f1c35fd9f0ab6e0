-- ===== src/Proxy/Exchange/Received.antt =====
-- What Singpass had answered when GetUserInfo returns a user.
use identity_mservice.Base.{
  Bytes, nat_eq, codes, Bool-cases, Option, some, true, ◌≡◌, ◌⊎◌, arith, inl, inr,
}
use identity_mservice.Base.Text.{has_prefix, trim_space}
use identity_mservice.Backend.{Backend, reply, ok}
use identity_mservice.Action.{Result-cases, Reply-cases}
use identity_mservice.Proxy.Oauth.{UserInfo, SingpassConfig}
use identity_mservice.Proxy.Userinfo.{parse_user_info_response}
use identity_mservice.Proxy.Userinfo.Trusted.{IsSealed, parse_user_info_response-IsSealed}
use identity_mservice.Proxy.Exchange.{
  Outside, HttpResponse, ProxyImpl, user_info_request, read_user_info, get_user_info,
}

module _ {b : Backend} (o : Outside b) (cfg : SingpassConfig) (p : ProxyImpl o) where
  -- Where a user in a response comes from: from JSON as it is, or from a sealed text.
  abbrev pub IsTold : Bytes → UserInfo → Type 0
  IsTold body info =
      ((has_prefix (codes "{") (trim_space body) ≡ true)
        × (o.jose.unmarshal_user_info body ≡ some info))
      ⊎ IsSealed o.jose p.encryption_key p.asp_key_set (trim_space body) info

  -- The answer to the request that bears the token.
  pub record IsFetched (token : Bytes) (s : b.Net × b.Os) (answer : Option UserInfo) : Type 0 where
    pub resp : HttpResponse o.Stream
    pub sent : (o.send (user_info_request cfg token) s).0 ≡ reply resp
    pub status : resp.status ≡ 200
    pub body : Bytes
    pub received : o.read_all resp.body ≡ reply body
    pub info : UserInfo
    pub told : IsTold body info
    pub returned : answer ≡ some info

  pub get_user_info-IsFetched :
      (token : Bytes) (s : b.Net × b.Os) (answer : Option UserInfo)
      → (get_user_info o cfg p token s).0 ≡ ok answer
      → IsFetched token s answer
  unfolding get_user_info read_user_info
  get_user_info-IsFetched token s answer h = elim (Reply-cases (o.check_url cfg.user_info_url)) [
    | inr (m, g) ↦ cc (rw g at h)
    | inl (done, g) ↦ elim (Reply-cases (o.send (user_info_request cfg token) s).0) [
      | inr (m, sent) ↦ cc (rw (g, sent) at h)
      | inl (resp, sent) ↦ elim (Reply-cases (o.read_all resp.body)) [
        | inr (m, r) ↦ cc (rw (g, sent, r) at h)
        | inl (body, r) ↦ elim (Bool-cases (nat_eq resp.status 200)) [
          | inr other ↦ cc (rw (g, sent, r, other) at h)
          | inl fine ↦
              let parsed = parse_user_info_response o.jose p.encryption_key p.asp_key_set body in
              elim (Result-cases parsed) [
                | inr (e, f) ↦ cc (rw (g, sent, r, fine, f) at h)
                | inl (info, f) ↦
                    let same : ok (some info) ≡ ok answer = rw (g, sent, r, fine, f) at h in
                    record {
                      resp = resp;
                      sent = sent;
                      status = ground arith;
                      body = body;
                      received = r;
                      info = info;
                      told =
                          parse_user_info_response-IsSealed o.jose p.encryption_key p.asp_key_set
                            body info f;
                      returned = cc same;
                    }
              ]
        ]
      ]
    ]
  ]
