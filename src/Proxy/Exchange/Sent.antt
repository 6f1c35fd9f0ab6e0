-- ===== src/Proxy/Exchange/Sent.antt =====
-- What was sent to Singpass, and received, when GetAccessToken and GetUserInfo return.
use identity_mservice.Base.{
  Bytes, nat_eq, ◌==◌, eq_iff, ◌+◌, ◌*◌, ◌^◌, Bool-cases, Option-cases, some, [], false, ◌≡◌, ◌≢◌,
  refl, sym, arith, ap, inl, inr,
}
use identity_mservice.Model.{Time}
use identity_mservice.Backend.{Backend, Reply, reply, Result, ok}
use identity_mservice.Action.{Result-cases, Reply-cases, of_reply}
use identity_mservice.Proxy.Remote.{on_os}
use identity_mservice.Proxy.Oauth.{SingpassConfig, hex_encode, random_value}
use identity_mservice.Base.Clock.{unix}
use identity_mservice.Proxy.Keys.{
  SigningKey, KeyTools, Assertion, add_seconds, assertion_of, client_assertion,
}
use identity_mservice.Proxy.Exchange.{
  Outside, HttpResponse, ProxyImpl, token_request, read_token, request_token, get_access_token,
}

pub add_seconds-unix : (t : Time) → add_seconds (unix t) 120 ≡ unix (t + 120 * 10 ^ 9)
unfolding add_seconds unix
add_seconds-unix t = ground arith

of_reply-eq-ok : {A : Type 0} (r : Reply A) {a : A} → of_reply r ≡ ok a → r ≡ reply a
of_reply-eq-ok (Reply.reply a) h = cc h
of_reply-eq-ok (Reply.fault m) h = cc h

on_os-eq-ok :
    {N O A : Type 0} (c : O → Reply A × O) (s s' : N × O) {a : A}
    → on_os c s ≡ (ok a, s')
    → (c s.1 ≡ (reply a, s'.1)) × (s'.0 ≡ s.0)
on_os-eq-ok {N} {O} {A} c s s' h =
    let first = of_reply-eq-ok (c s.1).0 (ap (λ (q : Result A × (N × O)). q.0) h) in
    (
      λ i. (first i, ap (λ (q : Result A × (N × O)). q.1.1) h i),
      sym (ap (λ (q : Result A × (N × O)). q.1.0) h),
    )

module _ {b : Backend} {Key : Type 0} (tools : KeyTools b Key) where
  -- The assertion is the signature, under the key, of claims that name the client twice, the
  -- audience, the time read and the one 120 seconds later, and a fresh random value.
  pub record IsSigned (key : SigningKey) (client_id issuer : Bytes) (s : b.Net × b.Os)
      (assertion : Bytes) (s' : b.Net × b.Os) : Type 0 where
    pub claims : Assertion
    pub random : Bytes
    pub drawn : (b.random_bytes 20 (b.now s.1).1).0 ≡ reply random
    pub iss : claims.iss ≡ client_id
    pub sub : claims.sub ≡ client_id
    pub aud : claims.aud ≡ issuer
    pub iat : claims.iat ≡ unix (b.now s.1).0
    pub exp : claims.exp ≡ unix ((b.now s.1).0 + 120 * 10 ^ 9)
    pub jti : claims.jti ≡ hex_encode random
    pub kid : claims.kid ≡ key.kid
    pub signed :
        tools.signed_string key.method key.private_key claims (b.random_bytes 20 (b.now s.1).1).1
        ≡ (reply assertion, s'.1)
    pub net : s'.0 ≡ s.0

  pub client_assertion-IsSigned :
      (key : SigningKey) (client_id issuer : Bytes) (s s' : b.Net × b.Os) (assertion : Bytes)
      → client_assertion tools key client_id issuer s ≡ (ok assertion, s')
      → IsSigned key client_id issuer s assertion s'
  unfolding client_assertion random_value assertion_of
  client_assertion-IsSigned key client_id issuer s s' assertion h =
      let (t, os) = b.now s.1 in
      elim (Reply-cases (b.random_bytes 20 os).0) [
        | inr (m, f) ↦ cc (ap (λ (q : Result Bytes × (b.Net × b.Os)). q.0) (rw f at h))
        | inl (random, f) ↦
            let claims = assertion_of key client_id issuer t (hex_encode random) in
            let (signed, net) =
              on_os-eq-ok (tools.signed_string key.method key.private_key claims)
                (s.0, (b.random_bytes 20 os).1) s' (rw f at h) in
            record {
              claims = claims;
              random = random;
              drawn = f;
              iss = refl;
              sub = refl;
              aud = refl;
              iat = refl;
              exp = add_seconds-unix t;
              jti = refl;
              kid = refl;
              signed = signed;
              net = net;
            }
      ]

module _ {b : Backend} (o : Outside b) (cfg : SingpassConfig) (p : ProxyImpl o) where
  -- The answer to a request that is signed under a key.
  pub record IsAnswer (key : SigningKey) (code : Bytes) (s : b.Net × b.Os) (token : Bytes)
      : Type 0 where
    pub assertion : Bytes
    pub s1 : b.Net × b.Os
    pub signed : IsSigned o.key_tools key p.client_id p.issuer s assertion s1
    pub resp : HttpResponse o.Stream
    pub sent : (o.send (token_request cfg p.client_id code assertion) s1).0 ≡ reply resp
    pub status : resp.status ≡ 200
    pub decoded : o.decode_token resp.body ≡ reply token
    pub token_given : token ≢ []

  -- The exchange of a code for a token.
  pub record IsExchange (code : Bytes) (s : b.Net × b.Os) (token : Bytes) : Type 0 where
    pub key : SigningKey
    pub key_given : p.signing_key ≡ some key
    pub client_id_given : p.client_id ≢ []
    pub issuer_given : p.issuer ≢ []
    pub answer : IsAnswer key code s token

  ne_nil : (s : Bytes) → (s == []) ≡ false → s ≢ []
  ne_nil s h e = ground (arith, eq_iff s [])

  read_token-eq-ok :
      (resp : HttpResponse o.Stream) (s : b.Net × b.Os) (token : Bytes)
      → (read_token o cfg p resp s).0 ≡ ok token
      → (resp.status ≡ 200) × (o.decode_token resp.body ≡ reply token) × (token ≢ [])
  unfolding read_token
  read_token-eq-ok resp s token h = elim (Bool-cases (nat_eq resp.status 200)) [
    | inr other ↦ cc (rw other at h)
    | inl fine ↦ elim (Reply-cases (o.decode_token resp.body)) [
      | inr (m, broken) ↦ cc (rw (fine, broken) at h)
      | inl (t, d) ↦ elim (Bool-cases (t == [])) [
        | inl blank ↦ cc (rw (fine, d, blank) at h)
        | inr given ↦
            let same : ok t ≡ ok token = rw (fine, d, given) at h in
            (ground arith, cc (d, same), λ e. ne_nil t given (cc (e, same)))
      ]
    ]
  ]

  request_token-IsAnswer :
      (key : SigningKey) (code : Bytes) (s : b.Net × b.Os) (token : Bytes)
      → (request_token o cfg p code key s).0 ≡ ok token
      → IsAnswer key code s token
  unfolding request_token
  request_token-IsAnswer key code s token h =
      let s1 = (client_assertion o.key_tools key p.client_id p.issuer s).1 in
      elim (Result-cases (client_assertion o.key_tools key p.client_id p.issuer s).0) [
        | inr (e, f) ↦ cc (rw f at h)
        | inl (assertion, f) ↦ elim (Reply-cases (o.check_url cfg.token_url)) [
          | inr (m, g) ↦ cc (rw (f, g) at h)
          | inl (done, g) ↦
              let request = token_request cfg p.client_id code assertion in
              elim (Reply-cases (o.send request s1).0) [
                | inr (m, sent) ↦ cc (rw (f, g, sent) at h)
                | inl (resp, sent) ↦
                    let (status, decoded, given) =
                      read_token-eq-ok resp (o.send request s1).1 token (rw (f, g, sent) at h) in
                    record {
                      assertion = assertion;
                      s1 = s1;
                      signed =
                          client_assertion-IsSigned o.key_tools key p.client_id p.issuer s s1
                            assertion (λ i. (f i, s1));
                      resp = resp;
                      sent = sent;
                      status = status;
                      decoded = decoded;
                      token_given = given;
                    }
              ]
        ]
      ]

  -- If GetAccessToken returns a token, then the client has a signing key, an id and an audience;
  -- the assertion in the form of the token request was signed under that key, names the client id
  -- as issuer and subject and the audience, was issued at the time read from the clock, expires
  -- 120 seconds after it, and carries the hexadecimal form of 20 random bytes; and the answer to
  -- the request has status 200 and a body with this token, which is not empty.
  pub get_access_token-IsExchange :
      (code : Bytes) (s : b.Net × b.Os) (token : Bytes)
      → (get_access_token o cfg p code s).0 ≡ ok token
      → IsExchange code s token
  unfolding get_access_token
  get_access_token-IsExchange code s token h = elim (Option-cases p.signing_key) [
    | inl missing ↦ cc (rw missing at h)
    | inr (key, k) ↦ elim (Bool-cases (p.client_id == [])) [
      | inl blank ↦ cc (rw (k, blank) at h)
      | inr client ↦ elim (Bool-cases (p.issuer == [])) [
        | inl blank ↦ cc (rw (k, client, blank) at h)
        | inr issuer ↦ record {
          key = key;
          key_given = k;
          client_id_given = ne_nil p.client_id client;
          issuer_given = ne_nil p.issuer issuer;
          answer = request_token-IsAnswer key code s token (rw (k, client, issuer) at h);
        }
      ]
    ]
  ]
