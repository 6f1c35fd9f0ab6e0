-- ===== src/Proxy/Exchange.antt =====
-- server/proxy/singpass_proxy.go: newSingpassProxy, GetAccessToken and GetUserInfo; fetchJWKS of
-- singpass_userinfo.go and loadClientKeys of singpass_signing.go.
pub mod Sent
pub mod Received
pub mod Once
use identity_mservice.Base.{
  Bytes, ℕ, ℤ, pos, codes, nat_eq, ◌==◌, not, if◌then◌else◌, Option, none, some, List, [], ◌∷◌,
  ◌++◌,
}
use identity_mservice.Base.Text.{trim_space}
use identity_mservice.Base.Decimal.{format_int}
use identity_mservice.Model.{message, external, wrap}
use identity_mservice.Backend.{Backend, Reply, reply, fault, Result, ok, err}
use identity_mservice.Action.{of_reply, wrap_result}
use identity_mservice.Proxy.Remote.{Remote, pure, raise, lift, raise_if, or_external, ◌>>=◌, ◌>>◌}
use identity_mservice.Proxy.Oauth.{UserInfo, SingpassProxy, SingpassConfig, encode_values}
use identity_mservice.Proxy.Keys.{
  JwkPrivateKey, SigningKey, KeyTools, parse_signing_key, parse_encryption_key, client_assertion,
}
use identity_mservice.Proxy.Userinfo.{
  Jose, parse_user_info_response, resolve_assertion_aud, resolve_jwks_uri,
}

pub record HttpRequest : Type 0 where
  pub verb : Bytes
  pub url : Bytes
  pub header : List (Bytes × Bytes)
  pub body : Bytes

pub record HttpResponse (Stream : Type 0) : Type 0 where
  pub status : ℕ
  pub body : Stream

-- What the proxy uses: net/http, io, encoding/json, and the packages for keys and tokens.
pub record Outside (b : Backend) : Type 1 where
  pub jose : Jose
  pub key_tools : KeyTools b jose.Key
  pub parse_key_set : Bytes → Reply jose.KeySet
  -- the body of a response, which reading may fail on
  pub Stream : Type 0
  pub read_all : Stream → Reply Bytes
  -- the member access_token, which is empty where it is missing
  pub decode_token : Stream → Reply Bytes
  pub decode_jwks : Bytes → Option (List JwkPrivateKey)
  -- the error of http.NewRequestWithContext for an address
  pub check_url : Bytes → Reply (Unit {0})
  -- client.Do
  pub send : HttpRequest → b.Net × b.Os → Reply (HttpResponse Stream) × (b.Net × b.Os)

abbrev pub client_assertion_type : Bytes
client_assertion_type = codes "urn:ietf:params:oauth:client-assertion-type:jwt-bearer"

abbrev pub get_request : Bytes → List (Bytes × Bytes) → HttpRequest
get_request url header = record { verb = codes "GET"; url = url; header = header; body = [] }

-- The values of the form, in the order of their keys.
abbrev pub token_form : SingpassConfig → Bytes → Bytes → Bytes → List (Bytes × Bytes)
token_form cfg client_id code assertion =
    (codes "client_assertion", assertion)
    ∷ (codes "client_assertion_type", client_assertion_type)
    ∷ (codes "client_id", client_id)
    ∷ (codes "code", code)
    ∷ (codes "grant_type", codes "authorization_code")
    ∷ (codes "redirect_uri", cfg.redirect_uri)
    ∷ []

unfoldable pub token_request : SingpassConfig → Bytes → Bytes → Bytes → HttpRequest
token_request cfg client_id code assertion = record {
  verb = codes "POST";
  url = cfg.token_url;
  header = (codes "Content-Type", codes "application/x-www-form-urlencoded") ∷ [];
  body = encode_values (token_form cfg client_id code assertion);
}

unfoldable pub user_info_request : SingpassConfig → Bytes → HttpRequest
user_info_request cfg token = get_request cfg.user_info_url (
    (codes "Authorization", codes "Bearer " ++ token)
    ∷ (codes "Accept", codes "application/jwt, application/json")
    ∷ [])

module _ {b : Backend} (o : Outside b) where
  -- singpassProxyImpl, less its HTTP client
  pub record ProxyImpl : Type 0 where
    pub client_id : Bytes
    pub issuer : Bytes
    pub signing_key : Option SigningKey
    pub encryption_key : Option o.jose.Key
    pub asp_key_set : Option o.jose.KeySet

  abbrev pub new_request : Bytes → Remote b (Unit {0})
  new_request url = lift (of_reply (o.check_url url))

  abbrev pub perform : HttpRequest → Remote b (HttpResponse o.Stream)
  perform request s = let (r, s') = o.send request s in (of_reply r, s')

  abbrev wrapped : {A : Type 0} → Bytes → Remote b A → Remote b A
  wrapped m c s = let (r, s') = c s in (wrap_result m r, s')

  unfoldable pub fetch_jwks_raw : Bytes → Remote b Bytes
  fetch_jwks_raw jwks_uri = do
    new_request jwks_uri
    resp ← wrapped (codes "fetch jwks: ") (perform (get_request jwks_uri []))
    body ← lift (of_reply (o.read_all resp.body))
    raise_if (not (nat_eq resp.status 200)) (
        message
          (codes "fetch jwks: status " ++ format_int (pos resp.status) ++ codes " body=" ++ body))
    pure body

  unfoldable pub fetch_jwks : Bytes → Remote b o.jose.KeySet
  unfolding fetch_jwks_raw
  fetch_jwks jwks_uri = do body ← fetch_jwks_raw jwks_uri; lift (of_reply (o.parse_key_set body))

  unfoldable pub load_client_jwks_raw : Remote b Bytes
  unfolding fetch_jwks_raw
  load_client_jwks_raw =
      let uri = trim_space (b.getenv (codes "SINGPASS_CLIENT_JWKS_URI")) in
      let raw = trim_space (b.getenv (codes "SINGPASS_CLIENT_JWKS")) in
      if not (uri == [])
      then fetch_jwks_raw uri
      else if not (raw == [])
      then pure raw
      else raise (
          message
            (codes "set SINGPASS_CLIENT_JWKS_URI or SINGPASS_CLIENT_JWKS with the RP private JWKS"))

  abbrev parsed_jwks : Option (List JwkPrivateKey) → Result (List JwkPrivateKey)
  parsed_jwks none = err (wrap (codes "parse client jwks: ") (external (codes "json")))
  parsed_jwks (some keyset) = ok keyset

  unfoldable pub load_client_keys : Remote b (SigningKey × o.jose.Key)
  unfolding load_client_jwks_raw
  load_client_keys = do
    raw ← load_client_jwks_raw
    keyset ← lift (parsed_jwks (o.decode_jwks raw))
    signing_key ← lift (parse_signing_key o.key_tools keyset)
    encryption_key ← lift (parse_encryption_key o.key_tools keyset)
    pure (signing_key, encryption_key)

  -- A failure is logged, and what it would have given stays nil.
  abbrev pub kept : {A : Type 0} → Result A → Option A
  kept (ok a) = some a
  kept (err e) = none

  unfoldable pub fetched_keys : Bytes → b.Net × b.Os → Option o.jose.KeySet × (b.Net × b.Os)
  unfolding fetch_jwks
  fetched_keys uri s =
      let (r, s') = fetch_jwks uri s in if not (uri == []) then (kept r, s') else (none, s)

  abbrev pub impl_of :
      SingpassConfig → Option o.jose.KeySet → Result (SigningKey × o.jose.Key) → ProxyImpl
  impl_of cfg keys (ok (signing_key, encryption_key)) = record {
    client_id = trim_space (b.getenv (codes "SINGPASS_CLIENT_ID"));
    issuer = resolve_assertion_aud (some cfg);
    signing_key = some signing_key;
    encryption_key = some encryption_key;
    asp_key_set = keys;
  }
  impl_of cfg keys (err e) = record {
    client_id = trim_space (b.getenv (codes "SINGPASS_CLIENT_ID"));
    issuer = resolve_assertion_aud (some cfg);
    signing_key = none;
    encryption_key = none;
    asp_key_set = keys;
  }

  unfoldable pub new_singpass_proxy : SingpassConfig → b.Net × b.Os → ProxyImpl × (b.Net × b.Os)
  unfolding fetched_keys load_client_keys
  new_singpass_proxy cfg s =
      let (keys, s') = fetched_keys (resolve_jwks_uri b cfg.jwks_uri) s in
      let (r, s'') = load_client_keys s' in (impl_of cfg keys r, s'')

  -- GetSingpassProxy: `instance` is the proxy that the process has made, once it has.
  unfoldable pub get_singpass_proxy :
      SingpassConfig → Option ProxyImpl → b.Net × b.Os → ProxyImpl × (b.Net × b.Os)
  unfolding new_singpass_proxy
  get_singpass_proxy cfg none s = new_singpass_proxy cfg s
  get_singpass_proxy cfg (some p) s = (p, s)

  module _ (cfg : SingpassConfig) (p : ProxyImpl) where
    abbrev pub signing_key_or_raise : Option SigningKey → Remote b SigningKey
    signing_key_or_raise none = raise (message (codes "singpass signing key is not configured"))
    signing_key_or_raise (some key) = pure key

    -- From the response on.
    unfoldable pub read_token : HttpResponse o.Stream → Remote b Bytes
    read_token resp = do
      raise_if (not (nat_eq resp.status 200)) (message (codes "failed to get access token"))
      token ← lift (of_reply (o.decode_token resp.body))
      raise_if (token == []) (message (codes "token response missing access_token"))
      pure token

    -- From the client assertion on.
    unfoldable pub request_token : Bytes → SigningKey → Remote b Bytes
    unfolding read_token token_request
    request_token code key = do
      assertion ← client_assertion o.key_tools key p.client_id p.issuer
      new_request cfg.token_url
      resp ← perform (token_request cfg p.client_id code assertion)
      read_token resp

    unfoldable pub get_access_token : Bytes → Remote b Bytes
    unfolding request_token
    get_access_token code = do
      key ← signing_key_or_raise p.signing_key
      raise_if (p.client_id == []) (message (codes "singpass client id is not configured"))
      raise_if (p.issuer == []) (message (codes "singpass issuer url is not configured"))
      request_token code key

    abbrev given : Result UserInfo → Result (Option UserInfo)
    given (ok info) = ok (some info)
    given (err e) = err e

    -- From the response on.
    unfoldable pub read_user_info : HttpResponse o.Stream → Remote b (Option UserInfo)
    read_user_info resp = do
      body ← lift (of_reply (o.read_all resp.body))
      raise_if (not (nat_eq resp.status 200)) (message (codes "failed to get user info"))
      lift (given (parse_user_info_response o.jose p.encryption_key p.asp_key_set body))

    unfoldable pub get_user_info : Bytes → Remote b (Option UserInfo)
    unfolding read_user_info user_info_request
    get_user_info token = do
      new_request cfg.user_info_url
      resp ← perform (user_info_request cfg token)
      read_user_info resp

    -- The implementation as the interface that the KYC service takes.
    abbrev pub singpass_proxy_impl : SingpassProxy b
    singpass_proxy_impl = record {
      get_access_token = get_access_token;
      get_user_info = get_user_info;
    }
