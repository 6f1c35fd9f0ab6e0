-- ===== src/Tests/Exchanges.antt =====
-- Runs of the Singpass proxy against a server that always answers.
use identity_mservice.Base.{
  Bytes, ℕ, suc, codes, ◌==◌, ◌++◌, [], ◌∷◌, List, none, some, ◌≡◌, ◌⊎◌, ◌↔◌, refl, arith,
}
use identity_mservice.Backend.{Backend, Reply, reply, ok, err}
use identity_mservice.Model.{message}
use identity_mservice.Proxy.Oauth.{build_authorize_url, trim_right_slash}
use identity_mservice.Proxy.Oauth.Query.{AllBytes, IsQuery, build_authorize_url-parse_values}
use identity_mservice.Proxy.Userinfo.{resolve_jwks_uri}
use identity_mservice.Proxy.Keys.{
  JwkPrivateKey, SigningKey, KeyTools, p256, es256, client_assertion, parse_signing_key,
}
use identity_mservice.Proxy.Keys.Chosen.{IsChosen, parse_signing_key_iff}
use identity_mservice.Proxy.Exchange.{
  Outside, HttpRequest, HttpResponse, ProxyImpl, fetched_keys, load_client_keys, get_singpass_proxy,
  get_access_token,
}
use identity_mservice.Proxy.Exchange.Sent.{IsExchange, get_access_token-IsExchange}
use identity_mservice.Proxy.Exchange.Once.{get_singpass_proxy_once}
use identity_mservice.Events.Producer.{client}
use identity_mservice.Kyc.Service.{singpass_callback}
use identity_mservice.Kyc.Service.Callback.{SameStores}
use identity_mservice.Kyc.Trusted.{Confirmed, kyc_service, callback_confirmed}
use identity_mservice.Base.Text.{trim_space}
use identity_mservice.Tests.Memory.{memory, environment}
use identity_mservice.Tests.Userinfos.{jose}
use identity_mservice.Tests.Callbacks.{config, state, world}

abbrev tools : KeyTools memory Bytes
tools = record {
  decode_base64 = λ s. some s;
  quote = λ s. s;
  marshal_key = λ key. reply key.kid;
  parse_key = λ s. reply s;
  signed_string = λ method key claims t. (reply claims.jti, suc t);
}

abbrev answer : HttpRequest → ℕ × ℕ → Reply (HttpResponse Bytes) × (ℕ × ℕ)
answer request s = (reply (record { status = 200; body = codes "jwe" }), s)

abbrev outside : Outside memory
outside = record {
  jose = jose;
  key_tools = tools;
  parse_key_set = λ s. reply s;
  Stream = Bytes;
  read_all = λ body. reply body;
  decode_token = λ body. reply body;
  decode_jwks = λ s. none;
  check_url = λ url. reply tt;
  send = answer;
}

abbrev signing_key : SigningKey
signing_key = record {
  private_key = record { curve = p256; x = 1; y = 2; d = 3 };
  kid = codes "k1";
  method = es256;
}

abbrev impl : ProxyImpl outside
impl = record {
  client_id = codes "rp";
  issuer = codes "https://singpass";
  signing_key = some signing_key;
  encryption_key = some (codes "k2");
  asp_key_set = some (codes "ks");
}

exchanged : (get_access_token outside config impl (codes "code") (0, 100)).0 ≡ ok (codes "jwe")
unfolding get_access_token ◌==◌ client_assertion
exchanged = refl

get_access_token-IsExchange_example :
    IsExchange outside config impl (codes "code") (0, 100) (codes "jwe")
get_access_token-IsExchange_example =
    get_access_token-IsExchange outside config impl (codes "code") (0, 100) (codes "jwe") exchanged

callback_confirmed_example :
    Confirmed outside config impl client (codes "code") state world
    ⊎ SameStores world
        (singpass_callback
          (kyc_service outside config impl client (codes "code") state world)
          (codes "code")
          state
          world).1
callback_confirmed_example =
    callback_confirmed outside config impl client (codes "code") state world

no_keys :
    (load_client_keys outside
      (fetched_keys outside (resolve_jwks_uri memory config.jwks_uri) (0, 100)).1).0
    ≡ err (
        message
          (codes "set SINGPASS_CLIENT_JWKS_URI or SINGPASS_CLIENT_JWKS with the RP private JWKS"))
unfolding load_client_keys ◌==◌ trim_space environment
no_keys = refl

get_singpass_proxy_once_example :
    get_access_token outside config
      (get_singpass_proxy outside config
        (some (get_singpass_proxy outside config none (0, 100)).0)
        (7, 200)).0
      (codes "code")
      (7, 200)
    ≡ (err (message (codes "singpass signing key is not configured")), (7, 200))
get_singpass_proxy_once_example =
    get_singpass_proxy_once outside config (0, 100) (7, 200)
      (message
        (codes "set SINGPASS_CLIENT_JWKS_URI or SINGPASS_CLIENT_JWKS with the RP private JWKS"))
      (codes "code") no_keys

abbrev key : Bytes → Bytes → JwkPrivateKey
key key_use kid = record {
  kty = codes "EC";
  key_use = key_use;
  crv = codes "P-256";
  kid = kid;
  alg = codes "ES256";
  d = 3 ∷ [];
  x = 1 ∷ [];
  y = 2 ∷ [];
}

abbrev keys : List JwkPrivateKey
keys = key (codes "enc") (codes "k0") ∷ key (codes "sig") (codes "k1") ∷ []

parse_signing_key_iff_example :
    (parse_signing_key tools keys ≡ ok signing_key) ↔ IsChosen tools keys signing_key
parse_signing_key_iff_example = parse_signing_key_iff tools keys signing_key

abbrev client_id : Bytes
client_id = trim_space (memory.getenv (codes "SINGPASS_CLIENT_ID"))

all_bytes :
    AllBytes client_id
    × AllBytes config.redirect_uri
    × AllBytes config.scope
    × AllBytes (codes "s 1")
    × AllBytes (codes "n&2")
unfolding trim_space environment ◌==◌
all_bytes = ground arith

build_authorize_url-parse_values_example :
    (query : Bytes) × (build_authorize_url memory config (codes "s 1") (codes "n&2")
      ≡ trim_right_slash config.issuer_url ++ codes "/auth?" ++ query)
    × IsQuery query client_id config.redirect_uri config.scope (codes "s 1") (codes "n&2")
build_authorize_url-parse_values_example =
    let (h, i, j, k, l) = all_bytes in
    build_authorize_url-parse_values memory config (codes "s 1") (codes "n&2") h i j k l

abbrev twenty : Bytes
twenty = codes "abcdefghijklmnopqrst"

abbrev full : Backend
full = record memory { random_bytes = λ n t. (reply twenty, suc t) }
