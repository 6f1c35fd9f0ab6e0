-- ===== src/Proxy/Oauth.antt =====
-- The interface SingpassProxy of server/proxy/singpass_proxy.go, RandomOAuthParam of
-- singpass_signing.go, and BuildAuthorizeURL.
use mathlib.Core.List.{reverse}
pub mod Query
pub mod Random
use identity_mservice.Base.{
  Bytes, ℕ, ◌+◌, ◌-◌, ◌/◌, ◌%◌, codes, ltb, leb, nat_eq, ◌&&◌, ◌||◌, if◌then◌else◌, Bool, [], ◌∷◌,
  ◌++◌, Option, List,
}
use identity_mservice.Base.Text.{trim_space}
use identity_mservice.Backend.{Backend, Result}
use identity_mservice.Action.{Action}
use identity_mservice.Proxy.Remote.{Remote, on_os, pure, ◌>>=◌}

pub record UserInfo : Type 0 where
  pub name : Bytes
  pub email : Bytes
  pub phone : Bytes
  pub address : Bytes
  pub city : Bytes
  pub state : Bytes
  pub zip : Bytes
  pub country : Bytes

-- A proxy uses the network, the clock and the random source. A nil result of `get_user_info`
-- without an error is `none`.
pub record SingpassProxy (b : Backend) : Type 0 where
  pub get_access_token : Bytes → b.Net × b.Os → Result Bytes × (b.Net × b.Os)
  pub get_user_info : Bytes → b.Net × b.Os → Result (Option UserInfo) × (b.Net × b.Os)

-- One digit of hex.EncodeToString, and of the escapes of net/url.
abbrev pub hex_digit : ℕ → ℕ → ℕ
hex_digit ten d = if ltb d 10 then b'0' + d else ten + (d - 10)

unfoldable pub hex_encode : Bytes → Bytes
hex_encode [] = []
hex_encode (c ∷ s) = hex_digit b'a' (c / 16 % 16) ∷ hex_digit b'a' (c % 16) ∷ hex_encode s

-- RandomOAuthParam
unfoldable pub random_value : (b : Backend) → Remote b Bytes
unfolding hex_encode
random_value b = do buf ← on_os (b.random_bytes 20); pure (hex_encode buf)

unfoldable pub random_oauth_param : {b : Backend} → Action b Bytes
unfolding random_value
random_oauth_param {b} w =
    let (r, rest) = random_value b (w.net, w.os) in (r, record w { net = rest.0; os = rest.1 })

-- url.QueryEscape
is_unreserved : ℕ → Bool
is_unreserved c =
    leb b'a' c && leb c b'z'
    || leb b'A' c && leb c b'Z'
    || leb b'0' c && leb c b'9'
    || nat_eq c b'-'
    || nat_eq c b'_'
    || nat_eq c b'.'
    || nat_eq c b'~'

unfoldable pub query_escape : Bytes → Bytes
unfolding is_unreserved
query_escape [] = []
query_escape (c ∷ s) =
    let rest = query_escape s in
    if nat_eq c b' '
    then b'+' ∷ rest
    else if is_unreserved c
    then c ∷ rest
    else b'%' ∷ hex_digit b'A' (c / 16) ∷ hex_digit b'A' (c % 16) ∷ rest

-- strings.TrimRight(s, "/")
drop_slashes : Bytes → Bytes
drop_slashes [] = []
drop_slashes (c ∷ s) = if nat_eq c b'/' then drop_slashes s else c ∷ s

unfoldable pub trim_right_slash : Bytes → Bytes
unfolding drop_slashes
trim_right_slash s = reverse (drop_slashes (reverse s))

-- config.SingpassConfig
pub record SingpassConfig : Type 0 where
  pub redirect_uri : Bytes
  pub scope : Bytes
  pub issuer_url : Bytes
  pub assertion_aud : Bytes
  pub token_url : Bytes
  pub user_info_url : Bytes
  pub jwks_uri : Bytes

unfoldable pub parameter : Bytes × Bytes → Bytes
unfolding query_escape
parameter (key, value) = query_escape key ++ b'=' ∷ query_escape value

-- url.Values.Encode, which sorts by key: the values are given in that order.
unfoldable pub encode_values : List (Bytes × Bytes) → Bytes
unfolding parameter
encode_values [] = []
encode_values (v ∷ []) = parameter v
encode_values (v ∷ w ∷ rest) = parameter v ++ b'&' ∷ encode_values (w ∷ rest)

abbrev pub authorize_values : Backend → SingpassConfig → Bytes → Bytes → List (Bytes × Bytes)
authorize_values b cfg state nonce =
    (codes "client_id", trim_space (b.getenv (codes "SINGPASS_CLIENT_ID")))
    ∷ (codes "nonce", nonce)
    ∷ (codes "redirect_uri", cfg.redirect_uri)
    ∷ (codes "response_type", codes "code")
    ∷ (codes "scope", cfg.scope)
    ∷ (codes "state", state)
    ∷ []

unfoldable pub build_authorize_url : Backend → SingpassConfig → Bytes → Bytes → Bytes
unfolding encode_values trim_right_slash
build_authorize_url b cfg state nonce =
    trim_right_slash cfg.issuer_url
    ++ codes "/auth?"
    ++ encode_values (authorize_values b cfg state nonce)
