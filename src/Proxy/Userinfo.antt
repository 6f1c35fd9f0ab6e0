-- ===== src/Proxy/Userinfo.antt =====
-- server/proxy/singpass_userinfo.go: the user in a response of Singpass; and the two addresses that
-- singpass_proxy.go resolves.
pub mod Trusted
use mathlib.Core.List.{reverse}
use identity_mservice.Base.{
  Bytes, codes, ◌==◌, not, if◌then◌else◌, Bool, Option, none, some, List, [], ◌∷◌, length,
}
use identity_mservice.Base.Text.{has_prefix, trim_space, drop}
use identity_mservice.Base.Assoc.{lookup}
use identity_mservice.Model.{message, external, wrap}
use identity_mservice.Backend.{Backend, Result, ok, err}
use identity_mservice.Proxy.Oauth.{UserInfo, SingpassConfig, trim_right_slash}

-- encoding/json at the types of the file, and the packages jwk, jwe and jws.
pub record Jose : Type 1 where
  pub Key : Type 0
  pub KeySet : Type 0
  pub unmarshal_user_info : Bytes → Option UserInfo
  -- AddKey accepts the key
  pub accepts_key : Key → Bool
  pub decrypt : Key → Bytes → Option Bytes
  pub verify : KeySet → Bytes → Option Bytes
  pub unmarshal_claims : Bytes → Option (List (Bytes × Bytes))
  -- the member "value" of an object, and a string
  pub unmarshal_wrapped : Bytes → Option Bytes
  pub unmarshal_plain : Bytes → Option Bytes

-- strings.CutSuffix(s, suffix), `none` where s does not end in it.
unfoldable pub cut_suffix : Bytes → Bytes → Option Bytes
cut_suffix suffix s =
    if has_prefix (reverse suffix) (reverse s)
    then some (reverse (drop (length suffix) (reverse s)))
    else none

or_issuer : SingpassConfig → Option Bytes → Bytes
or_issuer cfg none = trim_right_slash (trim_space cfg.issuer_url)
or_issuer cfg (some base) =
    if not (base == []) then base else trim_right_slash (trim_space cfg.issuer_url)

unfoldable pub resolve_assertion_aud : Option SingpassConfig → Bytes
unfolding or_issuer
resolve_assertion_aud none = []
resolve_assertion_aud (some cfg) =
    let aud = trim_space cfg.assertion_aud in
    let token = trim_space cfg.token_url in
    if not (aud == [])
    then trim_right_slash aud
    else or_issuer cfg (if not (token == []) then cut_suffix (codes "/token") token else none)

unfoldable pub resolve_jwks_uri : Backend → Bytes → Bytes
resolve_jwks_uri b configured =
    let uri = trim_space (b.getenv (codes "SINGPASS_JWKS_URI")) in
    if not (uri == []) then uri else trim_space configured

module _ (jose : Jose) where
  or_empty : Option Bytes → Bytes
  or_empty none = []
  or_empty (some s) = s

  -- A missing claim is an empty text.
  unfoldable pub parse_singpass_claim_value : Bytes → Bytes
  unfolding or_empty
  parse_singpass_claim_value raw =
      if raw == []
      then []
      else if not (or_empty (jose.unmarshal_wrapped raw) == [])
      then or_empty (jose.unmarshal_wrapped raw)
      else or_empty (jose.unmarshal_plain raw)

  unfoldable pub extract_singpass_claim : List (Bytes × Bytes) → Bytes → Bytes
  unfolding or_empty lookup
  extract_singpass_claim claims key = parse_singpass_claim_value (or_empty (lookup key claims))

  user_of_claims : Option (List (Bytes × Bytes)) → UserInfo
  user_of_claims none = record {
    name = [];
    email = [];
    phone = [];
    address = [];
    city = [];
    state = [];
    zip = [];
    country = [];
  }
  user_of_claims (some claims) = record {
    name = extract_singpass_claim claims (codes "name");
    email = extract_singpass_claim claims (codes "email");
    phone = extract_singpass_claim claims (codes "mobileno");
    address = extract_singpass_claim claims (codes "regadd");
    city = [];
    state = [];
    zip = [];
    country = [];
  }

  unfoldable pub map_singpass_claims_to_user_info : Bytes → UserInfo
  unfolding user_of_claims
  map_singpass_claims_to_user_info verified = user_of_claims (jose.unmarshal_claims verified)

  read_verified : Option Bytes → Result UserInfo
  read_verified none = err (wrap (codes "verify userinfo jws: ") (external (codes "jws")))
  read_verified (some verified) = ok (map_singpass_claims_to_user_info verified)

  verify_user_info : jose.KeySet → Option Bytes → Result UserInfo
  unfolding read_verified
  verify_user_info keys none = err (wrap (codes "decrypt userinfo jwe: ") (external (codes "jwe")))
  verify_user_info keys (some decrypted) = read_verified (jose.verify keys decrypted)

  unfoldable pub decrypt_user_info : Option jose.Key → Option jose.KeySet → Bytes → Result UserInfo
  unfolding verify_user_info
  decrypt_user_info none keys encrypted =
      err (message (codes "singpass encryption key is not configured"))
  decrypt_user_info (some key) none encrypted =
      err (message (codes "singpass jwks is not configured"))
  decrypt_user_info (some key) (some keys) encrypted =
      if not (jose.accepts_key key)
      then err (wrap (codes "build decryption key set: ") (external (codes "jwk")))
      else verify_user_info keys (jose.decrypt key encrypted)

  plain_user_info : Option UserInfo → Result UserInfo
  plain_user_info none = err (wrap (codes "parse plain userinfo json: ") (external (codes "json")))
  plain_user_info (some info) = ok info

  unfoldable pub parse_user_info_response :
      Option jose.Key → Option jose.KeySet → Bytes → Result UserInfo
  unfolding plain_user_info
  parse_user_info_response key keys body =
      let trimmed = trim_space body in
      if trimmed == []
      then err (message (codes "empty userinfo response"))
      else if has_prefix (codes "{") trimmed
      then plain_user_info (jose.unmarshal_user_info body)
      else decrypt_user_info key keys trimmed
