-- ===== src/Tests/Userinfos.antt =====
-- Runs of the reader of Singpass responses.
use identity_mservice.Proxy.Userinfo.{
  decrypt_user_info, extract_singpass_claim, map_singpass_claims_to_user_info,
  parse_singpass_claim_value,
}
use identity_mservice.Base.{Bytes, ◌==◌, codes, [], ◌∷◌, some, none, true, ◌≡◌, ◌⊎◌, refl}
use identity_mservice.Base.Text.{has_prefix, trim_space}
use identity_mservice.Backend.{ok}
use identity_mservice.Proxy.Oauth.{UserInfo}
use identity_mservice.Proxy.Userinfo.{Jose, parse_user_info_response}
use identity_mservice.Proxy.Userinfo.Trusted.{IsSealed, parse_user_info_response-IsSealed}

abbrev pub jose : Jose
jose = record {
  Key = Bytes;
  KeySet = Bytes;
  unmarshal_user_info = λ body. none;
  accepts_key = λ key. true;
  decrypt = λ key text. some text;
  verify = λ keys text. some text;
  unmarshal_claims = λ text. some ((codes "name", codes "Ann") ∷ []);
  unmarshal_wrapped = λ raw. none;
  unmarshal_plain = λ raw. some raw;
}

abbrev pub ann : UserInfo
ann = record {
  name = codes "Ann";
  email = [];
  phone = [];
  address = [];
  city = [];
  state = [];
  zip = [];
  country = [];
}

reads : parse_user_info_response jose (some (codes "k")) (some (codes "ks")) (codes "jwe") ≡ ok ann
unfolding parse_user_info_response ◌==◌ trim_space decrypt_user_info
    map_singpass_claims_to_user_info extract_singpass_claim parse_singpass_claim_value
reads = refl

parse_user_info_response-IsSealed_example :
    ((has_prefix (codes "{") (trim_space (codes "jwe")) ≡ true)
      × (jose.unmarshal_user_info (codes "jwe") ≡ some ann))
    ⊎ IsSealed jose (some (codes "k")) (some (codes "ks")) (trim_space (codes "jwe")) ann
parse_user_info_response-IsSealed_example =
    parse_user_info_response-IsSealed jose (some (codes "k")) (some (codes "ks")) (codes "jwe") ann
      reads
