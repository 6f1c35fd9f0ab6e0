-- ===== src/Proxy/Userinfo/Trusted.antt =====
-- Which responses of Singpass give a user.
use identity_mservice.Base.{
  Bytes, codes, ◌==◌, Bool-cases, not, Option, Option-cases, none, some, [], true, ◌≡◌, ◌⊎◌, inl,
  inr, refl,
}
use identity_mservice.Base.Text.{has_prefix, trim_space}
use identity_mservice.Backend.{ok}
use identity_mservice.Proxy.Oauth.{UserInfo}
use identity_mservice.Proxy.Userinfo.{
  Jose, map_singpass_claims_to_user_info, read_verified, verify_user_info, decrypt_user_info,
  plain_user_info, parse_user_info_response,
}

module _ (jose : Jose) where
  -- The text was decrypted under the client's key and signed under a key of Singpass.
  pub record IsSealed (key : Option jose.Key) (keys : Option jose.KeySet) (text : Bytes)
      (info : UserInfo) : Type 0 where
    pub client_key : jose.Key
    pub client_key_given : key ≡ some client_key
    pub singpass_keys : jose.KeySet
    pub singpass_keys_given : keys ≡ some singpass_keys
    pub decrypted : Bytes
    pub decrypts : jose.decrypt client_key text ≡ some decrypted
    pub verified : Bytes
    pub verifies : jose.verify singpass_keys decrypted ≡ some verified
    pub mapped : info ≡ map_singpass_claims_to_user_info jose verified

  decrypt_user_info-IsSealed :
      (key : Option jose.Key) (keys : Option jose.KeySet) (text : Bytes) (info : UserInfo)
      → decrypt_user_info jose key keys text ≡ ok info
      → IsSealed key keys text info
  unfolding decrypt_user_info verify_user_info read_verified
  decrypt_user_info-IsSealed none keys text info h = cc h
  decrypt_user_info-IsSealed (some key) none text info h = cc h
  decrypt_user_info-IsSealed (some key) (some keys) text info h =
      elim (Bool-cases (not (jose.accepts_key key))) [
        | inl refused ↦ cc (rw refused at h)
        | inr accepted ↦ elim (Option-cases (jose.decrypt key text)) [
          | inl broken ↦ cc (rw (accepted, broken) at h)
          | inr (decrypted, d) ↦ elim (Option-cases (jose.verify keys decrypted)) [
            | inl forged ↦ cc (rw (accepted, d, forged) at h)
            | inr (verified, v) ↦
                let last : ok (map_singpass_claims_to_user_info jose verified) ≡ ok info =
                  rw (accepted, d, v) at h in
                record {
                  client_key = key;
                  client_key_given = refl;
                  singpass_keys = keys;
                  singpass_keys_given = refl;
                  decrypted = decrypted;
                  decrypts = d;
                  verified = verified;
                  verifies = v;
                  mapped = cc last;
                }
          ]
        ]
      ]

  plain_user_info-eq-ok :
      (o : Option UserInfo) (info : UserInfo) → plain_user_info jose o ≡ ok info → o ≡ some info
  unfolding plain_user_info
  plain_user_info-eq-ok none info h = cc h
  plain_user_info-eq-ok (some i) info h = cc h

  -- If parseUserInfoResponse returns a user, then the trimmed response begins with a brace and the
  -- response is the JSON of that user, which no signature protects, or the client has its key and
  -- the keys of Singpass, the trimmed response was decrypted under the one and verified under the
  -- others, and the user is made of the verified claims.
  pub parse_user_info_response-IsSealed :
      (key : Option jose.Key) (keys : Option jose.KeySet) (body : Bytes) (info : UserInfo)
      → parse_user_info_response jose key keys body ≡ ok info
      → ((has_prefix (codes "{") (trim_space body) ≡ true)
          × (jose.unmarshal_user_info body ≡ some info))
        ⊎ IsSealed key keys (trim_space body) info
  unfolding parse_user_info_response
  parse_user_info_response-IsSealed key keys body info h =
      elim (Bool-cases (trim_space body == [])) [
        | inl blank ↦ cc (rw blank at h)
        | inr given ↦ elim (Bool-cases (has_prefix (codes "{") (trim_space body))) [
          | inl plain ↦ inl (
            plain,
            plain_user_info-eq-ok (jose.unmarshal_user_info body) info (rw (given, plain) at h),
          )
          | inr opaque ↦
              inr (
                decrypt_user_info-IsSealed key keys (trim_space body) info
                  (rw (given, opaque) at h))
        ]
      ]
