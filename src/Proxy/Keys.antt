-- ===== src/Proxy/Keys.antt =====
-- server/proxy/singpass_signing.go: the client's private keys, and the assertion that it signs.
pub mod Chosen
use identity_mservice.Base.{
  Bytes, ℕ, ◌+◌, ◌-◌, ◌*◌, ◌/◌, ◌^◌, ℤ, pos, negsuc, suc, codes, leb, ◌==◌, ◌&&◌, ◌||◌, not,
  if◌then◌else◌, Bool, Option, none, some, List, [], ◌∷◌, ◌++◌,
}
use identity_mservice.Base.Clock.{unix}
use identity_mservice.Base.Decimal.{big_endian}
use identity_mservice.Model.{Time, message, external, wrap}
use identity_mservice.Backend.{Backend, Reply, Result, ok, err}
use identity_mservice.Proxy.Remote.{Remote, pure, on_os, ◌>>=◌}
use identity_mservice.Proxy.Oauth.{random_value}

-- jwkPrivateKey; `key_use` is its field Use.
pub record JwkPrivateKey : Type 0 where
  pub kty : Bytes
  pub key_use : Bytes
  pub crv : Bytes
  pub kid : Bytes
  pub alg : Bytes
  pub d : Bytes
  pub x : Bytes
  pub y : Bytes

-- The curves of crypto/elliptic and the methods of package jwt that the file names.
pub data Curve : Type 0 where
  p256 p384 p521 : Curve

pub data SigningMethod : Type 0 where
  es256 es384 es512 : SigningMethod

-- ecdsa.PrivateKey
pub record PrivateKey : Type 0 where
  pub curve : Curve
  pub x : ℕ
  pub y : ℕ
  pub d : ℕ

pub record SigningKey : Type 0 where
  pub private_key : PrivateKey
  pub kid : Bytes
  pub method : SigningMethod

-- What a client assertion says: its header and its claims.
pub record Assertion : Type 0 where
  pub typ : Bytes
  pub kid : Bytes
  pub iss : Bytes
  pub sub : Bytes
  pub aud : Bytes
  pub iat : ℤ
  pub exp : ℤ
  pub jti : Bytes

-- base64.RawURLEncoding, the verb %q of fmt, encoding/json, and the packages jwt and jwk.
pub record KeyTools (b : Backend) (Key : Type 0) : Type 0 where
  pub decode_base64 : Bytes → Option Bytes
  pub quote : Bytes → Bytes
  pub marshal_key : JwkPrivateKey → Reply Bytes
  pub parse_key : Bytes → Reply Key
  -- token.SignedString, which draws a random number
  pub signed_string : SigningMethod → PrivateKey → Assertion → b.Os → Reply Bytes × b.Os

unfoldable pub signing_method_for_alg : Bytes → SigningMethod → SigningMethod
signing_method_for_alg alg fallback =
    if alg == codes "ES256"
    then es256
    else if alg == codes "ES384"
    then es384
    else if alg == codes "ES512"
    then es512
    else fallback

-- n + k
unfoldable pub add_seconds : ℤ → ℕ → ℤ
add_seconds (pos n) k = pos (n + k)
add_seconds (negsuc n) k = if leb k n then negsuc (n - k) else pos (k - suc n)

-- key.Use != "sig" || key.KTY != "EC" || key.D == "", and the test of parseEncryptionKey
abbrev pub skips_signing : JwkPrivateKey → Bool
skips_signing key = not (key.key_use == codes "sig") || not (key.kty == codes "EC") || key.d == []

abbrev pub skips_encryption : JwkPrivateKey → Bool
skips_encryption key = not (key.key_use == codes "enc") || key.d == []

unfoldable pub assertion_of : SigningKey → Bytes → Bytes → Time → Bytes → Assertion
unfolding unix add_seconds
assertion_of key client_id issuer now jti = record {
  typ = codes "JWT";
  kid = key.kid;
  iss = client_id;
  sub = client_id;
  aud = issuer;
  iat = unix now;
  exp = add_seconds (unix now) 120;
  jti = jti;
}

-- time.Now()
abbrev pub clock : (b : Backend) → Remote b Time
clock b (net, os) = let (t, os') = b.now os in (ok t, (net, os'))

module _ {b : Backend} {Key : Type 0} (tools : KeyTools b Key) where
  unfoldable pub curve_and_method : Bytes → Bytes → Result (Curve × SigningMethod)
  unfolding signing_method_for_alg
  curve_and_method crv alg =
      if crv == codes "P-256"
      then ok (p256, signing_method_for_alg alg es256)
      else if crv == codes "P-384"
      then ok (p384, signing_method_for_alg alg es384)
      else if crv == codes "P-521"
      then ok (p521, signing_method_for_alg alg es512)
      else err (message (codes "unsupported curve " ++ tools.quote crv))

  set_bytes : Bytes → Option Bytes → Result ℕ
  unfolding big_endian
  set_bytes field none =
      err (wrap (codes "decode " ++ field ++ codes ": ") (external (codes "base64")))
  set_bytes field (some raw) = ok (big_endian 0 raw)

  -- The number of a field, with the wrapping of the error at the call.
  unfoldable pub decode_base64_url_big_int : Bytes → Bytes → Result ℕ
  unfolding set_bytes
  decode_base64_url_big_int field value = set_bytes field (tools.decode_base64 value)

  with_numbers :
      Curve × SigningMethod → Result ℕ → Result ℕ → Result ℕ → Result (PrivateKey × SigningMethod)
  with_numbers (curve, method) (err e) x y = err e
  with_numbers (curve, method) (ok d) (err e) y = err e
  with_numbers (curve, method) (ok d) (ok x) (err e) = err e
  with_numbers (curve, method) (ok d) (ok x) (ok y) =
      ok (record { curve = curve; x = x; y = y; d = d }, method)

  numbers_of : JwkPrivateKey → Result (Curve × SigningMethod) → Result (PrivateKey × SigningMethod)
  unfolding with_numbers decode_base64_url_big_int
  numbers_of key (err e) = err e
  numbers_of key (ok cm) =
      with_numbers cm (decode_base64_url_big_int (codes "d") key.d)
        (decode_base64_url_big_int (codes "x") key.x) (decode_base64_url_big_int (codes "y") key.y)

  unfoldable pub jwk_to_ecdsa : JwkPrivateKey → Result (PrivateKey × SigningMethod)
  unfolding numbers_of curve_and_method
  jwk_to_ecdsa key = numbers_of key (curve_and_method key.crv key.alg)

  abbrev signing_key_of : Bytes → Result (PrivateKey × SigningMethod) → Result SigningKey
  signing_key_of kid (err e) = err e
  signing_key_of kid (ok (private_key, method)) =
      ok (record { private_key = private_key; kid = kid; method = method })

  -- The body of the loop for a key that is not skipped.
  unfoldable pub to_signing_key : JwkPrivateKey → Result SigningKey
  unfolding jwk_to_ecdsa
  to_signing_key key = signing_key_of key.kid (jwk_to_ecdsa key)

  unfoldable pub parse_signing_key : List JwkPrivateKey → Result SigningKey
  unfolding to_signing_key
  parse_signing_key [] =
      err (message (codes "no private signing key with use=sig found in client jwks"))
  parse_signing_key (key ∷ keys) =
      let rest = parse_signing_key keys in if skips_signing key then rest else to_signing_key key

  abbrev parsed : Reply Key → Result Key
  parsed (Reply.reply key) = ok key
  parsed (Reply.fault m) = err (external m)

  abbrev to_encryption_key : Reply Bytes → Result Key
  to_encryption_key (Reply.reply json) = parsed (tools.parse_key json)
  to_encryption_key (Reply.fault m) = err (external m)

  unfoldable pub parse_encryption_key : List JwkPrivateKey → Result Key
  parse_encryption_key [] =
      err (message (codes "no private encryption key with use=enc found in client jwks"))
  parse_encryption_key (key ∷ keys) =
      let rest = parse_encryption_key keys in
      if skips_encryption key then rest else to_encryption_key (tools.marshal_key key)

  unfoldable pub client_assertion : SigningKey → Bytes → Bytes → Remote b Bytes
  unfolding random_value assertion_of
  client_assertion key client_id issuer = do
    now ← clock b
    jti ← random_value b
    on_os
        (tools.signed_string key.method key.private_key (assertion_of key client_id issuer now jti))
