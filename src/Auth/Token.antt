-- ===== src/Auth/Token.antt =====
-- server/auth/authenticator.go: the verification of a Clerk token and the internal user behind it.
pub mod Verified
use identity_mservice.Base.{
  Bytes, ℕ, ◌+◌, ◌-◌, ◌*◌, ◌^◌, ℤ, pos, negsuc, suc, codes, nat_eq, ltb, leb, ◌==◌, ◌&&◌, ◌||◌, not,
  if◌then◌else◌, Bool, true, false, Option, none, some, List, [], ◌∷◌, ◌++◌,
}
use identity_mservice.Base.Text.{trim_space}
use identity_mservice.Model.{Time, UserAuthMapping, sentinel, invalid_clerk_token}
use identity_mservice.Backend.{Backend, Result, ok, err}
use identity_mservice.Action.{World, Action, pure, raise, raise_if, or_raise, time_now, ◌>>=◌, ◌>>◌}
use identity_mservice.Dao.Mappings.{get_by_clerk_user_id}
use identity_mservice.Access.Http.{AuthUser}
use identity_mservice.Auth.Jwks.{PublicKey, JwksCache, Keyring, new_jwks_cache, public_key}

pub record JwtHeader : Type 0 where
  pub alg : Bytes
  pub kid : Bytes

-- The two times are float64, of which the code asks for the sign and for the conversion to int64.
pub record Seconds : Type 0 where
  pub is_zero : Bool
  pub above_zero : Bool
  pub to_int64 : ℤ

pub record JwtClaims : Type 0 where
  pub subject : Bytes
  pub issuer : Bytes
  pub email : Bytes
  pub expiry : Seconds
  pub not_before : Seconds

-- encoding/json at the two parts of a token, crypto/sha256 and crypto/rsa.
pub record Jwt : Type 0 where
  pub decode_header : Bytes → Option JwtHeader
  pub decode_claims : Bytes → Option JwtClaims
  pub sha256 : Bytes → Bytes
  pub verify_pkcs1v15 : PublicKey → Bytes → Bytes → Bool

-- strings.Split(s, ".")
split_first : ℕ → List Bytes → List Bytes
split_first c [] = []
split_first c (part ∷ parts) = (c ∷ part) ∷ parts

unfoldable pub split_dots : Bytes → List Bytes
unfolding split_first
split_dots [] = [] ∷ []
split_dots (c ∷ s) =
    let rest = split_dots s in if nat_eq c b'.' then [] ∷ rest else split_first c rest

-- now.After(time.Unix(t, 0)) and now.Before(time.Unix(t, 0)); the zero time lies 62135596800 seconds
-- before 1970, and the seconds are taken to be small enough for time.Unix.
unfoldable pub after_unix : Time → ℤ → Bool
after_unix now (pos s) = ltb ((s + 62135596800) * 10 ^ 9) now
after_unix now (negsuc n) = leb 62135596800 n || ltb ((62135596800 - suc n) * 10 ^ 9) now

unfoldable pub before_unix : Time → ℤ → Bool
before_unix now (pos s) = ltb now ((s + 62135596800) * 10 ^ 9)
before_unix now (negsuc n) = not (leb 62135596800 n) && ltb now ((62135596800 - suc n) * 10 ^ 9)

pub record Authenticator : Type 0 where
  pub issuer : Bytes
  pub jwks : JwksCache

unfoldable pub new_authenticator : Backend → Authenticator
new_authenticator b = record {
  issuer = trim_space (b.getenv (codes "CLERK_ISSUER"));
  jwks = new_jwks_cache (trim_space (b.getenv (codes "CLERK_JWKS_URL")));
}

-- validateClaims returns no error at this time.
unfoldable pub are_valid_claims : Bytes → Time → JwtClaims → Bool
unfolding after_unix before_unix
are_valid_claims issuer now claims =
    not (claims.subject == [])
    && not (not (issuer == []) && not (claims.issuer == issuer))
    && not (claims.expiry.is_zero || after_unix now claims.expiry.to_int64)
    && not (claims.not_before.above_zero && before_unix now claims.not_before.to_int64)

abbrev pub key_of : Result (Option PublicKey × JwksCache) → Option PublicKey
key_of (ok (key, cache)) = key
key_of (err e) = none

abbrev pub identity_of : JwtClaims → UserAuthMapping → AuthUser
identity_of claims mapping = record {
  internal_user_id = mapping.internal_user_id;
  clerk_user_id = mapping.clerk_user_id;
  email = if claims.email == [] then mapping.email else claims.email;
  role = mapping.role;
}

module _ {b : Backend} (ring : Keyring b) (jwt : Jwt) where
  or_invalid : {A : Type 0} → Option A → Action b A
  or_invalid o = or_raise o (sentinel invalid_clerk_token)

  invalid_if : Bool → Action b (Unit {0})
  invalid_if c = raise_if c (sentinel invalid_clerk_token)

  -- verifyRS256
  unfoldable pub verify_rs256 : PublicKey → Bytes → Bytes → Bool
  verify_rs256 pub_key signing_input signature =
      jwt.verify_pkcs1v15 pub_key (jwt.sha256 signing_input) signature

  unfoldable pub decode_jwt_part : {A : Type 0} → (Bytes → Option A) → Bytes → Option A
  decode_jwt_part unmarshal raw = elim (ring.decode_base64 raw) [
    | none ↦ none
    | some s ↦ unmarshal s
  ]

  -- The key, `none` where publicKey returns an error.
  find_key : Bytes → JwksCache → Action b (Option PublicKey)
  find_key kid cache w = let (r, w') = public_key ring kid cache w in (ok (key_of r), w')

  -- From the signature on.
  verify_signature : Authenticator → JwtHeader → JwtClaims → Bytes → Bytes → Action b JwtClaims
  unfolding or_invalid invalid_if find_key
  verify_signature a header claims signing_input signed = do
    signature ← or_invalid (ring.decode_base64 signed)
    found ← find_key header.kid a.jwks
    key ← or_invalid found
    invalid_if (not (verify_rs256 key signing_input signature))
    pure claims

  -- From the claims on.
  verify_claims : Authenticator → JwtHeader → Bytes → Bytes → Bytes → Action b JwtClaims
  unfolding verify_signature
  verify_claims a header head body signed = do
    claims ← or_invalid (decode_jwt_part jwt.decode_claims body)
    now ← time_now
    invalid_if (not (are_valid_claims a.issuer now claims))
    verify_signature a header claims (head ++ b'.' ∷ body) signed

  verify_parts : Authenticator → List Bytes → Action b JwtClaims
  unfolding verify_claims
  verify_parts a (head ∷ body ∷ signed ∷ []) = do
    invalid_if (a.jwks.url == [])
    header ← or_invalid (decode_jwt_part jwt.decode_header head)
    invalid_if (not (header.alg == codes "RS256") || header.kid == [])
    verify_claims a header head body signed
  verify_parts a parts = raise (sentinel invalid_clerk_token)

  -- The cache of keys ends with the authenticator, which is made for one request.
  unfoldable pub verify_token : Authenticator → Bytes → Action b JwtClaims
  unfolding verify_parts split_dots
  verify_token a token = verify_parts a (split_dots token)

  unfoldable pub authenticate : Authenticator → Bytes → Action b AuthUser
  unfolding or_invalid
  authenticate a token = do
    claims ← verify_token a token
    found ← get_by_clerk_user_id claims.subject
    mapping ← or_invalid found
    pure (identity_of claims mapping)
