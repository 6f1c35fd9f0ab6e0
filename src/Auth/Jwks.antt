-- ===== src/Auth/Jwks.antt =====
-- server/auth/jwks.go: the keys of Clerk, fetched and kept for five minutes.
pub mod Keys
use identity_mservice.Base.{
  Bytes, ℕ, ◌+◌, ◌*◌, ◌^◌, ◌%◌, codes, nat_eq, ltb, ◌==◌, ◌||◌, not, if◌then◌else◌, Option, none,
  some, List, [], ◌∷◌,
}
use identity_mservice.Base.Assoc.{lookup, insert}
use identity_mservice.Base.Decimal.{big_endian}
use identity_mservice.Model.{Time, message, external}
use identity_mservice.Backend.{Backend, Result}
use identity_mservice.Action.{Action, pure, raise_if, or_raise, time_now, ◌>>=◌, ◌>>◌}
use identity_mservice.Kyc.Service.{on_net}

-- rsa.PublicKey
pub record PublicKey : Type 0 where
  pub n : ℕ
  pub e : ℕ

pub record JwkKey : Type 0 where
  pub kid : Bytes
  pub kty : Bytes
  pub n : Bytes
  pub e : Bytes

pub record JwksCache : Type 0 where
  pub url : Bytes
  pub expires_at : Time
  pub keys : List (Bytes × PublicKey)

-- 5 * time.Minute
abbrev pub jwks_cache_ttl : Time
jwks_cache_ttl = 300 * 10 ^ 9

-- What the fetch uses: the HTTP client, encoding/json and base64.RawURLEncoding.
pub record Keyring (b : Backend) : Type 0 where
  pub get : Bytes → b.Net × b.Os → Result (ℕ × Bytes) × (b.Net × b.Os)
  pub decode_jwks : Bytes → Option (List JwkKey)
  pub decode_base64 : Bytes → Option Bytes

abbrev pub new_jwks_cache : Bytes → JwksCache
new_jwks_cache url = record { url = url; expires_at = 0; keys = [] }

-- e<<8 + int(b) on 64 bits, as the bits of the int.
exponent : ℕ → Bytes → ℕ
exponent e [] = e
exponent e (c ∷ s) = exponent ((e * 256 + c) % 2 ^ 64) s

public_key_of : Option Bytes → Option Bytes → Option PublicKey
unfolding big_endian exponent
public_key_of none e = none
public_key_of (some n) none = none
public_key_of (some n) (some e) = some (record { n = big_endian 0 n; e = exponent 0 e })

module _ {b : Backend} (ring : Keyring b) where
  unfoldable pub rsa_public_key : Bytes → Bytes → Option PublicKey
  unfolding public_key_of
  rsa_public_key n_raw e_raw = public_key_of (ring.decode_base64 n_raw) (ring.decode_base64 e_raw)

  add_key : Bytes → Option PublicKey → List (Bytes × PublicKey) → List (Bytes × PublicKey)
  unfolding insert
  add_key kid none keys = keys
  add_key kid (some key) keys = insert kid key keys

  -- The loop over the fetched keys: a later key replaces an earlier one of its id.
  unfoldable pub collect : List JwkKey → List (Bytes × PublicKey) → List (Bytes × PublicKey)
  unfolding rsa_public_key add_key
  collect [] keys = keys
  collect (raw ∷ raws) keys = collect raws (
      if not (raw.kty == codes "RSA") || raw.n == [] || raw.e == [] || raw.kid == []
      then keys
      else add_key raw.kid (rsa_public_key raw.n raw.e) keys)

  decode_response : JwksCache → ℕ × Bytes → Action b JwksCache
  unfolding collect
  decode_response cache (status, body) = do
    raise_if (not (nat_eq status 200)) (message (codes "failed to fetch clerk jwks"))
    raws ← or_raise (ring.decode_jwks body) (external (codes "json"))
    now ← time_now
    pure (record cache { keys = collect raws []; expires_at = now + jwks_cache_ttl })

  unfoldable pub refresh : JwksCache → Action b JwksCache
  unfolding decode_response
  refresh cache = do response ← on_net (ring.get cache.url); decode_response cache response

  -- A key that is not found is `none`, with the cache as it then is.
  unfoldable pub public_key : Bytes → JwksCache → Action b (Option PublicKey × JwksCache)
  unfolding refresh lookup
  public_key kid cache = do
    now ← time_now
    if ltb now cache.expires_at
        then pure (lookup kid cache.keys, cache)
        else do fetched ← refresh cache; pure (lookup kid fetched.keys, fetched)
