-- ===== src/Proxy/Oauth/Random.antt =====
-- The states and nonces that RandomOAuthParam makes.
use identity_mservice.Base.{
  Bytes, ℕ, ◌*◌, ◌/◌, ◌%◌, ◌<◌, [], ◌∷◌, length, ◌≡◌, refl, arith, true, nat_eq, false,
}
use identity_mservice.Backend.{Backend, reply, ok}
use identity_mservice.Proxy.Oauth.{hex_digit, hex_encode, is_unreserved, query_escape, random_value}

length-hex_encode : (s : Bytes) → length (hex_encode s) ≡ 2 * length s
unfolding hex_encode
length-hex_encode [] = refl
length-hex_encode (c ∷ s) = ground (arith, length-hex_encode s)

is_unreserved-hex_digit : (d : ℕ) → d < 16 → is_unreserved (hex_digit b'a' d) ≡ true
unfolding is_unreserved
is_unreserved-hex_digit d h = ground arith

not_blank : (d : ℕ) → d < 16 → nat_eq (hex_digit b'a' d) b' ' ≡ false
not_blank d h = ground arith

query_escape-hex_digit :
    (d : ℕ) (s : Bytes)
    → d < 16
    → query_escape (hex_digit b'a' d ∷ s) ≡ hex_digit b'a' d ∷ query_escape s
unfolding query_escape
query_escape-hex_digit d s h = rw (not_blank d h, is_unreserved-hex_digit d h) refl

query_escape-hex_encode : (s : Bytes) → query_escape (hex_encode s) ≡ hex_encode s
unfolding hex_encode
query_escape-hex_encode [] = unfold query_escape in refl
query_escape-hex_encode (c ∷ s) =
    rw (query_escape-hex_digit (c / 16 % 16) (hex_digit b'a' (c % 16) ∷ hex_encode s) (omega arith))
      (rw (query_escape-hex_digit (c % 16) (hex_encode s) (omega arith))
        (rw (query_escape-hex_encode s) refl))

-- If the random source fills the buffer of 20 bytes, then RandomOAuthParam returns a text of 40
-- bytes that the escaping of a query leaves as it is.
pub random_value-length :
    (b : Backend) (s : b.Net × b.Os) (buf : Bytes)
    → (b.random_bytes 20 s.1).0 ≡ reply buf
    → length buf ≡ 20
    → (state : Bytes) × ((random_value b s).0 ≡ ok state)
      × (length state ≡ 40)
      × (query_escape state ≡ state)
unfolding random_value
random_value-length b s buf drawn full = (
  hex_encode buf,
  rw drawn refl,
  ground (arith, length-hex_encode buf),
  query_escape-hex_encode buf,
)
