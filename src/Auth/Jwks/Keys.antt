-- ===== src/Auth/Jwks/Keys.antt =====
-- Which keys a refresh of the cache leaves.
use identity_mservice.Base.{
  ℕ, Bytes, codes, ◌==◌, eq_iff, ◌||◌, not, nat_eq, Bool-cases, Option, Option-cases, none, some,
  List, [], ◌∷◌, ◌≡◌, ◌⊎◌, inl, inr, ap, arith,
}
use identity_mservice.Base.Assoc.{lookup, lookup-insert}
use identity_mservice.Backend.{Backend, Result, ok}
use identity_mservice.Action.{World, Result-cases}
use identity_mservice.Kyc.Service.{on_net}
use identity_mservice.Auth.Jwks.{
  PublicKey, JwkKey, JwksCache, Keyring, rsa_public_key, add_key, collect, decode_response, refresh,
}

module _ {b : Backend} (ring : Keyring b) where
  -- An RSA entry of the list has the id and gives the key.
  abbrev pub Entry : Bytes → PublicKey → List JwkKey → Type 0
  Entry kid key [] = ⊥
  Entry kid key (raw ∷ raws) =
      ((raw.kid ≡ kid) × (raw.kty ≡ codes "RSA") × (rsa_public_key ring raw.n raw.e ≡ some key))
      ⊎ Entry kid key raws

  lookup-add_key :
      (kid k : Bytes) (new : Option PublicKey) (key : PublicKey) (keys : List (Bytes × PublicKey))
      → lookup k (add_key ring kid new keys) ≡ some key
      → ((kid ≡ k) × (new ≡ some key)) ⊎ (lookup k keys ≡ some key)
  unfolding add_key
  lookup-add_key kid k none key keys h = inr h
  lookup-add_key kid k (some new) key keys h =
      ground (arith, lookup-insert kid k new keys, eq_iff kid k)

  lookup-collect :
      (raws : List JwkKey) (keys : List (Bytes × PublicKey)) (k : Bytes) (key : PublicKey)
      → lookup k (collect ring raws keys) ≡ some key
      → Entry k key raws ⊎ (lookup k keys ≡ some key)
  unfolding collect
  lookup-collect [] keys k key h = inr h
  lookup-collect (raw ∷ raws) keys k key h =
      elim (Bool-cases
        (not (raw.kty == codes "RSA") || raw.n == [] || raw.e == [] || raw.kid == [])) [
          | inl skipped ↦ ground (arith, lookup-collect raws keys k key (rw skipped at h))
          | inr taken ↦
              let new = rsa_public_key ring raw.n raw.e in
              let added = add_key ring raw.kid new keys in
              ground (
                arith,
                eq_iff raw.kty (codes "RSA"),
                lookup-collect raws added k key (rw taken at h),
                lookup-add_key raw.kid k new key keys,
              )
        ]

  -- What a key of the cache rests on: a response with status 200 that lists it.
  pub record IsFetched (cache : JwksCache) (w : World b) (k : Bytes) (key : PublicKey)
      : Type 0 where
    pub status : ℕ
    pub body : Bytes
    pub raws : List JwkKey
    pub got : (on_net (ring.get cache.url) w).0 ≡ ok (status, body)
    pub succeeded : status ≡ 200
    pub decoded : ring.decode_jwks body ≡ some raws
    pub entry : Entry k key raws

  -- If a refresh of the key cache returns no error and the cache then has a key for an id, then
  -- the configured address answered with status 200 and a document that lists an RSA entry with
  -- this id whose modulus and exponent decode to the key.
  pub refresh-IsFetched :
      (cache fresh : JwksCache) (k : Bytes) (key : PublicKey) (w w' : World b)
      → refresh ring cache w ≡ (ok fresh, w')
      → lookup k fresh.keys ≡ some key
      → IsFetched cache w k key
  unfolding refresh decode_response lookup
  refresh-IsFetched cache fresh k key w w' h found =
      elim (Result-cases (on_net (ring.get cache.url) w).0) [
        | inr (e, failed) ↦ cc (ap (λ (q : Result JwksCache × World b). q.0) (rw failed at h))
        | inl ((status, body), got) ↦ elim (Bool-cases (not (nat_eq status 200))) [
          | inl other ↦ cc (rw (got, other) at h)
          | inr right ↦ elim (Option-cases (ring.decode_jwks body)) [
            | inl broken ↦ cc (rw (got, right, broken) at h)
            | inr (raws, decoded) ↦
                let done = rw (got, right, decoded) at h in
                let same : fresh.keys ≡ collect ring raws [] = cc done in
                record {
                  status = status;
                  body = body;
                  raws = raws;
                  got = got;
                  succeeded = ground arith;
                  decoded = decoded;
                  entry = ground (arith, lookup-collect raws [] k key (rw same at found));
                }
          ]
        ]
      ]
