-- ===== src/Auth/Token/Verified.antt =====
-- What a token that is accepted has proved.
use identity_mservice.Base.{
  Bytes, ℤ, pos, negsuc, ◌+◌, ◌*◌, ◌^◌, ◌≤◌, ◌⊎◌, codes, ◌==◌, eq_iff, ◌||◌, not, Bool, false, true,
  Option-cases, Bool-cases, inl, inr, [], ◌∷◌, ◌++◌, List, Option, none, some, ◌≡◌, ◌≢◌, refl, ◌∙◌,
  ap, arith,
}
use identity_mservice.Model.{Time, UserAuthMapping}
use identity_mservice.Backend.{Backend, Result, ok}
use identity_mservice.Action.{World, Result-cases}
use identity_mservice.Dao.Mappings.{get_by_clerk_user_id}
use identity_mservice.Access.Http.{AuthUser}
use identity_mservice.Auth.Jwks.{PublicKey, Keyring, public_key}
use identity_mservice.Auth.Token.{
  Jwt, JwtHeader, JwtClaims, Authenticator, split_dots, after_unix, before_unix, are_valid_claims,
  decode_jwt_part, verify_rs256, or_invalid, invalid_if, key_of, verify_signature, verify_claims,
  verify_parts, verify_token, identity_of, authenticate,
}

-- The clock counts nanoseconds from the zero time, 62135596800 seconds before 1970; a claim counts
-- seconds from 1970.
abbrev pub NotAfter : Time → ℤ → Type 0
NotAfter now (pos s) = now ≤ (s + 62135596800) * 10 ^ 9
NotAfter now (negsuc n) = now + (n + 1) * 10 ^ 9 ≤ 62135596800 * 10 ^ 9

abbrev pub NotBefore : Time → ℤ → Type 0
NotBefore now (pos s) = (s + 62135596800) * 10 ^ 9 ≤ now
NotBefore now (negsuc n) = 62135596800 * 10 ^ 9 ≤ now + (n + 1) * 10 ^ 9

-- The claims name a subject and the issuer, if one is configured; they have an expiry, which is not
-- past, and a time before which they do not hold, if they have one, has come.
pub record Valid (issuer : Bytes) (now : Time) (claims : JwtClaims) : Type 0 where
  pub subject : claims.subject ≢ []
  pub issued : (issuer ≡ []) ⊎ (claims.issuer ≡ issuer)
  pub expires : claims.expiry.is_zero ≡ false
  pub unexpired : NotAfter now claims.expiry.to_int64
  pub begun : (claims.not_before.above_zero ≡ false) ⊎ NotBefore now claims.not_before.to_int64

after_unix-NotAfter : (now : Time) (s : ℤ) → after_unix now s ≡ false → NotAfter now s
unfolding after_unix
after_unix-NotAfter now (pos s) h = ground arith
after_unix-NotAfter now (negsuc n) h = ground arith

before_unix-NotBefore : (now : Time) (s : ℤ) → before_unix now s ≡ false → NotBefore now s
unfolding before_unix
before_unix-NotBefore now (pos s) h = ground arith
before_unix-NotBefore now (negsuc n) h = ground arith

are_valid_claims-Valid :
    (issuer : Bytes) (now : Time) (claims : JwtClaims)
    → are_valid_claims issuer now claims ≡ true
    → Valid issuer now claims
unfolding are_valid_claims
are_valid_claims-Valid issuer now claims h = record {
  subject = ground (arith, eq_iff claims.subject []);
  issued = elim (Bool-cases (issuer == [])) [
    | inl unset ↦ inl ((eq_iff issuer []).0 unset)
    | inr configured ↦ inr ((eq_iff claims.issuer issuer).0 (ground arith))
  ];
  expires = ground arith;
  unexpired = after_unix-NotAfter now claims.expiry.to_int64 (ground arith);
  begun = elim (Bool-cases claims.not_before.above_zero) [
    | inr none_given ↦ inl none_given
    | inl given ↦ inr (before_unix-NotBefore now claims.not_before.to_int64 (ground arith))
  ];
}

module _ {b : Backend} (ring : Keyring b) (jwt : Jwt) where
  -- The signature is one of the text under the key that the key cache gives for the key id at `w`.
  pub record IsSigned (a : Authenticator) (kid signing_input signed : Bytes) (w : World b)
      : Type 0 where
    pub signature : Bytes
    pub decoded : ring.decode_base64 signed ≡ some signature
    pub key : PublicKey
    pub fetched : key_of (public_key ring kid a.jwks w).0 ≡ some key
    pub verified : verify_rs256 ring jwt key signing_input signature ≡ true

  -- The claims stand in the token, are valid at the reading of the clock at `w`, and are signed.
  pub record IsClaimed (a : Authenticator) (kid head body signed : Bytes) (claims : JwtClaims)
      (w : World b) : Type 0 where
    pub decoded : decode_jwt_part ring jwt jwt.decode_claims body ≡ some claims
    pub valid : Valid a.issuer (b.now w.os).0 claims
    pub signature : IsSigned a kid (head ++ b'.' ∷ body) signed (record w { os = (b.now w.os).1 })

  -- A token of three parts with the header of an RS256 signature.
  pub record Verified (a : Authenticator) (token : Bytes) (claims : JwtClaims) (w : World b)
      : Type 0 where
    pub head : Bytes
    pub body : Bytes
    pub signed : Bytes
    pub parts : split_dots token ≡ head ∷ body ∷ signed ∷ []
    pub configured : a.jwks.url ≢ []
    pub header : JwtHeader
    pub decoded : decode_jwt_part ring jwt jwt.decode_header head ≡ some header
    pub alg : header.alg ≡ codes "RS256"
    pub kid_given : header.kid ≢ []
    pub claimed : IsClaimed a header.kid head body signed claims w

  invalid_if-eq-ok :
      (c : Bool) (w v : World b) {u : Unit {0}} → invalid_if ring jwt c w ≡ (ok u, v) → c ≡ false
  unfolding invalid_if
  invalid_if-eq-ok true w v h = cc (ap (λ (q : Result (Unit {0}) × World b). q.0) h)
  invalid_if-eq-ok false w v h = refl

  or_invalid-eq-ok :
      {A : Type 0} (o : Option A) (w v : World b) {x : A}
      → or_invalid ring jwt o w ≡ (ok x, v)
      → o ≡ some x
  unfolding or_invalid
  or_invalid-eq-ok {A} none w v h = cc (ap (λ (q : Result A × World b). q.0) h)
  or_invalid-eq-ok {A} (some a) w v h = cc (ap (λ (q : Result A × World b). q.0) h)

  verify_signature-IsSigned :
      (a : Authenticator) (header : JwtHeader) (claims out : JwtClaims) (text signed : Bytes)
      (w w' : World b)
      → verify_signature ring jwt a header claims text signed w ≡ (ok out, w')
      → (claims ≡ out) × IsSigned a header.kid text signed w
  unfolding verify_signature
  verify_signature-IsSigned a header claims out text signed w w' h =
      elim (Option-cases (ring.decode_base64 signed)) [
        | inl broken ↦ cc (rw broken at h)
        | inr (signature, read) ↦
            elim (Option-cases (key_of (public_key ring header.kid a.jwks w).0)) [
              | inl missing ↦ cc (rw (read, missing) at h)
              | inr (key, found) ↦ elim (Bool-cases (verify_rs256 ring jwt key text signature)) [
                | inr forged ↦ cc (rw (read, found, forged) at h)
                | inl verified ↦
                    let same : (ok claims, (public_key ring header.kid a.jwks w).1) ≡ (ok out, w') =
                      rw (read, found, verified) at h in
                    (
                      cc same,
                      record {
                        signature = signature;
                        decoded = read;
                        key = key;
                        fetched = found;
                        verified = verified;
                      },
                    )
              ]
            ]
      ]

  verify_claims-IsClaimed :
      (a : Authenticator) (header : JwtHeader) (claims : JwtClaims) (head body signed : Bytes)
      (w w' : World b)
      → verify_claims ring jwt a header head body signed w ≡ (ok claims, w')
      → IsClaimed a header.kid head body signed claims w
  unfolding verify_claims or_invalid invalid_if
  verify_claims-IsClaimed a header claims head body signed w w' h =
      let (now, os) = b.now w.os in
      elim (Option-cases (decode_jwt_part ring jwt jwt.decode_claims body)) [
        | inl broken ↦ cc (rw broken at h)
        | inr (read, e) ↦ elim (Bool-cases (are_valid_claims a.issuer now read)) [
          | inr refused ↦ cc (rw (e, refused) at h)
          | inl valid ↦
              let text = head ++ b'.' ∷ body in
              let rest : verify_signature ring jwt a header read text signed (record w { os = os })
                  ≡ (ok claims, w') =
                rw (e, valid) at h in
              let (same, is_signed) =
                verify_signature-IsSigned a header read claims text signed (record w { os = os }) w'
                  rest in
              record {
                decoded = e ∙ ap {B = Option JwtClaims} some same;
                valid = are_valid_claims-Valid a.issuer now claims (rw (← same) valid);
                signature = is_signed;
              }
        ]
      ]

  verify_parts-Verified :
      (a : Authenticator) (token : Bytes) (parts : List Bytes) (claims : JwtClaims) (w w' : World b)
      → split_dots token ≡ parts
      → verify_parts ring jwt a parts w ≡ (ok claims, w')
      → Verified a token claims w
  unfolding verify_parts or_invalid invalid_if
  verify_parts-Verified a token [] claims w w' e h = cc h
  verify_parts-Verified a token (x ∷ []) claims w w' e h = cc h
  verify_parts-Verified a token (x ∷ y ∷ []) claims w w' e h = cc h
  verify_parts-Verified a token (x ∷ y ∷ z ∷ t ∷ rest) claims w w' e h = cc h
  verify_parts-Verified a token (head ∷ body ∷ signed ∷ []) claims w w' e h =
      elim (Bool-cases (a.jwks.url == [])) [
        | inl missing ↦ cc (rw missing at h)
        | inr given ↦ elim (Option-cases (decode_jwt_part ring jwt jwt.decode_header head)) [
          | inl broken ↦ cc (rw (given, broken) at h)
          | inr (header, read) ↦
              elim (Bool-cases (not (header.alg == codes "RS256") || header.kid == [])) [
                | inl other ↦ cc (rw (given, read, other) at h)
                | inr right ↦ record {
                  head = head;
                  body = body;
                  signed = signed;
                  parts = e;
                  configured = ground (arith, eq_iff a.jwks.url []);
                  header = header;
                  decoded = read;
                  alg = ground (arith, eq_iff header.alg (codes "RS256"));
                  kid_given = ground (arith, eq_iff header.kid []);
                  claimed =
                      verify_claims-IsClaimed a header claims head body signed w w'
                        (rw (given, read, right) at h);
                }
              ]
        ]
      ]

  -- The caller whom a token is traded for.
  pub record Authentic (a : Authenticator) (token : Bytes) (user : AuthUser) (w : World b)
      : Type 0 where
    pub claims : JwtClaims
    pub verified : Verified a token claims w
    pub mapping : UserAuthMapping
    -- in the tables and the cache as the verification leaves them
    pub found :
        (get_by_clerk_user_id claims.subject (verify_token ring jwt a token w).1).0
        ≡ ok (some mapping)
    pub same : user ≡ identity_of claims mapping

  pub authenticate-Authentic :
      (a : Authenticator) (token : Bytes) (user : AuthUser) (w w' : World b)
      → authenticate ring jwt a token w ≡ (ok user, w')
      → Authentic a token user w
  unfolding authenticate verify_token or_invalid
  authenticate-Authentic a token user w w' h =
      elim (Result-cases (verify_token ring jwt a token w).0) [
        | inr (e, refused) ↦ cc (rw refused at h)
        | inl (claims, accepted) ↦
            let v = (verify_token ring jwt a token w).1 in
            elim (Result-cases (get_by_clerk_user_id claims.subject v).0) [
              | inr (e, broken) ↦ cc (rw (accepted, broken) at h)
              | inl (row, found) ↦ elim (Option-cases row) [
                | inl missing ↦ cc (rw (accepted, found, missing) at h)
                | inr (mapping, there) ↦
                    let last : (
                      ok (identity_of claims mapping),
                      (get_by_clerk_user_id claims.subject v).1,
                    )
                        ≡ (ok user, w') =
                      rw (accepted, found, there) at h in
                    record {
                      claims = claims;
                      verified =
                          verify_parts-Verified a token (split_dots token) claims w v refl
                            (λ i. (accepted i, v));
                      mapping = mapping;
                      found = rw there at found;
                      same = cc last;
                    }
              ]
            ]
      ]
