-- ===== src/Proxy/Keys/Chosen.antt =====
-- Which key of the client's JWKS signs, and what it is made of.
use identity_mservice.Base.{
  eq_iff, codes, Bool-cases, List, [], ◌∷◌, ◌++◌, false, ◌≡◌, ◌≢◌, refl, arith, ap, ◌∙◌, inl, inr,
  ◌↔◌,
}
use identity_mservice.Backend.{Backend, ok}
use identity_mservice.Action.{Result-cases}
use identity_mservice.Proxy.Keys.{
  JwkPrivateKey, SigningKey, KeyTools, curve_and_method, decode_base64_url_big_int, jwk_to_ecdsa,
  skips_signing, to_signing_key, parse_signing_key,
}

-- A private key for signatures on an elliptic curve.
abbrev pub IsSigning : JwkPrivateKey → Type 0
IsSigning key = (key.key_use ≡ codes "sig") × (key.kty ≡ codes "EC") × (key.d ≢ [])

abbrev pub NoneSigns : List JwkPrivateKey → Type 0
NoneSigns [] = Unit
NoneSigns (key ∷ keys) = (¬ IsSigning key) × NoneSigns keys

skips_signing-eq-false : (key : JwkPrivateKey) → (skips_signing key ≡ false) ↔ IsSigning key
skips_signing-eq-false key =
    ground (arith, eq_iff key.key_use (codes "sig"), eq_iff key.kty (codes "EC"), eq_iff key.d [])

-- An independent description of the choice: the first key for signatures.
module _ {b : Backend} {Key : Type 0} (tools : KeyTools b Key) where
  -- What the conversion of one key gives.
  pub record IsMade (key : JwkPrivateKey) (made : SigningKey) : Type 0 where
    pub kid : made.kid ≡ key.kid
    pub curve : curve_and_method tools key.crv key.alg ≡ ok (made.private_key.curve, made.method)
    pub d : decode_base64_url_big_int tools (codes "d") key.d ≡ ok made.private_key.d
    pub x : decode_base64_url_big_int tools (codes "x") key.x ≡ ok made.private_key.x
    pub y : decode_base64_url_big_int tools (codes "y") key.y ≡ ok made.private_key.y

  -- The first key for signatures, and what it was made into.
  pub record IsChosen (keys : List JwkPrivateKey) (chosen : SigningKey) : Type 0 where
    pub before : List JwkPrivateKey
    pub key : JwkPrivateKey
    pub after : List JwkPrivateKey
    pub split : keys ≡ before ++ key ∷ after
    pub skipped : NoneSigns before
    pub signs : IsSigning key
    pub made : IsMade key chosen

  to_signing_key-IsMade :
      (key : JwkPrivateKey) (made : SigningKey)
      → to_signing_key tools key ≡ ok made
      → IsMade key made
  unfolding to_signing_key jwk_to_ecdsa
  to_signing_key-IsMade key made h = elim (Result-cases (curve_and_method tools key.crv key.alg)) [
    | inr (e, c) ↦ cc (rw c at h)
    | inl (cm, c) ↦ elim (Result-cases (decode_base64_url_big_int tools (codes "d") key.d)) [
      | inr (e, d) ↦ cc (rw (c, d) at h)
      | inl (d_value, d) ↦ elim (Result-cases (decode_base64_url_big_int tools (codes "x") key.x)) [
        | inr (e, x) ↦ cc (rw (c, d, x) at h)
        | inl (x_value, x) ↦
            elim (Result-cases (decode_base64_url_big_int tools (codes "y") key.y)) [
              | inr (e, y) ↦ cc (rw (c, d, x, y) at h)
              | inl (y_value, y) ↦
                  let q : SigningKey = record {
                    private_key = record { curve = cm.0; x = x_value; y = y_value; d = d_value };
                    kid = key.kid;
                    method = cm.1;
                  } in
                  let same : ok q ≡ ok made = rw (c, d, x, y) at h in
                  let e : q ≡ made = cc same in
                  record {
                    kid = cc (ap (λ (k : SigningKey). k.kid) e);
                    curve = c ∙ ap (λ (k : SigningKey). ok (k.private_key.curve, k.method)) e;
                    d = d ∙ ap (λ (k : SigningKey). ok k.private_key.d) e;
                    x = x ∙ ap (λ (k : SigningKey). ok k.private_key.x) e;
                    y = y ∙ ap (λ (k : SigningKey). ok k.private_key.y) e;
                  }
            ]
      ]
    ]
  ]

  IsMade-to_signing_key :
      (key : JwkPrivateKey) (made : SigningKey)
      → IsMade key made
      → to_signing_key tools key ≡ ok made
  unfolding to_signing_key jwk_to_ecdsa
  IsMade-to_signing_key key made m = rw (m.curve, m.d, m.x, m.y) (rw m.kid refl)

  IsChosen-∷ :
      (key : JwkPrivateKey) (keys : List JwkPrivateKey) (chosen : SigningKey)
      → ¬ IsSigning key
      → IsChosen keys chosen
      → IsChosen (key ∷ keys) chosen
  IsChosen-∷ key keys chosen n c = record {
    before = key ∷ c.before;
    key = c.key;
    after = c.after;
    split = ap (λ (rest : List JwkPrivateKey). key ∷ rest) c.split;
    skipped = (n, c.skipped);
    signs = c.signs;
    made = c.made;
  }

  parse_signing_key-IsChosen :
      (keys : List JwkPrivateKey) (chosen : SigningKey)
      → parse_signing_key tools keys ≡ ok chosen
      → IsChosen keys chosen
  unfolding parse_signing_key
  parse_signing_key-IsChosen [] chosen h = cc h
  parse_signing_key-IsChosen (key ∷ keys) chosen h =
      let iff = skips_signing-eq-false key in
      elim (Bool-cases (skips_signing key)) [
        | inl skip ↦
            IsChosen-∷ key keys chosen (λ s. cc (skip, iff.1 s))
              (parse_signing_key-IsChosen keys chosen (rw skip at h))
        | inr signs ↦ record {
          before = [];
          key = key;
          after = keys;
          split = refl;
          skipped = tt;
          signs = iff.0 signs;
          made = to_signing_key-IsMade key chosen (rw signs at h);
        }
      ]

  parse_split :
      (before : List JwkPrivateKey) (key : JwkPrivateKey) (after : List JwkPrivateKey)
      → NoneSigns before
      → IsSigning key
      → parse_signing_key tools (before ++ key ∷ after) ≡ to_signing_key tools key
  unfolding parse_signing_key
  parse_split [] key after n s = rw ((skips_signing-eq-false key).1 s) refl
  parse_split (first ∷ before) key after (n, none_of) s = elim (Bool-cases (skips_signing first)) [
    | inl skip ↦ rw skip (parse_split before key after none_of s)
    | inr signs ↦ absurd (n ((skips_signing-eq-false first).0 signs))
  ]

  -- parseSigningKey returns a key exactly when some entry of the key set is the first one with the
  -- use sig, the type EC and a private part that is not empty, and the returned key has this
  -- entry's id, the curve and the method that its crv and alg give, and the three numbers that its
  -- fields d, x and y encode.
  pub parse_signing_key_iff :
      (keys : List JwkPrivateKey) (chosen : SigningKey)
      → (parse_signing_key tools keys ≡ ok chosen) ↔ IsChosen keys chosen
  parse_signing_key_iff keys chosen = (
    parse_signing_key-IsChosen keys chosen,
    λ c.
        ap (parse_signing_key tools) c.split
        ∙ parse_split c.before c.key c.after c.skipped c.signs
        ∙ IsMade-to_signing_key c.key chosen c.made,
  )
