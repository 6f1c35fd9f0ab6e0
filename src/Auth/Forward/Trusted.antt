-- ===== src/Auth/Forward/Trusted.antt =====
-- Which tokens AuthForward turns into identity headers.
use identity_mservice.Base.{Bytes, codes, Option-cases, some, ◌≡◌, inl, inr}
use identity_mservice.Backend.{Backend}
use identity_mservice.Action.{World, Result-cases}
use identity_mservice.Access.Http.{AuthUser, Request}
use identity_mservice.Auth.Jwks.{Keyring}
use identity_mservice.Auth.Token.{Jwt, new_authenticator, authenticate}
use identity_mservice.Auth.Token.Verified.{Authentic, authenticate-Authentic}
use identity_mservice.Auth.Forward.{
  bearer_from_authorization, IdentityHeaders, identity_headers, headers_of, forward_token,
  auth_forward,
}

module _ {b : Backend} (ring : Keyring b) (jwt : Jwt) where
  -- The headers are those of the user whom the bearer token of the request stands for.
  pub record Trusted (req : Request) (headers : IdentityHeaders) (w : World b) : Type 0 where
    pub token : Bytes
    pub user : AuthUser
    pub bearer : bearer_from_authorization (req.header (codes "Authorization")) ≡ some token
    pub authentic : Authentic ring jwt (new_authenticator b) token user w
    pub shown : headers ≡ identity_headers user

  -- If AuthForward sets the two identity headers, then the request had a bearer token of three
  -- parts whose header names RS256 and a key id; its claims have a subject and the configured
  -- issuer, if there is one, an expiry that the first reading of the clock in this call is not
  -- past, and a time before which they do not hold, if any, that this reading has reached; its
  -- signature was verified under the key that the key cache gave for that id behind this reading;
  -- the lookup by the subject, in the world that the verification left, found a mapping; and the
  -- headers show this mapping's user id and role.
  pub auth_forward-Trusted :
      (req : Request) (headers : IdentityHeaders) (w : World b)
      → (auth_forward ring jwt req w).0 ≡ some headers
      → Trusted req headers w
  unfolding auth_forward forward_token headers_of
  auth_forward-Trusted req headers w h =
      elim (Option-cases (bearer_from_authorization (req.header (codes "Authorization")))) [
        | inl missing ↦ cc (rw missing at h)
        | inr (token, given) ↦
            let r = authenticate ring jwt (new_authenticator b) token w in
            elim (Result-cases r.0) [
              | inr (e, refused) ↦ cc (rw (given, refused) at h)
              | inl (user, accepted) ↦
                  let shown : some (identity_headers user) ≡ some headers =
                    rw (given, accepted) at h in
                  record {
                    token = token;
                    user = user;
                    bearer = given;
                    authentic =
                        authenticate-Authentic ring jwt (new_authenticator b) token user w r.1
                          (λ i. (accepted i, r.1));
                    shown = cc shown;
                  }
            ]
      ]
